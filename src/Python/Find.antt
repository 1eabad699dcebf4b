-- ===== src/Python/Find.antt =====
-- `part in text`, `text.lower()` of ASCII letters, and `text.startswith(part)`.
use lora_multihop.Prelude.{
  Text, ◌==◌, leb, ◌+◌, if◌then◌else◌, Bool, true, false, ◌&&◌, ◌||◌, [], ◌∷◌,
}

unfoldable pub starts_with : Text → Text → Bool
starts_with [] s = true
starts_with (c ∷ part) [] = false
starts_with (c ∷ part) (d ∷ s) = c == d && starts_with part s

unfoldable pub occurs : Text → Text → Bool
unfolding starts_with
occurs part [] = starts_with part []
occurs part (c ∷ s) = starts_with part (c ∷ s) || occurs part s

-- `text.lower()` of the ASCII letters. No other letter has the letters of `true` as its lower case.
unfoldable pub lower : Text → Text
lower [] = []
lower (c ∷ s) = (if leb b'A' c && leb c b'Z' then c + 32 else c) ∷ lower s
