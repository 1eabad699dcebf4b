-- ===== src/Python/Base64.antt =====
-- `base64.b64encode(payload).decode('utf-8')` and `base64.b64decode(text)`, which skips what is no
-- letter of the alphabet, stops at a complete padding and raises a `ValueError` on a broken end.
use lora_multihop.Prelude.{
  ℕ, ◌+◌, ◌-◌, ◌*◌, ◌/◌, ◌%◌, ◌<◌, Text, ◌==◌, ltb, leb, if◌then◌else◌, Bool, true, ◌&&◌, List, [],
  ◌∷◌, ◌++◌, Option, none, some, ◌≡◌, refl, Result, ok, value_error, or_raise, check, arith, All,
}
use lora_multihop.Prelude.Bind.{◌>>◌}

-- The letter of a number below 64.
unfoldable pub letter : ℕ → ℕ
letter n =
    if ltb n 26
    then b'A' + n
    else if ltb n 52
    then b'a' + (n - 26)
    else if ltb n 62
    then b'0' + (n - 52)
    else if n == 62
    then b'+'
    else b'/'

-- The number that a letter stands for.
unfoldable pub value : ℕ → Option ℕ
value c =
    if leb b'A' c && leb c b'Z'
    then some (c - b'A')
    else if leb b'a' c && leb c b'z'
    then some (c - b'a' + 26)
    else if leb b'0' c && leb c b'9'
    then some (c - b'0' + 52)
    else if c == b'+'
    then some 62
    else if c == b'/'
    then some 63
    else none

unfoldable pub b64encode : List ℕ → Text
unfolding letter
b64encode [] = []
b64encode (a ∷ []) = letter (a / 4) ∷ letter (a % 4 * 16) ∷ b'=' ∷ b'=' ∷ []
b64encode (a ∷ b ∷ []) =
    letter (a / 4) ∷ letter (a % 4 * 16 + b / 16) ∷ letter (b % 16 * 4) ∷ b'=' ∷ []
b64encode (a ∷ b ∷ c ∷ s) =
    letter (a / 4)
    ∷ letter (a % 4 * 16 + b / 16)
    ∷ letter (b % 16 * 4 + c / 64)
    ∷ letter (c % 64)
    ∷ b64encode s

-- How many letters of a group of four have been read, with the bits that are left over.
pub data Quad : Type 0 where
  none_yet : Quad
  one two three : ℕ → Quad

abbrev emit : ℕ → Option (List ℕ) → Option (List ℕ)
emit b none = none
emit b (some out) = some (b ∷ out)

-- `pads` counts the padding since the last letter, once two letters of the group are there.
unfoldable pub decode : Quad → ℕ → Text → Option (List ℕ)
decode none_yet pads [] = some []
decode _ pads [] = none
decode none_yet pads (c ∷ s) =
    let skip = decode none_yet pads s in
    elim (value c) [ none ↦ skip | some v ↦ decode (one v) 0 s ]
decode (one l) pads (c ∷ s) =
    let skip = decode (one l) pads s in
    elim (value c) [ none ↦ skip | some v ↦ emit (l * 4 + v / 16) (decode (two (v % 16)) 0 s) ]
decode (two l) pads (c ∷ s) =
    let padded = decode (two l) (pads + 1) s in
    let skip = decode (two l) pads s in
    elim (value c) [
      | none ↦ if c == b'=' then if leb 4 (2 + (pads + 1)) then some [] else padded else skip
      | some v ↦ emit (l * 16 + v / 4) (decode (three (v % 4)) 0 s)
    ]
decode (three l) pads (c ∷ s) =
    let skip = decode (three l) pads s in
    elim (value c) [
      | none ↦ if c == b'=' then some [] else skip
      | some v ↦ emit (l * 64 + v) (decode none_yet 0 s)
    ]

unfoldable pub all_ascii : Text → Bool
all_ascii [] = true
all_ascii (c ∷ s) = ltb c 128 && all_ascii s

unfoldable pub b64decode : Text → Result (List ℕ)
b64decode s = do check (all_ascii s) value_error; or_raise (decode none_yet 0 s) value_error

abbrev pub IsByte : ℕ → Type 0
IsByte b = b < 256

-- Not a letter of the alphabet.
abbrev pub IsSkipped : ℕ → Type 0
IsSkipped c = (c < 128) × (value c ≡ none)

value-letter : (n : ℕ) → n < 64 → value (letter n) ≡ some n
unfolding value letter
value-letter n h = ground arith

letter-lt : (n : ℕ) → letter n < 128
unfolding letter
letter-lt n = ground arith

decode-skipped : (pads : ℕ) (tail : Text) → All IsSkipped tail → decode none_yet pads tail ≡ some []
unfolding decode
decode-skipped pads [] h = refl
decode-skipped pads (c ∷ s) h = ground (arith, decode-skipped pads s h.1)

decode-group :
    (a b c pads : ℕ) (s : Text)
    → a < 256
    → b < 256
    → c < 256
    → decode none_yet pads (
        letter (a / 4)
        ∷ letter (a % 4 * 16 + b / 16)
        ∷ letter (b % 16 * 4 + c / 64)
        ∷ letter (c % 64)
        ∷ s)
      ≡ emit a (emit b (emit c (decode none_yet 0 s)))
unfolding decode
decode-group a b c pads s ha hb hc = ground (
  arith,
  value-letter (a / 4),
  value-letter (a % 4 * 16 + b / 16),
  value-letter (b % 16 * 4 + c / 64),
  value-letter (c % 64),
)

decode-b64encode :
    (p : List ℕ) (tail : Text) (pads : ℕ)
    → All IsByte p
    → All IsSkipped tail
    → decode none_yet pads (b64encode p ++ tail) ≡ some p
unfolding b64encode
decode-b64encode [] tail pads h t = decode-skipped pads tail t
decode-b64encode (a ∷ []) tail pads h t =
    unfold decode value in ground (arith, value-letter (a / 4), value-letter (a % 4 * 16))
decode-b64encode (a ∷ b ∷ []) tail pads h t =
    unfold decode value in
    ground
      (arith, value-letter (a / 4), value-letter (a % 4 * 16 + b / 16), value-letter (b % 16 * 4))
decode-b64encode (a ∷ b ∷ c ∷ p) tail pads (ha, (hb, (hc, h))) t =
    rw (decode-group a b c pads (b64encode p ++ tail) ha hb hc, decode-b64encode p tail 0 h t)

all_ascii-skipped : (tail : Text) → All IsSkipped tail → all_ascii tail ≡ true
unfolding all_ascii
all_ascii-skipped [] h = refl
all_ascii-skipped (c ∷ s) h = ground (arith, all_ascii-skipped s h.1)

all_ascii-b64encode :
    (p : List ℕ) (tail : Text) → All IsSkipped tail → all_ascii (b64encode p ++ tail) ≡ true
unfolding b64encode all_ascii
all_ascii-b64encode [] tail t = all_ascii-skipped tail t
all_ascii-b64encode (a ∷ []) tail t =
    ground (arith, letter-lt (a / 4), letter-lt (a % 4 * 16), all_ascii-skipped tail t)
all_ascii-b64encode (a ∷ b ∷ []) tail t = ground (
  arith,
  letter-lt (a / 4),
  letter-lt (a % 4 * 16 + b / 16),
  letter-lt (b % 16 * 4),
  all_ascii-skipped tail t,
)
all_ascii-b64encode (a ∷ b ∷ c ∷ p) tail t = ground (
  arith,
  letter-lt (a / 4),
  letter-lt (a % 4 * 16 + b / 16),
  letter-lt (b % 16 * 4 + c / 64),
  letter-lt (c % 64),
  all_ascii-b64encode p tail t,
)

-- Decoding gives the bytes back, also where characters outside the alphabet follow the text.
pub b64decode-b64encode :
    (p : List ℕ) (tail : Text)
    → All IsByte p
    → All IsSkipped tail
    → b64decode (b64encode p ++ tail) ≡ ok p
unfolding b64decode
b64decode-b64encode p tail h t = rw (all_ascii-b64encode p tail t, decode-b64encode p tail 0 h t)
