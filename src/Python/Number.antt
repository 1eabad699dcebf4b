-- ===== src/Python/Number.antt =====
-- `int(text)`, `str(int)` and the format `06d`. `int` reads what Python reads of a text whose digits
-- are ASCII: white space around it, a sign, digits with single underscores between them. (Python
-- also reads the decimal digits of other scripts, which are refused here.)
pub mod RoundTrip
use lora_multihop.Prelude.{
  ℕ, zero, suc, ◌+◌, ◌-◌, ◌*◌, ◌/◌, ◌%◌, Text, ◌==◌, ltb, leb, if◌then◌else◌, Bool, true, false,
  ◌&&◌, ◌||◌, [], ◌∷◌, ◌++◌, Option, none, some, ℤ, pos, negsuc, sub_ℕ, Result, value_error,
  or_raise, length,
}

abbrev pub is_digit : ℕ → Bool
is_digit c = leb b'0' c && leb c b'9'

-- `str.isspace` of one character
unfoldable pub is_space : ℕ → Bool
is_space c =
    leb 9 c && leb c 13
    || leb 28 c && leb c 32
    || c == 0x85
    || c == 0xa0
    || c == 0x1680
    || leb 0x2000 c && leb c 0x200a
    || c == 0x2028
    || c == 0x2029
    || c == 0x202f
    || c == 0x205f
    || c == 0x3000

unfoldable pub strip_start : Text → Text
strip_start [] = []
strip_start (c ∷ s) = let rest = strip_start s in if is_space c then rest else c ∷ s

unfoldable pub strip_end : Text → Text
strip_end [] = []
strip_end (c ∷ s) = elim (strip_end s) [
  | [] ↦ if is_space c then [] else c ∷ []
  | d ∷ r ↦ c ∷ d ∷ r
]

unfoldable pub strip : Text → Text
unfolding strip_start strip_end
strip s = strip_end (strip_start s)

-- The second argument says whether the character before was a digit.
unfoldable pub magnitude : ℕ → Bool → Text → Option ℕ
magnitude n after_digit [] = if after_digit then some n else none
magnitude n after_digit (c ∷ s) =
    let digit = magnitude (n * 10 + (c - b'0')) true s in
    let underscore = magnitude n false s in
    if is_digit c then digit else if c == b'_' && after_digit then underscore else none

abbrev negated : Option ℕ → Option ℤ
negated none = none
negated (some n) = some (sub_ℕ 0 n)

abbrev plain : Option ℕ → Option ℤ
plain none = none
plain (some n) = some (pos n)

unfoldable pub signed : Text → Option ℤ
unfolding magnitude
signed [] = none
signed (c ∷ s) =
    if c == b'-'
    then negated (magnitude 0 false s)
    else if c == b'+'
    then plain (magnitude 0 false s)
    else plain (magnitude 0 false (c ∷ s))

unfoldable pub int : Text → Result ℤ
int s = or_raise (signed (strip s)) value_error

-- The fuel bounds the number of digits.
unfoldable pub digits : ℕ → ℕ → Text
digits zero n = []
digits (suc fuel) n =
    let front = digits fuel (n / 10) in
    if ltb n 10 then (b'0' + n) ∷ [] else front ++ (b'0' + n % 10) ∷ []

unfoldable pub str_ℕ : ℕ → Text
unfolding digits
str_ℕ n = digits (suc n) n

-- `str(n)` of an `int`
unfoldable pub str_ℤ : ℤ → Text
unfolding str_ℕ
str_ℤ (pos n) = str_ℕ n
str_ℤ (negsuc n) = b'-' ∷ str_ℕ (suc n)

-- at least `width` characters, filled with zeros from the left
unfoldable pub pad : ℕ → Text → Text
pad zero s = s
pad (suc width) s = if ltb (length s) (suc width) then b'0' ∷ pad width s else s

-- `f'{n:06d}'`
unfoldable pub format_06d : ℤ → Text
unfolding pad str_ℕ
format_06d (pos n) = pad 6 (str_ℕ n)
format_06d (negsuc n) = b'-' ∷ pad 5 (str_ℕ (suc n))
