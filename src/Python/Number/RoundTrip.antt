-- ===== src/Python/Number/RoundTrip.antt =====
-- `int` after `str` and after the format `06d`.
use native.Mathlib.Nat.{pow-suc}
use lora_multihop.Prelude.{
  ℕ, zero, suc, ◌+◌, ◌*◌, ◌/◌, ◌%◌, ◌^◌, ◌<◌, ◌≤◌, Text, Bool, true, false, [], ◌∷◌, ◌++◌,
  append_assoc, append-nil, some, ◌≡◌, refl, ℤ, pos, negsuc, ok, length, length-append, arith, All,
  All-append,
}
use lora_multihop.Python.Number.{
  is_space, strip_end, strip, magnitude, signed, int, digits, str_ℕ, str_ℤ, pad, format_06d,
}

abbrev pub IsDigit : ℕ → Type 0
IsDigit c = (b'0' ≤ c) × (c ≤ b'9')

digits-IsDigit : (f n : ℕ) → All IsDigit (digits f n)
unfolding digits
digits-IsDigit zero n = tt
digits-IsDigit (suc f) n = ground (
  arith,
  All-append IsDigit (digits f (n / 10)) ((b'0' + n % 10) ∷ []),
  digits-IsDigit f (n / 10),
)

magnitude-digits :
    (f n : ℕ) (b : Bool) (rest : Text)
    → n < f
    → magnitude 0 b (digits f n ++ rest) ≡ magnitude n true rest
unfolding digits magnitude
magnitude-digits zero n b rest h = elim h [ ]
magnitude-digits (suc f) n b rest h = ground (
  arith,
  append_assoc (digits f (n / 10)) ((b'0' + n % 10) ∷ []) rest,
  magnitude-digits f (n / 10) b ((b'0' + n % 10) ∷ rest),
)

digit-not_space : (c : ℕ) → IsDigit c → is_space c ≡ false
unfolding is_space
digit-not_space c h = ground arith

strip_end-digits : (s : Text) → All IsDigit s → strip_end s ≡ s
unfolding strip_end
strip_end-digits [] h = refl
strip_end-digits (c ∷ s) h = ground (arith, strip_end-digits s h.1, digit-not_space c h.0)

strip-digits : (s : Text) → All IsDigit s → strip s ≡ s
unfolding strip
strip-digits [] h = refl
strip-digits (c ∷ s) h = ground (arith, strip_end-digits (c ∷ s) h, digit-not_space c h.0)

-- A text of digits is read as the number that they spell.
int-digits : (s : Text) (n : ℕ) → All IsDigit s → magnitude 0 false s ≡ some n → int s ≡ ok (pos n)
unfolding int signed
int-digits [] n h m = unfold magnitude in cc
int-digits (c ∷ s) n h m = ground (arith, strip-digits (c ∷ s) h)

-- Behind a minus sign they are read as its negation.
int-minus :
    (s : Text) (n : ℕ)
    → All IsDigit s
    → magnitude 0 false s ≡ some (suc n)
    → int (b'-' ∷ s) ≡ ok (negsuc n)
unfolding int signed strip strip_end is_space
int-minus [] n h m = unfold magnitude in cc
int-minus (c ∷ s) n h m = ground (arith, strip_end-digits (c ∷ s) h)

magnitude-str_ℕ : (n : ℕ) → magnitude 0 false (str_ℕ n) ≡ some n
unfolding str_ℕ magnitude
magnitude-str_ℕ n = rw append-nil at (magnitude-digits (suc n) n false [] (omega arith))

pub str_ℕ-IsDigit : (n : ℕ) → All IsDigit (str_ℕ n)
unfolding str_ℕ
str_ℕ-IsDigit n = digits-IsDigit (suc n) n

-- `int(str(z))` is `z`, for every integer.
pub int-str_ℤ : (z : ℤ) → int (str_ℤ z) ≡ ok z
unfolding str_ℤ
int-str_ℤ (pos n) = int-digits (str_ℕ n) n (str_ℕ-IsDigit n) (magnitude-str_ℕ n)
int-str_ℤ (negsuc n) = int-minus (str_ℕ (suc n)) n (str_ℕ-IsDigit (suc n)) (magnitude-str_ℕ (suc n))

pad-IsDigit : (w : ℕ) (s : Text) → All IsDigit s → All IsDigit (pad w s)
unfolding pad
pad-IsDigit zero s h = h
pad-IsDigit (suc w) s h = ground (arith, pad-IsDigit w s h)

pub format_06d-IsDigit : (n : ℕ) → All IsDigit (format_06d (pos n))
unfolding format_06d
format_06d-IsDigit n = pad-IsDigit 6 (str_ℕ n) (str_ℕ-IsDigit n)

zeros : (s : Text) (b : Bool) → (n : ℕ) → magnitude 0 false s ≡ some n → magnitude 0 b s ≡ some n
unfolding magnitude
zeros [] b n h = cc
zeros (c ∷ s) b n h = ground arith

magnitude-pad :
    (w : ℕ) (s : Text) (n : ℕ) → magnitude 0 false s ≡ some n → magnitude 0 false (pad w s) ≡ some n
unfolding pad
magnitude-pad zero s n h = h
magnitude-pad (suc w) s n h =
    ground (arith, magnitude-pad w s n h, zeros (pad w s) true n, zero_first (pad w s))
  where
    zero_first : (t : Text) → magnitude 0 false (b'0' ∷ t) ≡ magnitude 0 true t
    zero_first t = unfold magnitude in refl

-- `int` reads a message id back from its six digits.
pub int-format_06d : (z : ℤ) → int (format_06d z) ≡ ok z
unfolding format_06d
int-format_06d (pos n) =
    int-digits (pad 6 (str_ℕ n)) n (pad-IsDigit 6 (str_ℕ n) (str_ℕ-IsDigit n))
      (magnitude-pad 6 (str_ℕ n) n (magnitude-str_ℕ n))
int-format_06d (negsuc n) =
    int-minus (pad 5 (str_ℕ (suc n))) n (pad-IsDigit 5 (str_ℕ (suc n)) (str_ℕ-IsDigit (suc n)))
      (magnitude-pad 5 (str_ℕ (suc n)) (suc n) (magnitude-str_ℕ (suc n)))

length-pad : (w : ℕ) (s : Text) → length s ≤ w → length (pad w s) ≡ w
unfolding pad
length-pad zero s h = omega arith
length-pad (suc w) s h = ground (arith, length-pad w s)

tenth_lt : (n k : ℕ) → n < 10 ^ suc (suc k) → n / 10 < 10 ^ suc k
tenth_lt n k h = let e : 10 ^ suc (suc k) ≡ 10 ^ suc k * 10 = pow-suc 10 (suc k) in omega arith

length-digits : (f n k : ℕ) → n < 10 ^ suc k → length (digits f n) ≤ suc k
unfolding digits
length-digits zero n k h = omega arith
length-digits (suc f) n zero h = let small : n < 10 = h in ground arith
length-digits (suc f) n (suc k) h = ground (
  arith,
  length-append (digits f (n / 10)) ((b'0' + n % 10) ∷ []),
  length-digits f (n / 10) k (tenth_lt n k h),
)

-- A message id below a million is printed with six digits.
pub length-format_06d : (n : ℕ) → n < 1000000 → length (format_06d (pos n)) ≡ 6
unfolding format_06d str_ℕ
length-format_06d n h = length-pad 6 (digits (suc n) n) (length-digits (suc n) n 5 h)

pub str_ℕ_digit : (n : ℕ) → n < 10 → str_ℕ n ≡ (b'0' + n) ∷ []
unfolding str_ℕ digits
str_ℕ_digit n h = ground arith
