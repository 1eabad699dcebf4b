-- ===== src/Python/Utf8.antt =====
-- `bytes(text, 'utf-8')` and `data.decode('utf-8')`. Both raise a subclass of `ValueError`: on a
-- surrogate, and on bytes that no text is encoded to.
use lora_multihop.Prelude.{
  ℕ, zero, suc, ◌+◌, ◌-◌, ◌*◌, ◌/◌, ◌%◌, ◌<◌, ◌≤◌, Text, ltb, leb, if◌then◌else◌, Bool, true, false,
  ◌&&◌, ◌||◌, List, [], ◌∷◌, ◌++◌, Option, none, some, ◌≡◌, refl, Result, ok, Exception,
  value_error, or_raise, arith, ap, sym, ◌∙◌, inl, inr, Bool-cases, le→leb, lt→ltb,
}

-- A code point that has an encoding: no surrogate.
unfoldable pub is_scalar : ℕ → Bool
is_scalar c = ltb c 0xd800 || (leb 0xe000 c && ltb c 0x110000)

-- the last six bits of what is left, behind the mark of a continuation byte
abbrev continuation : ℕ → ℕ
continuation n = 128 + n % 64

-- The encoding of a code point that has one.
unfoldable pub char_bytes : ℕ → List ℕ
char_bytes c =
    if ltb c 0x80
    then c ∷ []
    else if ltb c 0x800
    then (192 + c / 64) ∷ continuation c ∷ []
    else if ltb c 0x10000
    then (224 + c / 64 / 64) ∷ continuation (c / 64) ∷ continuation c ∷ []
    else (240 + c / 64 / 64 / 64)
      ∷ continuation (c / 64 / 64)
      ∷ continuation (c / 64)
      ∷ continuation c
      ∷ []

abbrev before : List ℕ → Option (List ℕ) → Option (List ℕ)
before bytes none = none
before bytes (some rest) = some (bytes ++ rest)

unfoldable pub encode_text : Text → Option (List ℕ)
encode_text [] = some []
encode_text (c ∷ s) =
    let rest = encode_text s in if is_scalar c then before (char_bytes c) rest else none

unfoldable pub encode : Text → Result (List ℕ)
encode s = or_raise (encode_text s) value_error

-- Between two characters, or in one: the number of bytes that follow the next one, the number read so
-- far, and the least code point that needs so many bytes.
pub data Progress : Type 0 where
  between : Progress
  within : ℕ → ℕ → ℕ → Progress

abbrev emit : ℕ → Option Text → Option Text
emit c none = none
emit c (some s) = some (c ∷ s)

unfoldable pub decode_bytes : Progress → List ℕ → Option Text
decode_bytes between [] = some []
decode_bytes (within more n least) [] = none
decode_bytes between (b ∷ bytes) =
    let one = decode_bytes between bytes in
    let two = decode_bytes (within 0 (b - 192) 0x80) bytes in
    let three = decode_bytes (within 1 (b - 224) 0x800) bytes in
    let four = decode_bytes (within 2 (b - 240) 0x10000) bytes in
    if ltb b 0x80
    then emit b one
    else if leb 192 b && ltb b 224
    then two
    else if leb 224 b && ltb b 240
    then three
    else if leb 240 b && ltb b 248
    then four
    else none
decode_bytes (within zero n least) (b ∷ bytes) =
    let c = n * 64 + (b - 128) in
    let rest = decode_bytes between bytes in
    if (leb 128 b && ltb b 192) && (leb least c && is_scalar c) then emit c rest else none
decode_bytes (within (suc more) n least) (b ∷ bytes) =
    let rest = decode_bytes (within more (n * 64 + (b - 128)) least) bytes in
    if leb 128 b && ltb b 192 then rest else none

unfoldable pub decode : List ℕ → Result Text
decode bytes = or_raise (decode_bytes between bytes) value_error

-- A byte that starts a character of several.
start-two :
    (b : ℕ) (bytes : List ℕ)
    → 192 ≤ b
    → b < 224
    → decode_bytes between (b ∷ bytes) ≡ decode_bytes (within 0 (b - 192) 0x80) bytes
unfolding decode_bytes
start-two b bytes ge lt = ground arith

start-three :
    (b : ℕ) (bytes : List ℕ)
    → 224 ≤ b
    → b < 240
    → decode_bytes between (b ∷ bytes) ≡ decode_bytes (within 1 (b - 224) 0x800) bytes
unfolding decode_bytes
start-three b bytes ge lt = ground arith

start-four :
    (b : ℕ) (bytes : List ℕ)
    → 240 ≤ b
    → b < 248
    → decode_bytes between (b ∷ bytes) ≡ decode_bytes (within 2 (b - 240) 0x10000) bytes
unfolding decode_bytes
start-four b bytes ge lt =
    let big : (n : ℕ) → n ≤ 240 → ltb b n ≡ false = λ n le. ground arith in
    rw
      (
        big 0x80 (omega arith),
        big 224 (omega arith),
        big 240 (omega arith),
        le→leb 192 b (omega arith),
        le→leb 224 b (omega arith),
        le→leb 240 b ge,
        lt→ltb b 248 lt,
      )
      refl

-- A byte in the middle of a character, and the last one.
middle :
    (more n d least : ℕ) (bytes : List ℕ)
    → d < 64
    → decode_bytes (within (suc more) n least) ((128 + d) ∷ bytes)
      ≡ decode_bytes (within more (n * 64 + d) least) bytes
unfolding decode_bytes
middle more n d least bytes lt =
    rw (le→leb 128 (128 + d) (omega arith), lt→ltb (128 + d) 192 (omega arith))
      (ap (λ (e : ℕ). decode_bytes (within more (n * 64 + e) least) bytes) (omega arith))

last :
    (n d least c : ℕ) (bytes : List ℕ)
    → d < 64
    → c ≡ n * 64 + d
    → least ≤ c
    → is_scalar c ≡ true
    → decode_bytes (within zero n least) ((128 + d) ∷ bytes) ≡ emit c (decode_bytes between bytes)
unfolding decode_bytes
last n d least c bytes lt e ge scalar =
    let same : n * 64 + (128 + d - 128) ≡ c = omega arith in
    rw
      (
        same,
        le→leb 128 (128 + d) (omega arith),
        lt→ltb (128 + d) 192 (omega arith),
        le→leb least c ge,
        scalar,
      )
      refl

scalar-lt : (c : ℕ) → is_scalar c ≡ true → c < 0x110000
unfolding is_scalar
scalar-lt c h = ground arith

decode-char :
    (c : ℕ) (rest : List ℕ)
    → is_scalar c ≡ true
    → decode_bytes between (char_bytes c ++ rest) ≡ emit c (decode_bytes between rest)
unfolding char_bytes
decode-char c rest scalar = elim (Bool-cases (ltb c 0x80)) [
  | inl one ↦ rw one (unfold decode_bytes in rw one refl)
  | inr ge ↦ elim (Bool-cases (ltb c 0x800)) [
    | inl two ↦
        rw (ge, two)
          (start-two (192 + c / 64) _ (omega arith) (ground arith)
            ∙ last (192 + c / 64 - 192) (c % 64) 0x80 c rest (omega arith) (omega arith)
                (ground arith) scalar)
    | inr ge' ↦ elim (Bool-cases (ltb c 0x10000)) [
      | inl three ↦
          rw (ge, ge', three)
            (start-three (224 + c / 64 / 64) _ (omega arith) (ground arith)
              ∙ middle 0 (224 + c / 64 / 64 - 224) ((c / 64) % 64) 0x800 _ (omega arith)
              ∙ last _ (c % 64) 0x800 c rest (omega arith) (omega arith) (ground arith) scalar)
      | inr ge'' ↦
          rw (ge, ge', ge'')
            (start-four (240 + c / 64 / 64 / 64) _ (omega arith) (omega (arith, scalar-lt c scalar))
              ∙ middle 1 (240 + c / 64 / 64 / 64 - 240) ((c / 64 / 64) % 64) 0x10000 _ (omega arith)
              ∙ middle 0 _ ((c / 64) % 64) 0x10000 _ (omega arith)
              ∙ last _ (c % 64) 0x10000 c rest (omega arith) (omega arith) (ground arith) scalar)
    ]
  ]
]

before-some :
    (bytes all : List ℕ) (o : Option (List ℕ))
    → before bytes o ≡ some all
    → (rest : List ℕ) × (o ≡ some rest) × (all ≡ bytes ++ rest)
before-some bytes all none h = cc
before-some bytes all (some rest) h = (rest, refl, cc)

decode-encode_text :
    (s : Text) (bytes : List ℕ) → encode_text s ≡ some bytes → decode_bytes between bytes ≡ some s
unfolding encode_text
decode-encode_text [] bytes h = coded bytes h
  where
    coded : (bytes : List ℕ) → some [] ≡ some bytes → decode_bytes between bytes ≡ some []
    coded [] e = unfold decode_bytes in refl
    coded (b ∷ bytes) e = cc
decode-encode_text (c ∷ s) bytes h = elim (Bool-cases (is_scalar c)) [
  | inl scalar ↦
      let (rest, coded, whole) = before-some (char_bytes c) bytes (encode_text s) (
        ap (λ (b : Bool). if b then before (char_bytes c) (encode_text s) else none) (sym scalar)
        ∙ h) in
      rw (whole, decode-char c rest scalar, decode-encode_text s rest coded) refl
  | inr surrogate ↦ cc
]

or_raise-ok {ℓ} :
    {A : Type ℓ} (o : Option A) (e : Exception) (a : A) → or_raise o e ≡ ok a → o ≡ some a
or_raise-ok none e a h = cc
or_raise-ok (some b) e a h = cc

-- What a text is encoded to is decoded to the text.
pub decode-encode : (s : Text) (bytes : List ℕ) → encode s ≡ ok bytes → decode bytes ≡ ok s
unfolding encode decode
decode-encode s bytes h =
    rw (decode-encode_text s bytes (or_raise-ok (encode_text s) value_error bytes h)) refl
