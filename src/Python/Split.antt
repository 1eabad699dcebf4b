-- ===== src/Python/Split.antt =====
-- `str.split(sep)` and `str.split(sep, maxsplit=n)` for a separator of one character, and slices.
use lora_multihop.Prelude.{
  ℕ, zero, suc, Text, ◌==◌, if◌then◌else◌, List, [], ◌∷◌, ◌++◌, Option, none, some, ◌≡◌, ◌≢◌, refl,
  All, arith, take, drop,
}

-- `s[a:b]` for bounds that are not negative
abbrev pub slice : ℕ → ℕ → Text → Text
slice a b s = drop a (take b s)

-- `del xs[0]` on a list that is not empty
abbrev pub rest_of {ℓ} : {A : Type ℓ} → List A → List A
rest_of [] = []
rest_of (x ∷ xs) = xs

-- puts a character before the first part
abbrev grow : ℕ → List Text → List Text
grow c [] = (c ∷ []) ∷ []
grow c (p ∷ ps) = (c ∷ p) ∷ ps

unfoldable pub split : ℕ → Text → List Text
split sep [] = [] ∷ []
split sep (c ∷ s) = let parts = split sep s in if c == sep then [] ∷ parts else grow c parts

-- The text before the first separator, and what follows it if there is one.
unfoldable pub partition : ℕ → Text → Text × Option Text
partition sep [] = ([], none)
partition sep (c ∷ s) =
    let later = partition sep s in if c == sep then ([], some s) else (c ∷ later.0, later.1)

unfoldable pub split_max : ℕ → ℕ → Text → List Text
split_max sep zero s = s ∷ []
split_max sep (suc n) s = elim (partition sep s).1 [
  | none ↦ (partition sep s).0 ∷ []
  | some later ↦ (partition sep s).0 ∷ split_max sep n later
]

abbrev pub Lacks : ℕ → Text → Type 0
Lacks sep = All (λ c. c ≢ sep)

module _ (sep : ℕ) where
  -- A part that lacks the separator is cut off whole.
  pub split-append :
      (p rest : Text) → Lacks sep p → split sep (p ++ sep ∷ rest) ≡ p ∷ split sep rest
  unfolding split
  split-append [] rest h = ground arith
  split-append (c ∷ p) rest h = ground (arith, split-append p rest)

  pub split_last : (p : Text) → Lacks sep p → split sep p ≡ p ∷ []
  unfolding split
  split_last [] h = refl
  split_last (c ∷ p) h = ground (arith, split_last p)

  pub split-ne-nil : (s : Text) → (p : Text) × (ps : List Text) × (split sep s ≡ p ∷ ps)
  unfolding split
  split-ne-nil [] = ([], [], refl)
  split-ne-nil (c ∷ s) = after (split-ne-nil s)
    where
      after :
          ((p : Text) × (ps : List Text) × (split sep s ≡ p ∷ ps))
          → (p : Text) × (ps : List Text) × (split sep (c ∷ s) ≡ p ∷ ps)
      after (p, ps, e) =
          ((if c == sep then [] else c ∷ p), (if c == sep then p ∷ ps else ps), ground (arith, e))

  partition-append :
      (p rest : Text) → Lacks sep p → partition sep (p ++ sep ∷ rest) ≡ (p, some rest)
  unfolding partition
  partition-append [] rest h = ground arith
  partition-append (c ∷ p) rest h = ground (arith, partition-append p rest)

  pub split_max-append :
      (n : ℕ) (p rest : Text)
      → Lacks sep p
      → split_max sep (suc n) (p ++ sep ∷ rest) ≡ p ∷ split_max sep n rest
  unfolding split_max
  split_max-append n p rest h = ground (arith, partition-append p rest h)
