-- ===== src/Prelude/Bind.antt =====
-- `do` blocks for pure functions that may raise.
use mathlib.Core.Path.{◌≡◌, refl, subst}
use mathlib.Core.Bool.{Bool, true, false}
use lora_multihop.Prelude.Tests.{if◌then◌else◌}
use lora_multihop.Prelude.Results.{Result, ok, raised}

infixl 5 ◌>>=◌ ◌>>◌
-- An exception ends the block.
abbrev pub ◌>>=◌ {ℓ ℓ'} : {B : Type ℓ'} {A : Type ℓ} → Result A → (A → Result B) → Result B
raised exception >>= _ = raised exception
ok value >>= rest = rest value

-- a statement without a result, as a check
abbrev pub ◌>>◌ {ℓ} : {B : Type ℓ} → Result (Unit {0}) → Result B → Result B
statement >> rest = statement >>= λ nothing. rest

-- What a result satisfies if it is no exception.
pub record Ensures {ℓ κ} {A : Type ℓ} (P : A → Type κ) (r : Result A) : Type (ℓ ⊔ κ) where
  pub at : (a : A) → r ≡ ok a → P a

pub Ensures-bind {ℓ κ μ} :
    {A : Type ℓ} {B : Type κ} {P : B → Type μ} (m : Result A) (f : A → Result B)
    → ((a : A) → m ≡ ok a → Ensures P (f a))
    → Ensures P (m >>= f)
Ensures-bind (ok a) f h = h a refl
Ensures-bind (raised e) f h = record { at = λ b p. cc }

pub Ensures-if {ℓ κ} :
    {A : Type ℓ} {P : A → Type κ} (b : Bool) (m n : Result A)
    → (b ≡ true → Ensures P m)
    → (b ≡ false → Ensures P n)
    → Ensures P (if b then m else n)
Ensures-if true m n h k = h refl
Ensures-if false m n h k = k refl

pub Ensures-ok {ℓ κ} : {A : Type ℓ} (P : A → Type κ) (a : A) → P a → Ensures P (ok a)
Ensures-ok P a h = record { at = λ b e. subst P (cc) h }
