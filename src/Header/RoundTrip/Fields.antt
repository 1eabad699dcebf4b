-- ===== src/Header/RoundTrip/Fields.antt =====
-- Cutting a framed text into its fields.
use lora_multihop.Prelude.{
  Text, List, [], ◌∷◌, ◌++◌, append_assoc, ℤ, ◌≡◌, refl, ok, arith, All, length,
}
use lora_multihop.Variables.{header_delimiter, lora_module_delimiter}
use lora_multihop.Python.Split.{Lacks, rest_of, split, split_max, split-append, split_max-append}
use lora_multihop.Python.Number.{str_ℤ}
use lora_multihop.Python.Number.RoundTrip.{int-str_ℤ}
use lora_multihop.Header.{delimited}
use lora_multihop.Header.Sendable.{line}
use lora_multihop.Header.Parse.{del_last, check_int_field, check_addr_field}

-- The values of a header are cut off one by one.
pub split-delimited :
    (vs : List Text) (rest : Text)
    → All (Lacks header_delimiter) vs
    → split header_delimiter (delimited vs ++ rest) ≡ vs ++ split header_delimiter rest
split-delimited [] rest h = refl
split-delimited (v ∷ vs) rest h =
    rw (append_assoc v (header_delimiter ∷ delimited vs) rest)
      (rw (split-append header_delimiter v (delimited vs ++ rest) h.0, split-delimited vs rest h.1))

pub rest_of-split :
    (s : Text) → rest_of (split header_delimiter (header_delimiter ∷ s)) ≡ split header_delimiter s
rest_of-split s = rw (split-append header_delimiter [] s tt)

pub del_last-concat {ℓ} : {A : Type ℓ} (xs : List A) (x : A) → del_last (xs ++ x ∷ []) ≡ ok xs
del_last-concat [] x = refl
del_last-concat (y ∷ []) x = refl
del_last-concat (y ∷ z ∷ xs) x = rw (del_last-concat (z ∷ xs) x)

pub del_last-cons {ℓ} :
    {A : Type ℓ} (x : A) (xs : List A) → (ys : List A) × (del_last (x ∷ xs) ≡ ok ys)
del_last-cons x [] = ([], refl)
del_last-cons x (y ∷ xs) = let (ys, e) = del_last-cons y xs in (x ∷ ys, rw e)

pub check_addr : (a : Text) → length a ≡ 4 → check_addr_field a ≡ ok tt
unfolding check_addr_field
check_addr a h = ground arith

pub check_int-str_ℤ : (z : ℤ) → check_int_field (str_ℤ z) ≡ ok tt
unfolding check_int_field
check_int-str_ℤ z = ground (arith, int-str_ℤ z)

-- The line of the module is cut at its first three delimiters.
pub split_max-line :
    (start from size text : Text)
    → Lacks lora_module_delimiter start
    → Lacks lora_module_delimiter from
    → Lacks lora_module_delimiter size
    → split_max lora_module_delimiter 3 (line start from size text)
      ≡ start ∷ from ∷ size ∷ text ∷ []
split_max-line start from size text hs hf hz =
    rw
      (
        split_max-append lora_module_delimiter 2 start _ hs,
        split_max-append lora_module_delimiter 1 from _ hf,
        split_max-append lora_module_delimiter 0 size _ hz,
      )
      (unfold split_max in refl)
