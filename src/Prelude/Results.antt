-- ===== src/Prelude/Results.antt =====
-- The exceptions that the program raises or lets through, and results that may be one.
use mathlib.Core.Bool.{Bool, true, false}
use mathlib.Core.Option.{Option, none, some}
use mathlib.Core.List.{List}
use Prim.Native.Nat.{ℕ}
use lora_multihop.Prelude.Lists.{get_elem?}

-- `queue_empty` is `queue.Empty`, which `Queue.get(timeout=...)` raises.
pub data Exception : Type 0 where
  value_error index_error key_error queue_empty type_error attribute_error : Exception
  socket_timeout broken_pipe_error connection_reset_error : Exception

pub data Result {ℓ} (A : Type ℓ) : Type ℓ where
  ok : A → Result A
  raised : Exception → Result A

-- `if not test: raise e`
abbrev pub check : Bool → Exception → Result (Unit {0})
check true e = ok tt
check false e = raised e

abbrev pub or_raise {ℓ} : {A : Type ℓ} → Option A → Exception → Result A
or_raise none e = raised e
or_raise (some a) e = ok a

-- `xs[i]`
abbrev pub at {ℓ} : {A : Type ℓ} → List A → ℕ → Result A
at xs i = or_raise (get_elem? xs i) Exception.index_error
