-- ===== src/Protocol/Attempts.antt =====
-- The outer loops of src/lora_multihop/protocol.py: `while attempts < 3`.
use lora_multihop.Prelude.{
  ℕ, zero, suc, ◌+◌, ◌≤◌, Bool, true, false, Result, ok, raised, ◌≡◌, refl, sym, arith, ltb,
  if◌then◌else◌, inl, inr, Bool-cases,
}
use lora_multihop.Node.{Node}
use lora_multihop.Node.Action.{Action, pure, continue, ◌>>=◌}
use lora_multihop.Protocol.Send.{attempts}

module _ (round : Action Bool) (step : ℕ) (steps : 1 ≤ step) where
  -- a loop that has reached its limit
  limit :
      (fuel attempt : ℕ) (s : Node)
      → 3 ≤ attempt
      → attempts fuel step attempt round s ≡ pure false s
  unfolding attempts
  limit zero attempt s le = refl
  limit (suc fuel) attempt s le = ground arith

  after_round :
      (r : Result Bool) (loop loop' : Action Bool) (s : Node)
      → ((t : Node) → loop t ≡ loop' t)
      → continue r (λ confirmed. if confirmed then pure true else loop) s
        ≡ continue r (λ confirmed. if confirmed then pure true else loop') s
  after_round (ok true) loop loop' s same = refl
  after_round (ok false) loop loop' s same = same s
  after_round (raised e) loop loop' s same = refl

  -- The fuel does not matter once it covers what is left of the three rounds.
  same_loop :
      (fuel more attempt : ℕ) (s : Node)
      → 3 ≤ attempt + fuel
      → 3 ≤ attempt + more
      → attempts fuel step attempt round s ≡ attempts more step attempt round s
  unfolding attempts ◌>>=◌
  same_loop zero more attempt s enough enough' = sym (limit more attempt s (omega arith))
  same_loop (suc fuel) zero attempt s enough enough' = limit (suc fuel) attempt s (omega arith)
  same_loop (suc fuel) (suc more) attempt s enough enough' = elim (Bool-cases (ltb attempt 3)) [
    | inl on ↦ rw on (
        after_round (round s).0 (attempts fuel step (attempt + step) round)
          (attempts more step (attempt + step) round) (round s).1
          (λ t. same_loop fuel more (attempt + step) t (omega arith) (omega arith)))
    | inr off ↦ rw off refl
  ]

-- Whatever a round does, and whether an attempt counts once or more often: with any fuel from three on
-- the loop does what it does with the fuel 4 of the model, so the fuel never cuts it short.
attempts-enough :
    (round : Action Bool) (step fuel : ℕ) (s : Node)
    → 1 ≤ step
    → 3 ≤ fuel
    → attempts fuel step 0 round s ≡ attempts 4 step 0 round s
attempts-enough round step fuel s steps enough =
    same_loop round step steps fuel 4 0 s (omega arith) (omega arith)
