-- ===== src/Protocol/Wait.antt =====
-- src/lora_multihop/protocol.py: `wait_random_time`, with which the source begins `send_header`.
use lora_multihop.Prelude.{ℕ, ◌+◌, ◌≤◌, Text, ◌≡◌, ap, arith}
use lora_multihop.Variables.{max_sleep_time}
use lora_multihop.Node.{Node}
use lora_multihop.Node.Action.{Action, modify, ◌>>=◌, ◌>>◌}
use lora_multihop.Protocol.Transmit.{send_header}

-- `uniform low high` is what `random.uniform` comes back with, in microseconds. Nothing is processed
-- in a sleep of no length.
unfoldable pub wait_random_time : (ℕ → ℕ → ℕ) → Action (Unit {0})
unfolding modify
wait_random_time uniform = modify (λ s. record s { now = s.now + uniform 0 max_sleep_time })

-- With a bound of no time and a `random.uniform` that keeps to its bounds, a header is sent as if there
-- were no waiting.
wait-send_header :
    (uniform : ℕ → ℕ → ℕ) (text : Text) (s : Node)
    → ((low high : ℕ) → low ≤ high → uniform low high ≤ high)
    → (wait_random_time uniform >> send_header text) s ≡ send_header text s
unfolding wait_random_time modify ◌>>=◌
wait-send_header uniform text s bounded =
    ap (λ (time : ℕ). send_header text (record s { now = time }))
      (let h = bounded 0 max_sleep_time (omega arith) in omega (arith, h))
