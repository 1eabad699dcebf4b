-- ===== src/Network/Spread.antt =====
-- Headers that are sent because of each other.
use lora_multihop.Prelude.{
  ℕ, suc, ◌+◌, ◌≤◌, ◌<◌, Text, true, List, ◌++◌, ℤ, pos, negsuc, ◌-ℤ◌, ltb_ℤ, ok, ◌≡◌, refl, subst,
  arith,
}
use lora_multihop.Header.{
  Body, route_request, route_reply, message, route_error, message_acknowledge, registration,
  connect_request, disconnect_request, Packet, get_header_str,
}
use lora_multihop.Header.Sendable.{IsSendable, line}
use lora_multihop.Header.RoundTrip.{IsFrame, parse-print}
use lora_multihop.Node.{Node, Command}
use lora_multihop.Protocol.Emission.{Emission, silent, announced, sent}
use lora_multihop.Protocol.Receive.{process_incoming}
use lora_multihop.Protocol.Receive.Replies.{
  Onward, Requests, Tells, onward, reply, acknowledge, requests, tells, request_on, reply_on,
  message_on, error_on, acknowledge_on, registration_on, connect_on, disconnect_on,
}
use lora_multihop.Protocol.Receive.Emission.{Allowed, process_incoming-Emits}

-- One node hears a header and sends another: the same header one hop further, or its answer.
pub data Causes (p : Packet) : Packet → Type 0 where
  passed_on :
      (further : Body)
      → ltb_ℤ (pos 1) p.ttl ≡ true
      → Onward p.body further
      → Causes p (record { source = p.source; ttl = p.ttl -ℤ pos 1; body = further })
  replied :
      (me from : Text)
      → ltb_ℤ (pos 1) p.ttl ≡ true
      → Requests p.body
      → Causes p (record { source = me; ttl = pos 5; body = route_reply (pos 0) p.source from })
  acknowledged :
      (me id : Text)
      → ltb_ℤ (pos 1) p.ttl ≡ true
      → Tells p.body
      → Causes p (record { source = me; ttl = pos 5; body = message_acknowledge p.source id })

-- The texts of the headers that hearing `p` may cause.
abbrev pub CausedBy : Packet → Text → Type 0
CausedBy p text = (q : Packet) × (text ≡ get_header_str q) × Causes p q

caused :
    (me from : Text) (p : Packet) (text : Text)
    → Allowed me (ok (record { received_from = from; packet = p })) text
    → CausedBy p text
caused me from p text (alive, onward further on) = (_, refl, passed_on further alive on)
caused me from p text (alive, reply asked) = (_, refl, replied me from alive asked)
caused me from p text (alive, acknowledge id told) = (_, refl, acknowledged me id alive told)

Emission-mono :
    {P Q : Text → Type 0} {commands : List Command}
    → ((text : Text) → P text → Q text)
    → Emission P commands
    → Emission Q commands
Emission-mono f silent = silent
Emission-mono f (announced text h) = announced text (f text h)
Emission-mono f (sent text h) = sent text (f text h)

-- On any node, a line with a header that the format can carry makes the node hand over the commands of
-- at most one header, which the header on the line causes.
hears :
    (start from size : Text) (p : Packet) (s : Node)
    → IsFrame start from size
    → IsSendable p
    → (commands : List Command) × Emission (CausedBy p) commands
      × ((process_incoming (line start from size (get_header_str p)) s).1.writing_q
          ≡ s.writing_q ++ commands)
hears start from size p s frame sendable =
    let (commands, emission, written) =
      process_incoming-Emits (line start from size (get_header_str p)) s in
    (
      commands,
      Emission-mono
          (λ text may. caused s.my_address from p text (
            subst (λ r. Allowed s.my_address r text) (parse-print start from size p frame sendable)
              may))
          emission,
      written,
    )

-- A chain of headers, each sent by a node that hears the one before.
pub data Chain (p : Packet) : ℕ → Packet → Type 0 where
  start : Chain p 0 p
  next : {n : ℕ} {q r : Packet} → Chain p n q → Causes q r → Chain p (suc n) r

-- How many further transmissions a header is good for: what is left of its ttl, and that of an answer.
abbrev answer_of : Body → ℕ
answer_of (route_request _ _) = 4
answer_of (message _ _ _ _) = 4
answer_of (route_reply _ _ _) = 0
answer_of (route_error _) = 0
answer_of (message_acknowledge _ _) = 0
answer_of (registration _ _) = 0
answer_of (connect_request _ _ _ _ _) = 0
answer_of (disconnect_request _ _ _ _) = 0

abbrev left_of : ℤ → ℕ
left_of (pos t) = t
left_of (negsuc t) = 0

abbrev pub budget : Packet → ℕ
budget p = left_of p.ttl + answer_of p.body

Onward-answer : {b c : Body} → Onward b c → answer_of c ≡ answer_of b
Onward-answer (request_on hops end_node) = refl
Onward-answer (reply_on hops end_node next_node other) = refl
Onward-answer (message_on destination next_node other id payload) = refl
Onward-answer (error_on broken_node) = refl
Onward-answer (acknowledge_on destination id) = refl
Onward-answer (registration_on subscribe peer_id) = refl
Onward-answer (connect_on end_node next_node other source target timeout) = refl
Onward-answer (disconnect_on end_node next_node other source target) = refl

one_less :
    (z : ℤ) → ltb_ℤ (pos 1) z ≡ true → (left_of (z -ℤ pos 1) + 1 ≡ left_of z) × (1 < left_of z)
unfolding ◌-ℤ◌
one_less (pos t) h = ground arith
one_less (negsuc t) h = ground arith

Requests-answer : {b : Body} → Requests b → answer_of b ≡ 4
Requests-answer (requests hops end_node) = refl

Tells-answer : {b : Body} → Tells b → answer_of b ≡ 4
Tells-answer (tells destination next_node id payload) = refl

-- Every transmission spends some of the budget.
Causes-budget : {p q : Packet} → Causes p q → budget q < budget p
Causes-budget {p} (passed_on further alive on) =
    let (less, big) = one_less p.ttl alive in omega (arith, Onward-answer on)
Causes-budget {p} (replied me from alive asked) =
    let (less, big) = one_less p.ttl alive in omega (arith, Requests-answer asked)
Causes-budget {p} (acknowledged me id alive told) =
    let (less, big) = one_less p.ttl alive in omega (arith, Tells-answer told)

chain-budget : {p q : Packet} {n : ℕ} → Chain p n q → budget q + n ≤ budget p
chain-budget start = omega arith
chain-budget (next c step) = let h = chain-budget c in omega (arith, Causes-budget step)

-- What a chain of `n` transmissions may be continued with.
abbrev pub Continues : Packet → ℕ → Text → Type 0
Continues p n text =
    (r : Packet) × (text ≡ get_header_str r) × Chain p (suc n) r × (budget r + suc n ≤ budget p)

-- The spread of a header ends. Behind a chain of transmissions, each by a node that hears the one
-- before, any node that hears the last one, if the format can carry it, hands over the commands of at
-- most one header. That header continues the chain, and the chain is then no longer than the budget of
-- the first header: its ttl, and 4 more for a route request or a message, which may be answered.
pub transmissions-bounded :
    (first from size : Text) (p q : Packet) (n : ℕ) (s : Node)
    → Chain p n q
    → IsFrame first from size
    → IsSendable q
    → (commands : List Command) × Emission (Continues p n) commands
      × ((process_incoming (line first from size (get_header_str q)) s).1.writing_q
          ≡ s.writing_q ++ commands)
transmissions-bounded first from size p q n s chain frame sendable =
    let (commands, emission, written) = hears first from size q s frame sendable in
    (
      commands,
      Emission-mono
          (λ text h.
            let (r, same, causes) = h in
            (r, same, next chain causes, chain-budget (next chain causes)))
          emission,
      written,
    )
