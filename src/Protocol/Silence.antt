-- ===== src/Protocol/Silence.antt =====
-- What the node does when the network does not answer.
use mathlib.Core.Path.{ap₂}
use lora_multihop.Prelude.{
  ℕ, zero, suc, ◌+◌, ◌*◌, Text, Bool, true, false, List, [], ◌∷◌, ◌++◌, append_assoc, pos, none,
  Result, ok, ◌≡◌, arith, ◌∙◌, ap,
}
use lora_multihop.Header.{route_request, get_header_str}
use lora_multihop.RoutingTable.{get_best_route_for_destination}
use lora_multihop.Node.{Node, Command}
use lora_multihop.Node.Action.{best_route, ◌>>=◌}
use lora_multihop.Protocol.Transmit.{send_header, put_command, get_status}
use lora_multihop.Protocol.Emission.{size_command, header_command}
use lora_multihop.Protocol.Send.{
  sleep_half, wait_for, wait_for_route, attempts, request_round, send_route_request_message,
}

-- The commands of headers that the modem confirms.
abbrev pub transmission : List Text → List Command
transmission [] = []
transmission (text ∷ later) = size_command text ∷ header_command text ∷ transmission later

abbrev pub confirmations : List Text → List Bool → List Bool
confirmations [] later = later
confirmations (text ∷ texts) later = true ∷ true ∷ confirmations texts later

-- A header that the modem confirms is written behind its size.
pub send-confirmed :
    (text : Text) (s : Node) (later : List Bool)
    → send_header text (record s { status_q = true ∷ true ∷ later })
      ≡ (ok tt, record s { writing_q = s.writing_q ++ transmission (text ∷ []); status_q = later })
unfolding send_header ◌>>=◌ put_command get_status
send-confirmed text s later =
    ap
      (λ (queue : List Command).
        let r : Result (Unit {0}) × Node =
          (ok tt, record s { writing_q = queue; status_q = later }) in
        r)
      (append_assoc s.writing_q (size_command text ∷ []) (header_command text ∷ []))

-- Without lines to process, a sleep only lets the time pass.
abbrev pub after : ℕ → Node → Node
after n s = record s { now = s.now + n * 500000; arrivals = [] }

after-suc :
    (n : ℕ) (s : Node)
    → after n (record s { now = s.now + 500000; arrivals = [] }) ≡ after (suc n) s
after-suc n s = ap (λ (time : ℕ). record s { now = time; arrivals = [] }) (omega arith)

after_zero : (s : Node) → record s { arrivals = [] } ≡ after 0 s
after_zero s = ap (λ (time : ℕ). record s { now = time; arrivals = [] }) (omega arith)

wait_for_route-none :
    (d : Text) (n : ℕ) (s : Node)
    → get_best_route_for_destination d s.routing_table ≡ ok none
    → wait_for_route d n (record s { arrivals = [] }) ≡ (ok false, after n s)
unfolding wait_for_route ◌>>=◌ best_route sleep_half
wait_for_route-none d zero s h =
    ap (λ (s' : Node). let r : Result Bool × Node = (ok false, s') in r) (after_zero s)
wait_for_route-none d (suc n) s h = rw h (
    wait_for_route-none d n (record s { now = s.now + 500000 }) h
    ∙ ap (λ (s' : Node). let r : Result Bool × Node = (ok false, s') in r) (after-suc n s))

pub wait_for-pending :
    (test : Node → Bool) (n : ℕ) (s : Node)
    → ((time : ℕ) → test (record s { now = time; arrivals = [] }) ≡ false)
    → wait_for test n (record s { arrivals = [] }) ≡ (ok false, after n s)
unfolding wait_for ◌>>=◌ sleep_half
wait_for-pending test zero s h =
    ap (λ (s' : Node). let r : Result Bool × Node = (ok false, s') in r) (after_zero s)
wait_for-pending test (suc n) s h = rw (h s.now) (
    wait_for-pending test n (record s { now = s.now + 500000 }) h
    ∙ ap (λ (s' : Node). let r : Result Bool × Node = (ok false, s') in r) (after-suc n s))

-- The header of a route request of this node.
abbrev pub request_text : Text → Text → Text
request_text me d =
    get_header_str (record { source = me; ttl = pos 5; body = route_request (pos 0) d })

round-none :
    (d : Text) (s : Node) (later : List Bool)
    → get_best_route_for_destination d s.routing_table ≡ ok none
    → request_round d (record s { status_q = true ∷ true ∷ later; arrivals = [] }) ≡ (
      ok false,
      after 10 (record s {
        writing_q = s.writing_q ++ transmission (request_text s.my_address d ∷ []);
        status_q = later;
      }),
    )
unfolding request_round ◌>>=◌
round-none d s later h =
    rw (send-confirmed (request_text s.my_address d) (record s { arrivals = [] }) later) (
      wait_for_route-none d 10
        (record s {
          writing_q = s.writing_q ++ transmission (request_text s.my_address d ∷ []);
          status_q = later;
        })
        h)

-- A known node to which there is no route, a modem that confirms the next four commands, and no
-- line arriving: the request is sent twice, not three times, ten seconds pass, and the result is
-- `False`.
pub route_request-silent :
    (d : Text) (s : Node) (later : List Bool)
    → get_best_route_for_destination d s.routing_table ≡ ok none
    → send_route_request_message d
        (record s { status_q = true ∷ true ∷ true ∷ true ∷ later; arrivals = [] })
      ≡ (
        ok false,
        record s {
          writing_q =
              s.writing_q
              ++ transmission (request_text s.my_address d ∷ request_text s.my_address d ∷ []);
          status_q = later;
          now = s.now + 20 * 500000;
          arrivals = [];
        },
      )
unfolding send_route_request_message attempts ◌>>=◌
route_request-silent d s later h =
    let first = transmission (request_text s.my_address d ∷ []) in
    let once : Node = record s { writing_q = s.writing_q ++ first; now = s.now + 10 * 500000 } in
    rw (round-none d s (true ∷ true ∷ later) h) (
      rw (round-none d once later h) (
        ap₂
          (λ (queue : List Command) (time : ℕ).
            let r : Result Bool × Node = (
              ok false,
              record s { writing_q = queue; status_q = later; now = time; arrivals = [] },
            ) in
            r)
          (append_assoc s.writing_q first first) (omega arith)))
