-- ===== src/Network/Discovery.antt =====
-- A route request to the node that is looked for, and its reply back.
use lora_multihop.Prelude.{
  ℕ, suc, ◌+◌, Text, text_eq, text_eq_refl, true, false, List, [], ◌∷◌, ◌++◌, pos, ◌+ℤ◌, none, some,
  Result, ok, ◌≡◌, refl, ap, ◌∙◌,
}
use lora_multihop.Header.{route_request, route_reply, Packet, get_header_str}
use lora_multihop.Header.Sendable.{IsSendable}
use lora_multihop.Header.RoundTrip.{parse-print_tail}
use lora_multihop.RoutingTable.{
  Route, add_routing_table_entry, add_neighbor_to_routing_table, get_best_route_for_destination,
  contains,
}
use lora_multihop.Variables.{available_nodes}
use lora_multihop.Node.{Node}
use lora_multihop.Node.Action.{◌>>=◌, best_route, update_table, except_value_error, handled}
use lora_multihop.Protocol.Receive.{
  process_incoming, process_header, process_route_request, process_route_reply_header,
  send_route_reply, note_unsupported,
}
use lora_multihop.Header.Parse.{get_received_from_value}
use lora_multihop.Protocol.Send.{
  send_route_request_message, request_round, wait_for_route, attempts, sleep_half,
}
use lora_multihop.Protocol.Delivery.{with_neighbor, incoming-accepted, except-send}
use lora_multihop.Protocol.Answered.{process-one}
use lora_multihop.Protocol.Silence.{transmission, send-confirmed, request_text}
use lora_multihop.Protocol.Transmit.{send_header}
use lora_multihop.Prelude.{text_eq_comm}
use lora_multihop.Network.Exchange.{Frame, framed, IsProper}
use lora_multihop.Network.Found.{table_with, known-after}

-- The header of the request, and of the reply by the node that is looked for.
abbrev pub request_packet : Text → Text → Packet
request_packet me d = record { source = me; ttl = pos 5; body = route_request (pos 0) d }

abbrev pub reply_packet : Text → Text → Text → Packet
reply_packet d next_node me = record {
  source = d;
  ttl = pos 5;
  body = route_reply (pos 0) me next_node;
}

request-handled :
    (from me : Text) (s : Node)
    → text_eq me s.my_address ≡ false
    → process_route_request
        (record { received_from = from; packet = request_packet me s.my_address })
        (pos 0)
        s.my_address
        s
      ≡ send_header (get_header_str (reply_packet s.my_address from me)) (record s {
        routing_table = add_routing_table_entry me from (pos 0 +ℤ pos 1) s.routing_table;
      })
unfolding process_route_request send_route_reply ◌>>=◌ update_table
request-handled from me s other = rw (other, text_eq_refl s.my_address) refl

reply-handled :
    (from d next_node : Text) (s : Node)
    → text_eq d s.my_address ≡ false
    → process_route_reply_header
        (record { received_from = from; packet = reply_packet d next_node s.my_address })
        (pos 0)
        s.my_address
        next_node
        s
      ≡ (
        ok tt,
        record s {
          routing_table = add_routing_table_entry d from (pos 0 +ℤ pos 1) s.routing_table;
        },
      )
unfolding process_route_reply_header ◌>>=◌ update_table
reply-handled from d next_node s other = rw (other, text_eq_refl s.my_address) refl

-- The node that a request is for enters the route back and replies along it.
pub request-replied :
    (f : Frame) (me : Text) (s : Node)
    → IsProper f
    → IsSendable (request_packet me s.my_address)
    → text_eq me s.my_address ≡ false
    → process_incoming (framed f (request_text me s.my_address)) s
      ≡ send_header (get_header_str (reply_packet s.my_address f.from me)) (record s {
        routing_table =
            add_routing_table_entry me f.from
              (pos 0 +ℤ pos 1)
              (add_neighbor_to_routing_table f.from s.routing_table);
      })
unfolding process_header
request-replied f me s proper sendable other =
    incoming-accepted _ (record { received_from = f.from; packet = request_packet me s.my_address })
      s
      (parse-print_tail f.start f.from f.size f.tail proper.frame proper.tail_lacks
        (request_packet me s.my_address) sendable)
      refl
    ∙ except-send _ _ _ _ _ (request-handled f.from me (with_neighbor f.from s) other)

reply-entered :
    (f : Frame) (d next_node : Text) (s : Node)
    → IsProper f
    → IsSendable (reply_packet d next_node s.my_address)
    → text_eq d s.my_address ≡ false
    → process_incoming (framed f (get_header_str (reply_packet d next_node s.my_address))) s
      ≡ (ok tt, record s { routing_table = table_with d f.from s.routing_table })
unfolding process_header except_value_error
reply-entered f d next_node s proper sendable other =
    incoming-accepted _
      (record { received_from = f.from; packet = reply_packet d next_node s.my_address }) s
      (parse-print_tail f.start f.from f.size f.tail proper.frame proper.tail_lacks
        (reply_packet d next_node s.my_address) sendable)
      refl
    ∙ ap
        (λ (r : Result (Unit {0}) × Node).
          handled r.0
            (note_unsupported (
              get_received_from_value
                (framed f (get_header_str (reply_packet d next_node s.my_address)))))
            r.1)
        (reply-handled f.from d next_node (with_neighbor f.from s) other)

-- The reply arrives during the first sleep, and the second look finds the route.
wait_for_route-line :
    (d raw : Text) (tries : ℕ) (more : List (List Text)) (r : Route) (s t : Node)
    → get_best_route_for_destination d s.routing_table ≡ ok none
    → s.receiving ≡ true
    → process_incoming raw (record s { now = s.now + 500000; arrivals = more }) ≡ (ok tt, t)
    → get_best_route_for_destination d t.routing_table ≡ ok (some r)
    → wait_for_route d (suc (suc tries)) (record s { arrivals = (raw ∷ []) ∷ more }) ≡ (ok true, t)
unfolding wait_for_route ◌>>=◌ best_route sleep_half
wait_for_route-line d raw tries more r s t unknown running e found =
    rw
      (
        unknown,
        process-one raw (record s { now = s.now + 500000; arrivals = more }) t running e,
        found,
      )
      refl

-- Two nodes `a` and `b` of the network whose modems confirm their commands and that hear each other's
-- headers in proper frames; `a` has no route to `b`, its thread runs, the addresses differ, and the
-- format can carry the request and the reply. Then the route request of `a` makes `b` enter a route to
-- `a` and send exactly the reply that, when it arrives in the first half second, ends the request of
-- `a` with `True` after one transmission; and `a` has a best route to `b` from then on.
pub discover :
    (to_b to_a : Frame) (a b : Node) (more : List (List Text))
    → IsProper to_b
    → IsProper to_a
    → IsSendable (request_packet a.my_address b.my_address)
    → IsSendable (reply_packet b.my_address to_b.from a.my_address)
    → contains b.my_address available_nodes ≡ true
    → text_eq a.my_address b.my_address ≡ false
    → a.receiving ≡ true
    → get_best_route_for_destination b.my_address a.routing_table ≡ ok none
    → (process_incoming
          (framed to_b (request_text a.my_address b.my_address))
          (record b { status_q = true ∷ true ∷ [] })
        ≡ (
          ok tt,
          record b {
            routing_table = table_with a.my_address to_b.from b.routing_table;
            writing_q =
                b.writing_q
                ++ transmission
                    (get_header_str (reply_packet b.my_address to_b.from a.my_address) ∷ []);
            status_q = [];
          },
        ))
      × (send_route_request_message b.my_address (record a {
        status_q = true ∷ true ∷ [];
        arrivals =
            (framed to_a (get_header_str (reply_packet b.my_address to_b.from a.my_address)) ∷ [])
            ∷ more;
      })
          ≡ (
            ok true,
            record a {
              routing_table = table_with b.my_address to_a.from a.routing_table;
              writing_q = a.writing_q ++ transmission (request_text a.my_address b.my_address ∷ []);
              status_q = [];
              now = a.now + 500000;
              arrivals = more;
            },
          ))
      × ((r : Route) × (get_best_route_for_destination b.my_address
              (table_with b.my_address to_a.from a.routing_table)
            ≡ ok (some r)))
unfolding send_route_request_message attempts request_round ◌>>=◌
discover to_b to_a a b more proper_b proper_a sendable reply known differ running unknown =
    let raw = framed to_a (get_header_str (reply_packet b.my_address to_b.from a.my_address)) in
    let sent : Node = record a {
      writing_q = a.writing_q ++ transmission (request_text a.my_address b.my_address ∷ []);
      status_q = [];
    } in
    let asleep : Node = record sent { now = a.now + 500000; arrivals = more } in
    let (r, found) = known-after b.my_address to_a.from a.routing_table known in
    (
      request-replied to_b a.my_address (record b { status_q = true ∷ true ∷ [] }) proper_b sendable
            differ
          ∙ send-confirmed _
              (record b { routing_table = table_with a.my_address to_b.from b.routing_table }) [],
      rw
          (
            send-confirmed (request_text a.my_address b.my_address)
                (record a { arrivals = (raw ∷ []) ∷ more }) [],
            wait_for_route-line b.my_address raw 8 more r sent _ unknown running
                (reply-entered to_a b.my_address to_b.from asleep proper_a reply
                  (text_eq_comm b.my_address a.my_address ∙ differ))
                found,
          )
          refl,
      (r, found),
    )
