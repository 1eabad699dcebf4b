-- ===== src/Network/Tests.antt =====
-- The nodes 0131 and 0135, which hear each other over 0136 or directly.
use lora_multihop.Prelude.{
  ◌+◌, ◌-ℤ◌, ◌+ℤ◌, Text, codes, text_eq, true, List, [], ◌∷◌, ◌++◌, pos, some, ok, ◌≡◌, refl, arith,
  any, keep,
}
use lora_multihop.Variables.{available_nodes}
use lora_multihop.Python.Number.{str_ℕ, str_ℤ}
use lora_multihop.Python.Base64.{value}
use lora_multihop.Header.{Packet, get_header_str, route_request}
use lora_multihop.Header.Parse.{is_available}
use lora_multihop.Header.Sendable.{IsSendable, line}
use lora_multihop.RoutingTable.{
  Route, contains, get_best_route_for_destination, routes_to, sort_by_hops,
}
use lora_multihop.Node.{Node, Command, start}
use lora_multihop.Protocol.Receive.{process_incoming}
use lora_multihop.Protocol.Receive.Replies.{request_on}
use lora_multihop.Protocol.Emission.{Emission}
use lora_multihop.Protocol.Send.{send_along, send_route_request_message}
use lora_multihop.Protocol.Delivery.{message_packet, ack_packet, delivered, with_neighbor}
use lora_multihop.Protocol.Silence.{transmission, request_text}
use lora_multihop.Protocol.Unanswered.{message_text}
use lora_multihop.Protocol.Answered.{sent_once}
use lora_multihop.Network.Exchange.{Frame, framed, IsProper, exchange}
use lora_multihop.Network.Discovery.{discover, request_packet, reply_packet}
use lora_multihop.Network.Found.{table_with}
use lora_multihop.Network.Spread.{Chain, Continues, passed_on, transmissions-bounded}

abbrev over : Text → Frame
over from = record { start = codes "LR"; from = from; size = codes "2C"; tail = codes "\r\n" }

over_a-IsProper : IsProper (over (codes "0131"))
unfolding value
over_a-IsProper = record {
  frame = record {
    start_lacks = ground arith;
    from_lacks = ground arith;
    size_lacks = ground arith;
    from_addr = refl;
  };
  tail_lacks = ground arith;
  tail_skipped = ((omega arith, refl), ((omega arith, refl), tt));
}

over_b-IsProper : IsProper (over (codes "0135"))
unfolding value
over_b-IsProper = record {
  frame = record {
    start_lacks = ground arith;
    from_lacks = ground arith;
    size_lacks = ground arith;
    from_addr = refl;
  };
  tail_lacks = ground arith;
  tail_skipped = ((omega arith, refl), ((omega arith, refl), tt));
}

abbrev alice : Node
alice = start (codes "0131") [] []

abbrev bob : Node
bob = record (start (codes "0135") [] []) { connected_node = some (codes "0131") }

hello-IsSendable :
    IsSendable (message_packet (codes "0131") (codes "0135") (codes "0135") 5 1 (104 ∷ 105 ∷ []))
unfolding is_available available_nodes contains text_eq any
hello-IsSendable = record {
  source_addr = (refl, ground arith);
  fits = ((refl, ground arith), (refl, ground arith), omega arith, omega arith, refl);
}

reply-IsSendable : IsSendable (ack_packet (codes "0135") (codes "0131") (pos 1))
unfolding is_available available_nodes contains text_eq any str_ℤ str_ℕ
reply-IsSendable = record {
  source_addr = (refl, ground arith);
  fits = (ground arith, refl, ground arith);
}

exchange_example :
    (process_incoming
        (framed
          (over (codes "0131"))
          (message_text (codes "0131") (codes "0135") (codes "0135") 1 (104 ∷ 105 ∷ [])))
        (record bob { status_q = true ∷ true ∷ [] })
      ≡ (
        ok tt,
        record (delivered (104 ∷ 105 ∷ []) (with_neighbor (codes "0131") bob)) {
          writing_q =
              []
              ++ transmission
                  (get_header_str (ack_packet (codes "0135") (codes "0131") (pos 1)) ∷ []);
          status_q = [];
        },
      ))
    × (send_along (codes "0135") (104 ∷ 105 ∷ []) (codes "0135") (record alice {
      status_q = true ∷ true ∷ [];
      arrivals =
          (framed
              (over (codes "0135"))
              (get_header_str (ack_packet (codes "0135") (codes "0131") (pos 1)))
            ∷ [])
          ∷ [];
    })
        ≡ (
          ok tt,
          with_neighbor (codes "0135") (
              sent_once
                (codes "LR")
                (codes "0135")
                (codes "2C")
                (codes "\r\n")
                (codes "0135")
                (codes "0135")
                (104 ∷ 105 ∷ [])
                alice
                []
                []),
        ))
unfolding any
exchange_example =
    exchange (over (codes "0131")) (over (codes "0135")) (codes "0135") (104 ∷ 105 ∷ []) alice bob
      [] over_a-IsProper over_b-IsProper hello-IsSendable reply-IsSendable
      (omega arith, (omega arith, tt)) refl refl refl refl

request-IsSendable : IsSendable (request_packet (codes "0131") (codes "0135"))
request-IsSendable = record { source_addr = (refl, ground arith); fits = (refl, ground arith) }

route_reply-IsSendable : IsSendable (reply_packet (codes "0135") (codes "0131") (codes "0131"))
route_reply-IsSendable = record {
  source_addr = (refl, ground arith);
  fits = ((refl, ground arith), (refl, ground arith));
}

discover_example :
    (process_incoming
        (framed (over (codes "0131")) (request_text (codes "0131") (codes "0135")))
        (record bob { status_q = true ∷ true ∷ [] })
      ≡ (
        ok tt,
        record bob {
          routing_table = table_with (codes "0131") (codes "0131") bob.routing_table;
          writing_q =
              []
              ++ transmission
                  (get_header_str (reply_packet (codes "0135") (codes "0131") (codes "0131")) ∷ []);
          status_q = [];
        },
      ))
    × (send_route_request_message (codes "0135") (record alice {
      status_q = true ∷ true ∷ [];
      arrivals =
          (framed
              (over (codes "0135"))
              (get_header_str (reply_packet (codes "0135") (codes "0131") (codes "0131")))
            ∷ [])
          ∷ [];
    })
        ≡ (
          ok true,
          record alice {
            routing_table = table_with (codes "0135") (codes "0135") alice.routing_table;
            writing_q = [] ++ transmission (request_text (codes "0131") (codes "0135") ∷ []);
            status_q = [];
            now = 0 + 500000;
            arrivals = [];
          },
        ))
    × ((r : Route) × (get_best_route_for_destination
            (codes "0135")
            (table_with (codes "0135") (codes "0135") alice.routing_table)
          ≡ ok (some r)))
unfolding contains any text_eq available_nodes get_best_route_for_destination routes_to keep
    sort_by_hops
discover_example =
    discover (over (codes "0131")) (over (codes "0135")) alice bob [] over_a-IsProper
      over_b-IsProper request-IsSendable route_reply-IsSendable refl refl refl refl

-- the request, passed on once
abbrev further : Packet
further = record {
  source = codes "0131";
  ttl = pos 5 -ℤ pos 1;
  body = route_request (pos 0 +ℤ pos 1) (codes "0135");
}

further-IsSendable : IsSendable further
further-IsSendable = record { source_addr = (refl, ground arith); fits = (refl, ground arith) }

once : Chain (request_packet (codes "0131") (codes "0135")) 1 further
once = Chain.next Chain.start (
    passed_on (route_request (pos 0 +ℤ pos 1) (codes "0135")) (ground arith)
      (request_on (pos 0) (codes "0135")))

transmissions-bounded_example :
    (commands : List Command) × Emission
      (Continues (request_packet (codes "0131") (codes "0135")) 1)
      commands
    × ((process_incoming
          (line (codes "LR") (codes "0136") (codes "1A") (get_header_str further))
          bob).1.writing_q
        ≡ [] ++ commands)
transmissions-bounded_example =
    transmissions-bounded (codes "LR") (codes "0136") (codes "1A")
      (request_packet (codes "0131") (codes "0135")) further 1 bob once
      (record {
        start_lacks = ground arith;
        from_lacks = ground arith;
        size_lacks = ground arith;
        from_addr = refl;
      })
      further-IsSendable
