-- ===== src/Protocol/Tests/Routing.antt =====
-- A node with the address 0131 looks for routes, sends, and passes on what is for others.
use lora_multihop.Prelude.{
  raised, queue_empty, ◌+◌, ◌*◌, Text, codes, text_eq, true, false, [], ◌∷◌, ◌++◌, pos, ◌+ℤ◌, ok,
  ◌≡◌, refl, arith, any, keep, eq_ℤ,
}
use lora_multihop.Variables.{available_nodes}
use lora_multihop.Python.Number.{int, signed, strip, is_space}
use lora_multihop.Python.Split.{split, split_max, partition}
use lora_multihop.Header.{Body, route_reply, route_request, connect_request, route_error, Header}
use lora_multihop.Header.Parse.{
  create_header_obj_from_raw_message, read_header, body_fields, route_fields, check_int_field,
  check_addr_field,
}
use lora_multihop.RoutingTable
use lora_multihop.RoutingTable.{
  RoutingTable, Route, contains, get_best_route_for_destination, check_routing_table_entry_exists,
  get_address_of_peer, routes_to, sort_by_hops, insert_by_hops, first, add_routing_table_entry,
  add_neighbor_to_routing_table, is_route, delete_all_entries_of_destination,
  check_route_request_already_processed, add_address_to_processed_requests_list,
  check_message_already_processed, clean_already_processed_requests_list,
}
use lora_multihop.Protocol.Transmit.{send_header}
use lora_multihop.RoutingTable.BestRoute.{leftmost_cheapest}
use lora_multihop.Node.{Node, start}
use lora_multihop.Protocol.Receive.{
  forwarded, process_route_request, process_route_error_header, process_connect_request_header,
  process_disconnect_request_header, process_incoming_message,
}
use lora_multihop.Protocol.Send.{send_along, send_route_request_message}
use lora_multihop.Protocol.Errors.{route_error-removes, reply_ends_thread, entered}
use lora_multihop.Protocol.Connections.{requests-connect, connected_by}
use lora_multihop.Protocol.Requests.{request-once, known_source}
use lora_multihop.Protocol.Silence.{route_request-silent, transmission, request_text}
use lora_multihop.Protocol.Unanswered.{send-unanswered, message_text, error_text, counted}
use lora_multihop.Protocol.Pending.{cut_off}

abbrev me : Text
me = codes "0131"

-- a node with a route to 0135 over 0136, a route to 0136 and a peer
abbrev node : Node
node = record (start me [] []) {
  routing_table = record RoutingTable.empty {
    routing_table =
        record { destination = codes "0136"; next_node = codes "0136"; hops = pos 1 }
        ∷ record { destination = codes "0135"; next_node = codes "0136"; hops = pos 2 }
        ∷ [];
    available_peers = record { peer_id = codes "alice"; address = me } ∷ [];
  };
}

-- a header that this node receives from 0136
abbrev header : Body → Header
header body = record {
  received_from = codes "0136";
  packet = record { source = codes "0137"; ttl = pos 5; body = body };
}

send-unanswered_example :
    (send_along (codes "0135") (104 ∷ []) (codes "0136") (record node {
      status_q = true ∷ true ∷ true ∷ true ∷ true ∷ true ∷ true ∷ true ∷ [];
      arrivals = [];
    })
      ≡ (
        ok tt,
        record node {
          message_counter = 1;
          routing_table = delete_all_entries_of_destination (codes "0135") node.routing_table;
          writing_q =
              []
              ++ transmission (
                  message_text me (codes "0135") (codes "0136") 1 (104 ∷ [])
                  ∷ message_text me (codes "0135") (codes "0136") 1 (104 ∷ [])
                  ∷ message_text me (codes "0135") (codes "0136") 1 (104 ∷ [])
                  ∷ error_text me (codes "0135")
                  ∷ []);
          status_q = [];
          now = 0 + 30 * 500000;
          arrivals = [];
        },
      ))
    × (send_along
          (codes "0135")
          (104 ∷ [])
          (codes "0136")
          (record node { status_q = true ∷ true ∷ []; arrivals = [] })
        ≡ (
          raised queue_empty,
          cut_off 10
              (message_text me (codes "0135") (codes "0136") 1 (104 ∷ []) ∷ [])
              (message_text me (codes "0135") (codes "0136") 1 (104 ∷ []))
              (counted node),
        ))
    × (send_along
          (codes "0135")
          (104 ∷ [])
          (codes "0136")
          (record node { status_q = true ∷ true ∷ true ∷ true ∷ []; arrivals = [] })
        ≡ (
          raised queue_empty,
          cut_off 20
              (message_text me (codes "0135") (codes "0136") 1 (104 ∷ [])
                ∷ message_text me (codes "0135") (codes "0136") 1 (104 ∷ [])
                ∷ [])
              (message_text me (codes "0135") (codes "0136") 1 (104 ∷ []))
              (counted node),
        ))
unfolding any
send-unanswered_example = send-unanswered (codes "0135") (codes "0136") (104 ∷ []) node [] refl

route_request-silent_example :
    send_route_request_message
      (codes "0138")
      (record node { status_q = true ∷ true ∷ true ∷ true ∷ []; arrivals = [] })
    ≡ (
      ok false,
      record node {
        writing_q =
            []
            ++ transmission (request_text me (codes "0138") ∷ request_text me (codes "0138") ∷ []);
        status_q = [];
        now = 0 + 20 * 500000;
        arrivals = [];
      },
    )
unfolding get_best_route_for_destination contains any text_eq available_nodes routes_to keep
    sort_by_hops
route_request-silent_example = route_request-silent (codes "0138") node [] refl

route_error-removes_example :
    (any
        (λ r. text_eq r.destination (codes "0136"))
        (process_route_error_header
          (header (route_error (codes "0136")))
          (codes "0136")
          node).1.routing_table.routing_table
      ≡ false)
    × (check_routing_table_entry_exists
          (codes "0137")
          (codes "0137")
          (pos 1)
          (process_route_error_header
            (header (route_error (codes "0136")))
            (codes "0136")
            node).1.routing_table
        ≡ check_routing_table_entry_exists (codes "0137") (codes "0137") (pos 1) node.routing_table)
unfolding text_eq
route_error-removes_example =
    route_error-removes (header (route_error (codes "0136"))) (codes "0136") node (codes "0137")
      (codes "0137") (pos 1) refl refl

-- a header that asks this node to connect with 0137
abbrev asked : Header
asked = header (connect_request me me (codes "bob") (codes "alice") (codes "9"))

requests-connect_example :
    ((process_connect_request_header asked me me
        (codes "bob")
        (codes "alice")
        (codes "9")
        node).1.connected_node
      ≡ connected_by asked me node)
    × ((process_disconnect_request_header asked me me
          (codes "bob")
          (codes "alice")
          node).1.connected_node
        ≡ connected_by asked me node)
requests-connect_example =
    requests-connect asked me me (codes "bob") (codes "alice") (codes "9") node

request-once_example :
    (process_route_request
        (header (route_request (pos 1) (codes "0138")))
        (pos 1)
        (codes "0138")
        node
      ≡ send_header
          (forwarded
            (header (route_request (pos 1) (codes "0138")))
            (route_request (pos 1 +ℤ pos 1) (codes "0138")))
          (record node {
            routing_table = add_address_to_processed_requests_list 0 (codes "0138") (
                known_source
                  (header (route_request (pos 1) (codes "0138")))
                  (pos 1)
                  (codes "0138")
                  node
                  (leftmost_cheapest (codes "0137") node.routing_table.routing_table));
          }))
    × ((process_route_request
          (header (route_request (pos 0) (codes "0138")))
          (pos 0)
          (codes "0138")
          (record (process_route_request
            (header (route_request (pos 1) (codes "0138")))
            (pos 1)
            (codes "0138")
            node).1 { now = 9000000 })).1.writing_q
        ≡ (process_route_request
            (header (route_request (pos 1) (codes "0138")))
            (pos 1)
            (codes "0138")
            node).1.writing_q)
unfolding contains any text_eq available_nodes check_route_request_already_processed
    check_message_already_processed clean_already_processed_requests_list keep
request-once_example =
    request-once (header (route_request (pos 1) (codes "0138")))
      (header (route_request (pos 0) (codes "0138"))) (pos 1) (pos 0) (codes "0138") 9000000 node
      refl refl refl refl (omega arith) refl

-- a node that knows the way to 0137, and a route reply from there to 0138 over this node
abbrev on_the_way : Node
on_the_way = record (start me [] []) {
  routing_table = record RoutingTable.empty {
    routing_table =
        record { destination = codes "0137"; next_node = codes "0136"; hops = pos 2 } ∷ [];
  };
}

abbrev reply : Text
reply = codes "LR,0136,20,|0137|4|5|1|0138|0131|"

reply-parses :
    create_header_obj_from_raw_message reply ≡ ok (header (route_reply (pos 1) (codes "0138") me))
unfolding create_header_obj_from_raw_message read_header body_fields route_fields check_int_field
    check_addr_field int signed strip is_space split split_max partition eq_ℤ
reply-parses = refl

reply_ends_thread_example : process_incoming_message (reply ∷ []) on_the_way ≡ record on_the_way {
  routing_table =
      add_routing_table_entry
        (codes "0137")
        (codes "0136")
        (pos 1 +ℤ pos 1)
        (entered (header (route_reply (pos 1) (codes "0138") me)) on_the_way.routing_table);
  receiving = false;
}
unfolding get_best_route_for_destination contains any text_eq available_nodes routes_to keep
    sort_by_hops insert_by_hops add_routing_table_entry add_neighbor_to_routing_table
    check_routing_table_entry_exists eq_ℤ ◌+ℤ◌
reply_ends_thread_example =
    reply_ends_thread reply [] (header (route_reply (pos 1) (codes "0138") me)) (pos 1)
      (codes "0138") (record { destination = codes "0137"; next_node = codes "0136"; hops = pos 2 })
      on_the_way reply-parses refl refl refl refl refl refl refl
