-- ===== src/Protocol/Tests/Calls.antt =====
-- A node with the address 0131 on which the peers alice, at this node, and bob, at 0135, are entered.
use lora_multihop.Prelude.{
  Text, codes, true, List, [], ◌∷◌, length, pos, ◌≡◌, refl, arith, any, text_eq, keep,
}
use lora_multihop.RoutingTable.{
  empty, check_peer_is_already_registered, get_address_of_peer,
  check_connect_request_entry_already_exists, add_connect_request, get_best_route_for_destination,
  contains, sort_by_hops, insert_by_hops, routes_to,
}
use lora_multihop.Node.{Node, start}
use lora_multihop.Variables.{available_nodes}
use lora_multihop.Node.Action.{◌>>=◌, update_table, best_route}
use lora_multihop.Protocol.Transmit.{send_header, put_command, get_status}
use lora_multihop.Protocol.Receive.Orderly.{IsOrderly}
use lora_multihop.Protocol.Send.{send_connect_request_header, check_peers, address_of, with_route}
use lora_multihop.Protocol.Calls.{
  Call, incoming, send, register, connect, disconnect, elapse, called, called_all,
  called_all-IsOrderly,
}
use lora_multihop.Protocol.Reconnect.{connect-once}

abbrev alice : Text
alice = codes "alice"

abbrev bob : Text
bob = codes "bob"

abbrev me : Text
me = codes "0131"

abbrev node : Node
node = record (start me (true ∷ true ∷ true ∷ []) []) {
  routing_table = record empty {
    routing_table =
        record { destination = codes "0135"; next_node = codes "0135"; hops = pos 1 } ∷ [];
    available_peers =
        record { peer_id = alice; address = me }
        ∷ record { peer_id = bob; address = codes "0135" }
        ∷ [];
  };
}

-- a registration of another node arrives, carol is registered here, bytes are sent, and time passes
abbrev calls : List Call
calls =
    incoming (codes "LR,0135,10,|0135|6|05|true|dave|\r" ∷ [])
    ∷ register true (codes "carol")
    ∷ send (104 ∷ [])
    ∷ elapse 7
    ∷ disconnect alice bob
    ∷ []

called_all-IsOrderly_example : IsOrderly (called_all calls (start me (true ∷ []) [])).routing_table
called_all-IsOrderly_example =
    called_all-IsOrderly calls (start me (true ∷ []) [])
      (record { routes = tt; peers = tt; none_received = refl })

-- 44 seconds after the request
abbrev asked : Node
asked = called_all (connect alice bob (codes "30") ∷ elapse 44000000 ∷ []) node

-- the request goes to the modem, as the command with its length and its text
sends_once : (asked.now ≡ 44000000) × (length asked.writing_q ≡ 2)
unfolding called_all called send_connect_request_header ◌>>=◌ check_peers
    check_peer_is_already_registered any text_eq get_address_of_peer
    check_connect_request_entry_already_exists keep update_table address_of add_connect_request
    with_route best_route get_best_route_for_destination contains available_nodes sort_by_hops
    insert_by_hops routes_to send_header put_command get_status
sends_once = (refl, refl)

connect-once_example :
    send_connect_request_header alice bob
      (codes "5")
      (called_all (connect alice bob (codes "30") ∷ elapse 44000000 ∷ []) node)
    ≡ check_peers alice bob
        (called_all (connect alice bob (codes "30") ∷ elapse 44000000 ∷ []) node)
unfolding check_peers check_peer_is_already_registered any text_eq get_address_of_peer
    check_connect_request_entry_already_exists keep
connect-once_example =
    connect-once alice bob (codes "30") (codes "5") (elapse 44000000 ∷ []) node refl refl
      (rw sends_once.0 (omega arith))
