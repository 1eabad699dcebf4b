-- ===== src/Protocol/Connections.antt =====
-- Connect and disconnect requests, and the peers they are between.
use lora_multihop.Prelude.{
  Text, text_eq, text_eq_iff, true, false, not, Option, none, some, Result, ok, raised, value_error,
  ◌≡◌, ◌↔◌, refl, arith, if◌then◌else◌, ap, ◌&&◌, ◌∙◌, Bool-cases, inl, inr, ◌∙◌, ◌&&◌, ◌∙◌,
  Bool-cases, inl, inr,
}
use lora_multihop.Header.{Header, registration, connect_request, disconnect_request}
use lora_multihop.RoutingTable.{
  check_peer_is_already_registered, RoutingTable, Route, get_address_of_peer,
  get_best_route_for_destination, add_peer, add_address_to_processed_registration_messages_list,
}
use lora_multihop.RoutingTable.Peers.{
  is_some, or_else, registered-get_address, get_address-add_peer,
}
use lora_multihop.Node.{Node}
use lora_multihop.Node.Action.{pure, ◌>>=◌, best_route, along, continue, update_table}
use lora_multihop.Protocol.Transmit.{send_header}
use lora_multihop.Protocol.Untouched.{send-untouched}
use lora_multihop.Protocol.Receive.{
  forwarded, process_connect_request_header, process_disconnect_request_header,
  process_registration_header,
}
use lora_multihop.Protocol.Send.{send_connect_request_header, check_peers, is_own}

-- A request is accepted exactly if its source is a peer of this node and its target is registered.
check_peers_iff :
    (source target : Text) (s : Node)
    → ((check_peers source target s).0 ≡ ok tt) ↔ (
        (get_address_of_peer source s.routing_table ≡ some s.my_address)
        × (is_some (get_address_of_peer target s.routing_table) ≡ true))
unfolding check_peers
check_peers_iff source target s = ground (
  arith,
  registered-get_address source s.routing_table,
  registered-get_address target s.routing_table,
  addressed (get_address_of_peer source s.routing_table),
)
  where
    addressed : (o : Option Text) → ((is_own s.my_address o ≡ true) ↔ (o ≡ some s.my_address))
    addressed none = ground arith
    addressed (some address) = ground (arith, text_eq_iff address s.my_address)

along-connected :
    (route : Option Route) (text : Text → Text) (s : Node)
    → (along route (λ next. send_header (text next)) s).1.connected_node ≡ s.connected_node
unfolding along pure
along-connected none text s = refl
along-connected (some route) text s =
    ap (λ (t : Node). t.connected_node) (send-untouched (text route.next_node) s)

routed-connected :
    (r : Result (Option Route)) (text : Text → Text) (s : Node)
    → (continue r (λ route. along route (λ next. send_header (text next))) s).1.connected_node
      ≡ s.connected_node
routed-connected (ok route) text s = along-connected route text s
routed-connected (raised e) text s = refl

-- The connected node once the end node of a request has handled it.
abbrev pub connected_by : Header → Text → Node → Option Text
connected_by h end_node s =
    if not (text_eq h.received_from s.my_address) && text_eq end_node s.my_address
    then some h.source
    else s.connected_node

-- Whatever the modem answers, a connect request and a disconnect request have the same effect on the
-- node that a node is connected with: the end node of the request, if the request does not come from
-- itself, is connected with its source afterwards, and everything else leaves the connection alone.
pub requests-connect :
    (h : Header) (end_node next_node source_peer_id target_peer_id timeout : Text) (s : Node)
    → ((process_connect_request_header h end_node next_node source_peer_id target_peer_id timeout
          s).1.connected_node
        ≡ connected_by h end_node s)
      × ((process_disconnect_request_header h end_node next_node source_peer_id target_peer_id
            s).1.connected_node
          ≡ connected_by h end_node s)
unfolding process_connect_request_header process_disconnect_request_header ◌>>=◌ best_route
requests-connect h end_node next_node source_peer_id target_peer_id timeout s =
    let connect =
      routed-connected (get_best_route_for_destination end_node s.routing_table)
        (λ next. forwarded h (connect_request end_node next source_peer_id target_peer_id timeout))
        s in
    let disconnect =
      routed-connected (get_best_route_for_destination end_node s.routing_table)
        (λ next. forwarded h (disconnect_request end_node next source_peer_id target_peer_id)) s in
    elim (Bool-cases (text_eq h.received_from s.my_address)) [
      | inl own ↦ rw own (refl, refl)
      | inr other ↦ elim (Bool-cases (text_eq end_node s.my_address)) [
        | inl mine ↦ rw (other, mine) (refl, refl)
        | inr not_mine ↦ elim (Bool-cases (text_eq next_node s.my_address)) [
          | inl next ↦ rw (other, not_mine, next) (connect, disconnect)
          | inr not_next ↦ rw (other, not_mine, not_next) (refl, refl)
        ]
      ]
    ]

-- Whatever the modem answers, a registration by another node keeps the address of every registered
-- peer, and gives its peer the address of that node if the peer had none.
pub registration-registers :
    (h : Header) (peer other : Text) (s : Node)
    → text_eq h.source s.my_address ≡ false
    → get_address_of_peer other (process_registration_header h true peer s).1.routing_table
      ≡ or_else
          (get_address_of_peer other s.routing_table)
          (if text_eq peer other then some h.source else none)
unfolding process_registration_header ◌>>=◌ update_table
registration-registers h peer other s foreign =
    let entered : RoutingTable =
      add_address_to_processed_registration_messages_list s.now h.source s.routing_table in
    rw foreign (
      ap (λ (t : Node). get_address_of_peer other t.routing_table)
        (send-untouched (forwarded h (registration true peer))
          (record s { routing_table = add_peer peer h.source entered }))
      ∙ get_address-add_peer peer other h.source entered
      ∙ unfold add_address_to_processed_registration_messages_list get_address_of_peer in refl)

-- A request whose source is not registered raises before anything is changed.
pub send_connect-unknown :
    (source target timeout : Text) (s : Node)
    → check_peer_is_already_registered source s.routing_table ≡ false
    → send_connect_request_header source target timeout s ≡ (raised value_error, s)
unfolding send_connect_request_header check_peers ◌>>=◌
send_connect-unknown source target timeout s unknown = rw unknown refl
