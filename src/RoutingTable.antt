-- ===== src/RoutingTable.antt =====
-- src/lora_multihop/routing_table.py: the lists that a node keeps of routes, peers and messages it
-- has seen. `time.time()` is the argument `now`, in microseconds. On ℕ `now - time` stops at 0, which
-- is below every timeout, as the negative difference is that the source gets from a clock set back.
pub mod Routes
pub mod BestRoute
pub mod Destinations
pub mod Peers
pub mod Processed
pub mod Refinement
mod Tests
use lora_multihop.Prelude.{
  ℕ, ◌-◌, Text, text_eq, ltb, ltb_ℤ, eq_ℤ, if◌then◌else◌, Bool, not, ◌&&◌, ◌||◌, List, [], ◌∷◌,
  ◌++◌, Option, none, some, ℤ, pos, Result, ok, raised, value_error, any, keep,
}
use lora_multihop.Variables.{available_nodes, processed_route_request_timeout}

pub record Route : Type 0 where
  pub destination : Text
  pub next_node : Text
  pub hops : ℤ

-- An entry of the lists of processed addresses.
pub record Seen : Type 0 where
  pub address : Text
  pub time : ℕ

pub record Peer : Type 0 where
  pub peer_id : Text
  pub address : Text

pub record ConnectRequest : Type 0 where
  pub source_peer_id : Text
  pub target_peer_id : Text
  pub time : ℕ

pub record ReceivedMessage : Type 0 where
  pub source : Text
  pub message_id : ℤ

pub record RoutingTable : Type 0 where
  pub routing_table : List Route
  pub unsupported_devices : List Text
  pub processed_route_requests : List Seen
  pub processed_registration_messages : List Seen
  pub available_peers : List Peer
  pub received_messages : List ReceivedMessage
  pub processed_connect_request : List ConnectRequest

abbrev pub empty : RoutingTable
empty = record {
  routing_table = [];
  unsupported_devices = [];
  processed_route_requests = [];
  processed_registration_messages = [];
  available_peers = [];
  received_messages = [];
  processed_connect_request = [];
}

-- `x in xs` for text
unfoldable pub contains : Text → List Text → Bool
contains x xs = any (text_eq x) xs

-- `if x not in xs: xs.append(x)`
unfoldable pub append_new : Text → List Text → List Text
append_new x xs = if not (contains x xs) then xs ++ x ∷ [] else xs

-- `xs.remove(x)`: the first occurrence
unfoldable pub remove : Text → List Text → List Text
remove x [] = []
remove x (y ∷ ys) = let rest = remove x ys in if text_eq x y then ys else y ∷ rest

abbrev pub is_route : Text → Text → ℤ → Route → Bool
is_route destination next_node hops r =
    text_eq r.destination destination && (text_eq r.next_node next_node && eq_ℤ r.hops hops)

unfoldable pub check_routing_table_entry_exists : Text → Text → ℤ → RoutingTable → Bool
check_routing_table_entry_exists destination next_node hops t =
    any (is_route destination next_node hops) t.routing_table

unfoldable pub add_routing_table_entry : Text → Text → ℤ → RoutingTable → RoutingTable
unfolding check_routing_table_entry_exists contains
add_routing_table_entry destination next_node hops t =
    let entry : Route = record { destination = destination; next_node = next_node; hops = hops } in
    if not (check_routing_table_entry_exists destination next_node hops t)
    then record t {
      routing_table = t.routing_table ++ entry ∷ [];
      unsupported_devices =
          if contains destination t.unsupported_devices
          then remove destination t.unsupported_devices
          else t.unsupported_devices;
    }
    else t

unfoldable pub add_neighbor_to_routing_table : Text → RoutingTable → RoutingTable
add_neighbor_to_routing_table received_from t =
    add_routing_table_entry received_from received_from (pos 1) t

unfoldable pub add_neighbor_with_unsupported_protocol : Text → RoutingTable → RoutingTable
add_neighbor_with_unsupported_protocol address t = record t {
  unsupported_devices = append_new address t.unsupported_devices;
}

-- `sorted(routes, key=lambda k: k['hops'])`: Python's sort is stable, so a route goes behind those
-- with as many hops that stood before it.
unfoldable pub insert_by_hops : Route → List Route → List Route
insert_by_hops r [] = r ∷ []
insert_by_hops r (s ∷ rest) =
    let later = insert_by_hops r rest in if ltb_ℤ s.hops r.hops then s ∷ later else r ∷ s ∷ rest

unfoldable pub sort_by_hops : List Route → List Route
sort_by_hops [] = []
sort_by_hops (r ∷ rest) = insert_by_hops r (sort_by_hops rest)

unfoldable pub routes_to : Text → List Route → List Route
routes_to destination routes = keep (λ r. text_eq r.destination destination) routes

abbrev pub first {ℓ} : {A : Type ℓ} → List A → Option A
first [] = none
first (x ∷ xs) = some x

-- `none` is the empty dict that the source returns where there is no route.
unfoldable pub get_best_route_for_destination : Text → RoutingTable → Result (Option Route)
get_best_route_for_destination destination t =
    if not (contains destination available_nodes)
    then raised value_error
    else ok (first (sort_by_hops (routes_to destination t.routing_table)))

unfoldable pub add_destinations : List Text → List Route → List Text
add_destinations found [] = found
add_destinations found (r ∷ rest) = add_destinations (append_new r.destination found) rest

unfoldable pub get_list_of_all_available_destinations : RoutingTable → List Text
get_list_of_all_available_destinations t = add_destinations [] t.routing_table

-- An entry goes if the address is any of its values: its destination or its next node.
unfoldable pub delete_all_entries_of_destination : Text → RoutingTable → RoutingTable
delete_all_entries_of_destination destination t = record t {
  routing_table =
      keep (λ r. not (text_eq destination r.destination || text_eq destination r.next_node))
        t.routing_table;
}

unfoldable pub check_entry_for_peer_exists : Text → Text → RoutingTable → Bool
check_entry_for_peer_exists peer_id address t =
    any (λ p. text_eq p.peer_id peer_id && text_eq p.address address) t.available_peers

unfoldable pub add_peer : Text → Text → RoutingTable → RoutingTable
add_peer peer_id address t = if check_entry_for_peer_exists peer_id address t then t else record t {
  available_peers = t.available_peers ++ record { peer_id = peer_id; address = address } ∷ [];
}

unfoldable pub delete_peer : Text → Text → RoutingTable → RoutingTable
delete_peer peer_id address t = record t {
  available_peers =
      keep (λ p. not (text_eq p.peer_id peer_id) && not (text_eq p.address address))
        t.available_peers;
}

abbrev pub get_peers : RoutingTable → List Peer
get_peers t = t.available_peers

unfoldable pub check_peer_is_already_registered : Text → RoutingTable → Bool
check_peer_is_already_registered peer_id t = any (λ p. text_eq p.peer_id peer_id) t.available_peers

unfoldable pub find_address : Text → List Peer → Option Text
find_address peer_id [] = none
find_address peer_id (p ∷ rest) =
    let later = find_address peer_id rest in
    if text_eq p.peer_id peer_id then some p.address else later

-- `none` is the `None` that falls out of the loop.
unfoldable pub get_address_of_peer : Text → RoutingTable → Option Text
unfolding find_address
get_address_of_peer peer_id t = find_address peer_id t.available_peers

unfoldable pub clean_already_processed_requests_list : ℕ → List Seen → List Seen
clean_already_processed_requests_list now processed_list =
    keep (λ s. ltb (now - s.time) processed_route_request_timeout) processed_list

unfoldable pub check_message_already_processed : ℕ → Text → List Seen → Bool
check_message_already_processed now address processed_list =
    any (λ s. text_eq s.address address) (clean_already_processed_requests_list now processed_list)

unfoldable pub add_address_to_processed_list : ℕ → Text → List Seen → List Seen
add_address_to_processed_list now address processed_list =
    let cleaned = clean_already_processed_requests_list now processed_list in
    if not (check_message_already_processed now address cleaned)
    then cleaned ++ record { address = address; time = now } ∷ []
    else cleaned

unfoldable pub add_address_to_processed_requests_list : ℕ → Text → RoutingTable → RoutingTable
add_address_to_processed_requests_list now address t = record t {
  processed_route_requests = add_address_to_processed_list now address t.processed_route_requests;
}

unfoldable pub add_address_to_processed_registration_messages_list :
    ℕ → Text → RoutingTable → RoutingTable
add_address_to_processed_registration_messages_list now address t = record t {
  processed_registration_messages =
      add_address_to_processed_list now address t.processed_registration_messages;
}

unfoldable pub check_route_request_already_processed : ℕ → Text → RoutingTable → Bool
check_route_request_already_processed now address t =
    check_message_already_processed now address t.processed_route_requests

unfoldable pub add_connect_request : ℕ → Text → Text → RoutingTable → RoutingTable
add_connect_request now source_peer_id target_peer_id t = record t {
  processed_connect_request =
      t.processed_connect_request
      ++ record { source_peer_id = source_peer_id; target_peer_id = target_peer_id; time = now }
        ∷ [];
}

-- The list of the last 45 seconds is built and searched, and not kept.
unfoldable pub check_connect_request_entry_already_exists : ℕ → Text → Text → RoutingTable → Bool
check_connect_request_entry_already_exists now source_peer_id target_peer_id t =
    any (λ c. text_eq c.source_peer_id source_peer_id && text_eq c.target_peer_id target_peer_id)
      (keep (λ c. ltb (now - c.time) 45000000) t.processed_connect_request)

unfoldable pub check_message_already_received : Text → ℤ → RoutingTable → Bool
check_message_already_received source message_id t =
    any (λ m. text_eq m.source source && eq_ℤ m.message_id message_id) t.received_messages
