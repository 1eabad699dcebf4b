-- ===== src/Protocol/Receive/Orderly.antt =====
-- Orderly tables, and the operations of the routing table on them.
use lora_multihop.Prelude.{
  ℕ, Text, text_eq, text_eq_comm, Bool, false, ◌&&◌, List, [], ◌∷◌, ◌++◌, ℤ, ◌≡◌, refl, arith, any,
  keep, any-append, any-keep-false, Bool-cases, inl, inr,
}
use lora_multihop.RoutingTable.{
  RoutingTable, Peer, add_routing_table_entry, add_neighbor_to_routing_table,
  add_neighbor_with_unsupported_protocol, delete_all_entries_of_destination, add_peer, delete_peer,
  check_entry_for_peer_exists, add_address_to_processed_requests_list,
  add_address_to_processed_registration_messages_list,
}
use lora_multihop.RoutingTable.Routes.{IsUnique, add-IsUnique, delete-IsUnique}

abbrev is_peer : Text → Text → Peer → Bool
is_peer peer_id address p = text_eq p.peer_id peer_id && text_eq p.address address

-- No peer is entered twice for one node.
abbrev pub IsUniquePeers : List Peer → Type 0
IsUniquePeers [] = Unit
IsUniquePeers (p ∷ rest) = (any (is_peer p.peer_id p.address) rest ≡ false) × IsUniquePeers rest

-- No route and no peer is entered twice, and no message is recorded as received.
pub record IsOrderly (t : RoutingTable) : Type 0 where
  pub routes : IsUnique t.routing_table
  pub peers : IsUniquePeers t.available_peers
  pub none_received : t.received_messages ≡ []

append-IsUniquePeers :
    (p : Peer) (ps : List Peer)
    → any (is_peer p.peer_id p.address) ps ≡ false
    → IsUniquePeers ps
    → IsUniquePeers (ps ++ p ∷ [])
unfolding any
append-IsUniquePeers p [] new u = (refl, tt)
append-IsUniquePeers p (q ∷ ps) new u = (
  ground (
    arith,
    any-append (is_peer q.peer_id q.address) ps (p ∷ []),
    text_eq_comm q.peer_id p.peer_id,
    text_eq_comm q.address p.address,
  ),
  append-IsUniquePeers p ps (ground arith) u.1,
)

keep-IsUniquePeers :
    (test : Peer → Bool) (ps : List Peer) → IsUniquePeers ps → IsUniquePeers (keep test ps)
unfolding keep
keep-IsUniquePeers test [] u = tt
keep-IsUniquePeers test (p ∷ ps) u = elim (Bool-cases (test p)) [
  | inl stays ↦
      rw stays
        (any-keep-false (is_peer p.peer_id p.address) test ps u.0, keep-IsUniquePeers test ps u.1)
  | inr goes ↦ rw goes (keep-IsUniquePeers test ps u.1)
]

pub add-IsOrderly :
    (d n : Text) (h : ℤ) (t : RoutingTable)
    → IsOrderly t
    → IsOrderly (add_routing_table_entry d n h t)
add-IsOrderly d n h t o = record {
  routes = add-IsUnique d n h t o.routes;
  peers = unfold add_routing_table_entry in ground arith;
  none_received = unfold add_routing_table_entry in ground arith;
}

pub neighbor-IsOrderly :
    (a : Text) (t : RoutingTable) → IsOrderly t → IsOrderly (add_neighbor_to_routing_table a t)
unfolding add_neighbor_to_routing_table
neighbor-IsOrderly a t o = add-IsOrderly a a _ t o

pub unsupported-IsOrderly :
    (a : Text) (t : RoutingTable)
    → IsOrderly t
    → IsOrderly (add_neighbor_with_unsupported_protocol a t)
unfolding add_neighbor_with_unsupported_protocol
unsupported-IsOrderly a t o = ground arith

pub delete-IsOrderly :
    (a : Text) (t : RoutingTable) → IsOrderly t → IsOrderly (delete_all_entries_of_destination a t)
delete-IsOrderly a t o = record {
  routes = delete-IsUnique a t o.routes;
  peers = unfold delete_all_entries_of_destination in o.peers;
  none_received = unfold delete_all_entries_of_destination in o.none_received;
}

pub add_peer-IsOrderly : (p a : Text) (t : RoutingTable) → IsOrderly t → IsOrderly (add_peer p a t)
unfolding add_peer check_entry_for_peer_exists
add_peer-IsOrderly p a t o = elim (Bool-cases (any (is_peer p a) t.available_peers)) [
  | inl old ↦ rw old o
  | inr new ↦ rw new (record {
    routes = o.routes;
    peers =
        append-IsUniquePeers (record { peer_id = p; address = a }) t.available_peers new o.peers;
    none_received = o.none_received;
  })
]

pub delete_peer-IsOrderly :
    (p a : Text) (t : RoutingTable) → IsOrderly t → IsOrderly (delete_peer p a t)
unfolding delete_peer
delete_peer-IsOrderly p a t o = record {
  routes = o.routes;
  peers = keep-IsUniquePeers _ t.available_peers o.peers;
  none_received = o.none_received;
}

pub request-IsOrderly :
    (now : ℕ) (a : Text) (t : RoutingTable)
    → IsOrderly t
    → IsOrderly (add_address_to_processed_requests_list now a t)
unfolding add_address_to_processed_requests_list
request-IsOrderly now a t o = record {
  routes = o.routes;
  peers = o.peers;
  none_received = o.none_received;
}

pub registration-IsOrderly :
    (now : ℕ) (a : Text) (t : RoutingTable)
    → IsOrderly t
    → IsOrderly (add_address_to_processed_registration_messages_list now a t)
unfolding add_address_to_processed_registration_messages_list
registration-IsOrderly now a t o = record {
  routes = o.routes;
  peers = o.peers;
  none_received = o.none_received;
}
