-- ===== src/RoutingTable/Tests.antt =====
-- The routing table on the inputs of src/tests/test_routing_table.py and on a few more.
use lora_multihop.Prelude.{
  codes, text_eq, false, [], ◌∷◌, pos, Option, some, ok, ◌≡◌, refl, any, keep,
}
use lora_multihop.Variables.{available_nodes}
use lora_multihop.RoutingTable.{
  Route, RoutingTable, empty, contains, get_best_route_for_destination, delete_peer,
  check_entry_for_peer_exists, routes_to, sort_by_hops, insert_by_hops,
}
use lora_multihop.RoutingTable.BestRoute.{get_best_route-IsShortest, IsShortest}
use lora_multihop.RoutingTable.Refinement.{
  answer, perform_all, specify_all, delete_node, unregister, table-refines,
}

-- the table of `test_get_best_route_for_destination_good`, and two peers at 0131
abbrev table : RoutingTable
table = record empty {
  routing_table =
      record { destination = codes "0136"; next_node = codes "0138"; hops = pos 2 }
      ∷ record { destination = codes "0136"; next_node = codes "0136"; hops = pos 0 }
      ∷ record { destination = codes "0136"; next_node = codes "0137"; hops = pos 1 }
      ∷ [];
  available_peers =
      record { peer_id = codes "alice"; address = codes "0131" }
      ∷ record { peer_id = codes "bob"; address = codes "0131" }
      ∷ [];
}

best_good :
    get_best_route_for_destination (codes "0136") table
    ≡ ok (some (record { destination = codes "0136"; next_node = codes "0136"; hops = pos 0 }))
unfolding get_best_route_for_destination contains any text_eq available_nodes routes_to keep
    sort_by_hops insert_by_hops
best_good = refl

get_best_route-IsShortest_example :
    (best : Option Route) × (get_best_route_for_destination (codes "0136") table ≡ ok best)
    × IsShortest (codes "0136") table.routing_table best
unfolding contains any text_eq available_nodes
get_best_route-IsShortest_example = get_best_route-IsShortest (codes "0136") table refl

-- unregistering alice: bob goes with her
bob_goes :
    check_entry_for_peer_exists
      (codes "bob")
      (codes "0131")
      (delete_peer (codes "alice") (codes "0131") table)
    ≡ false
unfolding check_entry_for_peer_exists delete_peer any keep text_eq
bob_goes = refl

table-refines_example :
    answer (
      perform_all
        (delete_node (codes "0138") ∷ unregister (codes "alice") (codes "0131") ∷ [])
        table)
    ≡ specify_all
        (delete_node (codes "0138") ∷ unregister (codes "alice") (codes "0131") ∷ [])
        (answer table)
table-refines_example =
    table-refines (delete_node (codes "0138") ∷ unregister (codes "alice") (codes "0131") ∷ [])
      table
