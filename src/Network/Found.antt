-- ===== src/Network/Found.antt =====
-- The routes to a node once its reply has arrived.
use lora_multihop.Prelude.{
  Text, text_eq, true, List, [], ◌∷◌, ℤ, pos, ◌+ℤ◌, Option, none, some, ok, ◌≡◌, arith,
}
use lora_multihop.RoutingTable.{
  RoutingTable, Route, add_routing_table_entry, add_neighbor_to_routing_table,
  get_best_route_for_destination, contains,
}
use lora_multihop.Variables.{available_nodes}
use lora_multihop.RoutingTable.{is_route, check_routing_table_entry_exists}
use lora_multihop.RoutingTable.Routes.{exists-add, is_route_refl}
use lora_multihop.RoutingTable.BestRoute.{get_best_route-IsShortest, IsShortest}
use lora_multihop.Prelude.{any}

-- The table of a node that the reply has reached.
abbrev pub table_with : Text → Text → RoutingTable → RoutingTable
table_with d from t =
    add_routing_table_entry d from (pos 0 +ℤ pos 1) (add_neighbor_to_routing_table from t)

-- A route that is in the table gives its destination a best route.
any-destination :
    (d n : Text) (hops : ℤ) (rs : List Route)
    → any (is_route d n hops) rs ≡ true
    → any (λ r. text_eq r.destination d) rs ≡ true
unfolding any
any-destination d n hops [] h = h
any-destination d n hops (r ∷ rs) h = ground (arith, any-destination d n hops rs)

some-best :
    (d : Text) (t : RoutingTable)
    → contains d available_nodes ≡ true
    → any (λ r. text_eq r.destination d) t.routing_table ≡ true
    → (r : Route) × (get_best_route_for_destination d t ≡ ok (some r))
some-best d t known found = by_best (get_best_route-IsShortest d t known)
  where
    by_best :
        ((best : Option Route) × (get_best_route_for_destination d t ≡ ok best)
          × IsShortest d t.routing_table best)
        → (r : Route) × (get_best_route_for_destination d t ≡ ok (some r))
    by_best (none, e, shortest) = absurd (ground arith)
    by_best (some r, e, shortest) = (r, e)

pub known-after :
    (d from : Text) (t : RoutingTable)
    → contains d available_nodes ≡ true
    → (r : Route) × (get_best_route_for_destination d (table_with d from t) ≡ ok (some r))
known-after d from t known = some-best d (table_with d from t) known (
    any-destination d from (pos 0 +ℤ pos 1) _ (
      unfold check_routing_table_entry_exists in
      ground (
        arith,
        exists-add d from d from (pos 0 +ℤ pos 1) (pos 0 +ℤ pos 1)
            (add_neighbor_to_routing_table from t),
        is_route_refl d from (pos 0 +ℤ pos 1),
      )))
