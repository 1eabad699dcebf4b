-- ===== src/RoutingTable/BestRoute.antt =====
-- The best route to a destination.
use lora_multihop.Prelude.{
  Text, text_eq, text_eq_iff, text_eq_refl, eq_ℤ_iff, ltb_ℤ, ◌≤ℤ◌, if◌then◌else◌, true, false, List,
  [], ◌∷◌, ℤ, ◌≡◌, refl, arith, any, keep, Bool-cases, inl, inr, Option, none, some, ok, raised,
  value_error, All, All-map,
}
use lora_multihop.Variables.{available_nodes}
use lora_multihop.RoutingTable.{
  Route, RoutingTable, contains, insert_by_hops, sort_by_hops, routes_to, first,
  get_best_route_for_destination, is_route,
}

-- The leftmost route to the destination with the fewest hops, by one walk over the table.
abbrev cheaper : Route → Option Route → Option Route
cheaper r none = some r
cheaper r (some s) = if ltb_ℤ s.hops r.hops then some s else some r

unfoldable pub leftmost_cheapest : Text → List Route → Option Route
leftmost_cheapest destination [] = none
leftmost_cheapest destination (r ∷ rest) =
    let later = leftmost_cheapest destination rest in
    if text_eq r.destination destination then cheaper r later else later

first-insert : (r : Route) (rs : List Route) → first (insert_by_hops r rs) ≡ cheaper r (first rs)
unfolding insert_by_hops
first-insert r [] = refl
first-insert r (s ∷ rs) = ground arith

first-sort :
    (d : Text) (rs : List Route) → first (sort_by_hops (routes_to d rs)) ≡ leftmost_cheapest d rs
unfolding sort_by_hops routes_to keep leftmost_cheapest
first-sort d [] = refl
first-sort d (r ∷ rs) =
    ground (
      arith,
      first-sort d rs,
      first-insert r (sort_by_hops (keep (λ x. text_eq x.destination d) rs)),
    )

-- Sorting by hops and taking the first is one walk that keeps the leftmost cheapest route, for a
-- node of the network; for any other address the call raises.
pub get_best_route-eq :
    (d : Text) (t : RoutingTable)
    → get_best_route_for_destination d t ≡ (
        if contains d available_nodes
        then ok (leftmost_cheapest d t.routing_table)
        else raised value_error)
unfolding get_best_route_for_destination
get_best_route-eq d t = ground (arith, first-sort d t.routing_table)

-- What a best route is: there is no route to the destination, or the route is in the table, leads to
-- the destination, and no other route there has fewer hops.
abbrev pub IsShortest : Text → List Route → Option Route → Type 0
IsShortest d rs none = any (λ s. text_eq s.destination d) rs ≡ false
IsShortest d rs (some r) =
    (r.destination ≡ d)
    × (any (is_route r.destination r.next_node r.hops) rs ≡ true)
    × All (λ s. s.destination ≡ d → r.hops ≤ℤ s.hops) rs

-- A table without a route to `d` bounds nothing.
none-All :
    (d : Text) (h : ℤ) (rs : List Route)
    → any (λ s. text_eq s.destination d) rs ≡ false
    → All (λ (s : Route). s.destination ≡ d → h ≤ℤ s.hops) rs
unfolding any
none-All d h [] e = tt
none-All d h (r ∷ rs) e =
    ((λ same. absurd (ground (arith, text_eq_iff r.destination d))), none-All d h rs (ground arith))

is_route_self : (r : Route) → is_route r.destination r.next_node r.hops r ≡ true
is_route_self r =
    ground (arith, text_eq_refl r.destination, text_eq_refl r.next_node, eq_ℤ_iff r.hops r.hops)

module _ (d : Text) (r : Route) (rs : List Route) where
  chosen :
      r.destination ≡ d
      → All (λ s. s.destination ≡ d → r.hops ≤ℤ s.hops) rs
      → IsShortest d (r ∷ rs) (some r)
  unfolding any
  chosen to_d bound = (to_d, ground (arith, is_route_self r), ((λ _. omega arith), bound))

  cheaper-IsShortest :
      (o : Option Route)
      → r.destination ≡ d
      → IsShortest d rs o
      → IsShortest d (r ∷ rs) (cheaper r o)
  cheaper-IsShortest none to_d h = chosen to_d (none-All d r.hops rs h)
  cheaper-IsShortest (some s) to_d (s_to_d, found, bound) =
      elim (Bool-cases (ltb_ℤ s.hops r.hops)) [
        | inl less ↦ rw less (s_to_d, (unfold any in ground arith), ((λ _. ground arith), bound))
        | inr not_less ↦
            rw not_less (chosen to_d (All-map rs (λ x le to. ground (arith, le to)) bound))
      ]

  skip-IsShortest :
      (o : Option Route)
      → text_eq r.destination d ≡ false
      → IsShortest d rs o
      → IsShortest d (r ∷ rs) o
  unfolding any
  skip-IsShortest none other h = ground arith
  skip-IsShortest (some s) other (s_to_d, found, bound) =
      (s_to_d, ground arith, ((λ to. absurd (ground (arith, text_eq_iff r.destination d))), bound))

leftmost_cheapest-IsShortest :
    (d : Text) (rs : List Route) → IsShortest d rs (leftmost_cheapest d rs)
unfolding leftmost_cheapest
leftmost_cheapest-IsShortest d [] = unfold any in refl
leftmost_cheapest-IsShortest d (r ∷ rs) = elim (Bool-cases (text_eq r.destination d)) [
  | inl same ↦ rw same (
      cheaper-IsShortest d r rs (leftmost_cheapest d rs) ((text_eq_iff r.destination d).0 same)
        (leftmost_cheapest-IsShortest d rs))
  | inr other ↦
      rw other
        (skip-IsShortest d r rs (leftmost_cheapest d rs) other (leftmost_cheapest-IsShortest d rs))
]

-- For a node of the network the call returns, and its result is a best route: none exactly if the
-- table has no route to the node, else an entry of the table with the fewest hops to it.
pub get_best_route-IsShortest :
    (d : Text) (t : RoutingTable)
    → contains d available_nodes ≡ true
    → (best : Option Route) × (get_best_route_for_destination d t ≡ ok best)
      × IsShortest d t.routing_table best
get_best_route-IsShortest d t known = (
  leftmost_cheapest d t.routing_table,
  rw (get_best_route-eq d t) (ground arith),
  leftmost_cheapest-IsShortest d t.routing_table,
)
