-- ===== src/RoutingTable/Routes.antt =====
-- Adding and deleting routes.
use lora_multihop.Prelude.{
  Text, text_eq, text_eq_iff, text_eq_refl, Bool, true, false, not, ◌&&◌, ◌||◌, List, [], ◌∷◌, ◌++◌,
  ℤ, eq_ℤ_iff, ◌≡◌, refl, ◌∙◌, arith, any, keep, any-append, any-keep-false, text_eq_comm,
  eq_ℤ_comm, Bool-cases, inl, inr,
}
use lora_multihop.RoutingTable.{
  Route, RoutingTable, is_route, check_routing_table_entry_exists, add_routing_table_entry,
  delete_all_entries_of_destination,
}

pub is_route_refl :
    (d n : Text) (h : ℤ)
    → is_route d n h (record { destination = d; next_node = n; hops = h }) ≡ true
is_route_refl d n h = ground (arith, text_eq_refl d, text_eq_refl n, eq_ℤ_iff h h)

-- The test for one route is the test for another that passes it.
any-is_route :
    (d n d' n' : Text) (h h' : ℤ) (rs : List Route)
    → is_route d' n' h' (record { destination = d; next_node = n; hops = h }) ≡ true
    → any (is_route d' n' h') rs ≡ any (is_route d n h) rs
any-is_route d n d' n' h h' rs same =
    ground (arith, text_eq_iff d d', text_eq_iff n n', eq_ℤ_iff h h', same)

any-new :
    (d n d' n' : Text) (h h' : ℤ) (rs : List Route)
    → any (is_route d' n' h') (rs ++ record { destination = d; next_node = n; hops = h } ∷ []) ≡ (
        any (is_route d' n' h') rs
        || is_route d' n' h' (record { destination = d; next_node = n; hops = h }))
any-new d n d' n' h h' rs = any-append (is_route d' n' h') rs _ ∙ unfold any in ground arith

-- After adding a route the table holds what it held, and that route.
pub exists-add :
    (d n d' n' : Text) (h h' : ℤ) (t : RoutingTable)
    → check_routing_table_entry_exists d' n' h' (add_routing_table_entry d n h t) ≡ (
        check_routing_table_entry_exists d' n' h' t
        || is_route d' n' h' (record { destination = d; next_node = n; hops = h }))
unfolding add_routing_table_entry
exists-add d n d' n' h h' t =
    ground
      (arith, any-new d n d' n' h h' t.routing_table, any-is_route d n d' n' h h' t.routing_table)

kept :
    (x d n : Text) (h : ℤ) (rs : List Route)
    → any (is_route d n h) (keep (λ r. not (text_eq x r.destination || text_eq x r.next_node)) rs)
      ≡ (any (is_route d n h) rs && not (text_eq x d || text_eq x n))
unfolding any keep
kept x d n h [] = refl
kept x d n h (r ∷ rs) =
    ground (arith, kept x d n h rs, text_eq_iff r.destination d, text_eq_iff r.next_node n)

-- After deleting a node the table holds no route to it or through it, and all the others.
pub exists-delete :
    (x d n : Text) (h : ℤ) (t : RoutingTable)
    → check_routing_table_entry_exists d n h (delete_all_entries_of_destination x t)
      ≡ (check_routing_table_entry_exists d n h t && not (text_eq x d || text_eq x n))
unfolding check_routing_table_entry_exists delete_all_entries_of_destination
exists-delete x d n h t = kept x d n h t.routing_table

-- No two entries of the list are the same route.
abbrev pub IsUnique : List Route → Type 0
IsUnique [] = Unit
IsUnique (r ∷ rest) = (any (is_route r.destination r.next_node r.hops) rest ≡ false) × IsUnique rest

IsUnique-append :
    (r : Route) (rs : List Route)
    → any (is_route r.destination r.next_node r.hops) rs ≡ false
    → IsUnique rs
    → IsUnique (rs ++ r ∷ [])
unfolding any
IsUnique-append r [] new u = (refl, tt)
IsUnique-append r (s ∷ rs) new u = (
  ground (
    arith,
    any-new r.destination r.next_node s.destination s.next_node r.hops s.hops rs,
    text_eq_comm s.destination r.destination,
    text_eq_comm s.next_node r.next_node,
    eq_ℤ_comm s.hops r.hops,
  ),
  IsUnique-append r rs (ground arith) u.1,
)

-- Adding a route keeps the entries distinct.
pub add-IsUnique :
    (d n : Text) (h : ℤ) (t : RoutingTable)
    → IsUnique t.routing_table
    → IsUnique (add_routing_table_entry d n h t).routing_table
unfolding add_routing_table_entry
add-IsUnique d n h t u = elim (Bool-cases (any (is_route d n h) t.routing_table)) [
  | inl old ↦ rw old u
  | inr new ↦
      rw new (
        IsUnique-append (record { destination = d; next_node = n; hops = h }) t.routing_table new u)
]

-- What is kept of distinct entries is distinct.
keep-IsUnique : (test : Route → Bool) (rs : List Route) → IsUnique rs → IsUnique (keep test rs)
unfolding keep
keep-IsUnique test [] u = tt
keep-IsUnique test (r ∷ rs) u = elim (Bool-cases (test r)) [
  | inl yes_kept ↦ rw yes_kept (
    any-keep-false (is_route r.destination r.next_node r.hops) test rs u.0,
    keep-IsUnique test rs u.1,
  )
  | inr dropped ↦ rw dropped (keep-IsUnique test rs u.1)
]

pub delete-IsUnique :
    (x : Text) (t : RoutingTable)
    → IsUnique t.routing_table
    → IsUnique (delete_all_entries_of_destination x t).routing_table
unfolding delete_all_entries_of_destination
delete-IsUnique x t u = keep-IsUnique _ t.routing_table u
