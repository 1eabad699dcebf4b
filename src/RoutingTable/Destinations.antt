-- ===== src/RoutingTable/Destinations.antt =====
-- The list of available destinations.
use lora_multihop.Prelude.{
  Text, text_eq, text_eq_iff, text_eq_comm, false, ◌||◌, List, [], ◌∷◌, ◌++◌, ◌≡◌, refl, arith, any,
  any-append, Bool-cases, inl, inr, ◌∙◌,
}
use lora_multihop.RoutingTable.{
  Route, RoutingTable, contains, append_new, add_destinations,
  get_list_of_all_available_destinations,
}

-- Every text of the list differs from those behind it.
abbrev pub IsDistinct : List Text → Type 0
IsDistinct [] = Unit
IsDistinct (x ∷ xs) = (contains x xs ≡ false) × IsDistinct xs

contains-append :
    (x y : Text) (xs : List Text) → contains x (xs ++ y ∷ []) ≡ (contains x xs || text_eq x y)
unfolding contains
contains-append x y xs = any-append (text_eq x) xs (y ∷ []) ∙ unfold any in ground arith

IsDistinct-append :
    (y : Text) (xs : List Text) → contains y xs ≡ false → IsDistinct xs → IsDistinct (xs ++ y ∷ [])
IsDistinct-append y [] new d = (unfold contains any in refl, tt)
IsDistinct-append y (x ∷ xs) new d = (
  contains-append x y xs ∙ unfold contains any in ground (arith, text_eq_comm x y, d.0),
  IsDistinct-append y xs (unfold contains any in ground arith) d.1,
)

append_new-IsDistinct : (y : Text) (xs : List Text) → IsDistinct xs → IsDistinct (append_new y xs)
unfolding append_new
append_new-IsDistinct y xs d = elim (Bool-cases (contains y xs)) [
  | inl old ↦ rw old d
  | inr new ↦ rw new (IsDistinct-append y xs new d)
]

contains-append_new :
    (x y : Text) (xs : List Text) → contains x (append_new y xs) ≡ (contains x xs || text_eq x y)
unfolding append_new
contains-append_new x y xs = ground (arith, contains-append x y xs, text_eq_iff x y)

destinations-IsDistinct :
    (rs : List Route) (found : List Text)
    → IsDistinct found
    → IsDistinct (add_destinations found rs)
unfolding add_destinations
destinations-IsDistinct [] found d = d
destinations-IsDistinct (r ∷ rs) found d =
    destinations-IsDistinct rs (append_new r.destination found)
      (append_new-IsDistinct r.destination found d)

contains-destinations :
    (x : Text) (rs : List Route) (found : List Text)
    → contains x (add_destinations found rs)
      ≡ (contains x found || any (λ r. text_eq r.destination x) rs)
unfolding add_destinations any
contains-destinations x [] found = ground arith
contains-destinations x (r ∷ rs) found =
    contains-destinations x rs (append_new r.destination found)
    ∙ ground (arith, contains-append_new x r.destination found, text_eq_comm x r.destination)

-- The available destinations are the destinations of the routes, each once.
pub available_destinations :
    (t : RoutingTable)
    → IsDistinct (get_list_of_all_available_destinations t)
      × ((x : Text)
          → contains x (get_list_of_all_available_destinations t)
            ≡ any (λ r. text_eq r.destination x) t.routing_table)
unfolding get_list_of_all_available_destinations
available_destinations t = (
  destinations-IsDistinct t.routing_table [] tt,
  (λ x. contains-destinations x t.routing_table [] ∙ unfold contains any in refl),
)
