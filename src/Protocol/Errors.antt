-- ===== src/Protocol/Errors.antt =====
-- Route errors, and route replies that are passed on.
use lora_multihop.Prelude.{
  Text, text_eq, text_eq_refl, text_eq_comm, Bool, true, false, not, ◌||◌, List, [], ◌∷◌, ℤ, pos,
  ◌+ℤ◌, ltb_ℤ, none, some, Result, ok, raised, key_error, ◌≡◌, refl, arith, if◌then◌else◌, ap, ◌∙◌,
  any, keep, Bool-cases, inl, inr,
}
use lora_multihop.Header.{Body, route_reply, Header}
use lora_multihop.Header.Parse.{create_header_obj_from_raw_message, get_received_from_value}
use lora_multihop.RoutingTable.{
  RoutingTable, Route, contains, check_routing_table_entry_exists, get_best_route_for_destination,
  delete_all_entries_of_destination, get_list_of_all_available_destinations,
  add_routing_table_entry, add_neighbor_to_routing_table,
}
use lora_multihop.RoutingTable.Routes.{exists-delete}
use lora_multihop.RoutingTable.Destinations.{available_destinations}
use lora_multihop.Node.{Node}
use lora_multihop.Node.Action.{◌>>=◌, update_table, except_value_error, handled, best_route}
use lora_multihop.Protocol.Untouched.{send-untouched}
use lora_multihop.Protocol.Delivery.{incoming-accepted, with_neighbor}
use lora_multihop.Protocol.Receive.{
  process_route_error_header, process_route_reply_header, process_header, process_line,
  process_incoming, note_unsupported, survived, process_incoming_message,
}

deleted-none :
    (x : Text) (rs : List Route)
    → any
        (λ r. text_eq r.destination x)
        (keep (λ r. not (text_eq x r.destination || text_eq x r.next_node)) rs)
      ≡ false
unfolding any keep
deleted-none x [] = refl
deleted-none x (r ∷ rs) = ground (arith, deleted-none x rs, text_eq_comm x r.destination)

-- the table on which a route error for `x` is passed on
abbrev without : Text → RoutingTable → RoutingTable
without x t =
    if contains x (get_list_of_all_available_destinations t)
    then delete_all_entries_of_destination x t
    else t

without-none :
    (x : Text) (t : RoutingTable)
    → any (λ r. text_eq r.destination x) (without x t).routing_table ≡ false
without-none x t =
    let found = (available_destinations t).1 x in
    elim (Bool-cases (contains x (get_list_of_all_available_destinations t))) [
      | inl known ↦
          rw known (unfold delete_all_entries_of_destination in deleted-none x t.routing_table)
      | inr unknown ↦ rw unknown (ground (arith, found))
    ]

error-sends :
    (h : Header) (x : Text) (s : Node)
    → (process_route_error_header h x s).1.routing_table ≡ without x s.routing_table
unfolding process_route_error_header ◌>>=◌ update_table
error-sends h x s =
    elim (Bool-cases (contains x (get_list_of_all_available_destinations s.routing_table))) [
      | inl known ↦ rw known (ap (λ (t : Node). t.routing_table) (send-untouched _ _))
      | inr unknown ↦ rw unknown (ap (λ (t : Node). t.routing_table) (send-untouched _ _))
    ]

without-others :
    (x d n : Text) (hops : ℤ) (t : RoutingTable)
    → text_eq x d ≡ false
    → text_eq x n ≡ false
    → check_routing_table_entry_exists d n hops (without x t)
      ≡ check_routing_table_entry_exists d n hops t
without-others x d n hops t not_to not_through = ground (arith, exists-delete x d n hops t)

-- After a route error for a node, whatever the modem answers, no route to that node is in the table.
-- Every route that neither leads to it nor goes through it is there exactly if it was before.
pub route_error-removes :
    (h : Header) (x : Text) (s : Node) (d n : Text) (hops : ℤ)
    → text_eq x d ≡ false
    → text_eq x n ≡ false
    → (any
          (λ r. text_eq r.destination x)
          (process_route_error_header h x s).1.routing_table.routing_table
        ≡ false)
      × (check_routing_table_entry_exists d n hops
            (process_route_error_header h x s).1.routing_table
          ≡ check_routing_table_entry_exists d n hops s.routing_table)
route_error-removes h x s d n hops not_to not_through =
    rw (error-sends h x s)
      (without-none x s.routing_table, without-others x d n hops s.routing_table not_to not_through)

-- A thread that has ended processes nothing.
ended :
    (lines : List Text) (s : Node)
    → process_incoming_message lines (record s { receiving = false })
      ≡ record s { receiving = false }
unfolding process_incoming_message
ended [] s = refl
ended (raw ∷ rest) s = ended rest s

reply-raises :
    (h : Header) (hops : ℤ) (end_node : Text) (r : Route) (s : Node)
    → text_eq h.source s.my_address ≡ false
    → text_eq end_node s.my_address ≡ false
    → get_best_route_for_destination h.source s.routing_table ≡ ok (some r)
    → get_best_route_for_destination end_node
        (add_routing_table_entry h.source h.received_from (hops +ℤ pos 1) s.routing_table)
      ≡ ok none
    → process_route_reply_header h hops end_node s.my_address s ≡ (
      raised key_error,
      record s {
        routing_table =
            add_routing_table_entry h.source h.received_from (hops +ℤ pos 1) s.routing_table;
      },
    )
unfolding process_route_reply_header ◌>>=◌ update_table best_route
reply-raises h hops end_node r s not_mine not_for_me known unknown =
    rw (not_mine, not_for_me, text_eq_refl s.my_address, known, unknown)

-- The tables as a route reply of another node finds them: the last hop is entered as a neighbour.
abbrev pub entered : Header → RoutingTable → RoutingTable
entered h t = add_neighbor_to_routing_table h.received_from t

-- A valid line whose ttl is above one, with a route reply of another node that this node is asked to
-- pass on to a third node, ends the running receiving thread, if, with the last hop entered as a
-- neighbour, the node knows a route to the source of the reply, and none to the node that it is for
-- once the route to the source is entered. The two routes are entered, and none of the lines behind
-- it is processed any more.
pub reply_ends_thread :
    (raw : Text) (rest : List Text) (h : Header) (hops : ℤ) (end_node : Text) (r : Route) (s : Node)
    → create_header_obj_from_raw_message raw ≡ ok h
    → h.body ≡ route_reply hops end_node s.my_address
    → ltb_ℤ (pos 1) h.ttl ≡ true
    → s.receiving ≡ true
    → text_eq h.source s.my_address ≡ false
    → text_eq end_node s.my_address ≡ false
    → get_best_route_for_destination h.source (entered h s.routing_table) ≡ ok (some r)
    → get_best_route_for_destination end_node (
        add_routing_table_entry h.source h.received_from
          (hops +ℤ pos 1)
          (entered h s.routing_table))
      ≡ ok none
    → process_incoming_message (raw ∷ rest) s ≡ record s {
      routing_table =
          add_routing_table_entry h.source h.received_from
            (hops +ℤ pos 1)
            (entered h s.routing_table);
      receiving = false;
    }
unfolding process_incoming_message process_line
reply_ends_thread raw rest h hops end_node r s parsed is_reply alive running not_mine not_for_me
      known unknown =
    let gone : Node = record s {
      routing_table =
          add_routing_table_entry h.source h.received_from (hops +ℤ pos 1)
            (entered h s.routing_table);
    } in
    let raises : process_incoming raw s ≡ (raised key_error, gone) =
      incoming-accepted raw h s parsed alive
      ∙ ap
          (λ (body : Body).
            except_value_error (process_header h body)
              (note_unsupported (get_received_from_value raw)) (with_neighbor h.received_from s))
          is_reply
      ∙ unfold except_value_error process_header in
        ap
          (λ (result : Result (Unit {0}) × Node).
            handled result.0 (note_unsupported (get_received_from_value raw)) result.1)
          (reply-raises h hops end_node r (with_neighbor h.received_from s) not_mine not_for_me
            known unknown) in
    ap (process_incoming_message rest) (
      ap (λ (b : Bool). if b then process_line raw s else s) running
      ∙ unfold process_line in
        ap (λ (result : Result (Unit {0}) × Node). survived result.0 result.1) raises)
    ∙ ended rest gone
