-- ===== src/Protocol/Requests.antt =====
-- Route requests of other nodes for other nodes, which a node passes on.
use lora_multihop.Prelude.{
  ℕ, ◌-◌, ◌≤◌, Text, text_eq, text_eq_refl, true, false, ℤ, pos, ◌+ℤ◌, Option, none, some, Result,
  ok, raised, ◌≡◌, refl, arith, ap, ◌∙◌, ltb,
}
use lora_multihop.Variables.{available_nodes, processed_route_request_timeout}
use lora_multihop.Header.{Header, route_request}
use lora_multihop.RoutingTable.{
  RoutingTable, Route, contains, get_best_route_for_destination, add_routing_table_entry,
  add_address_to_processed_requests_list, check_route_request_already_processed,
}
use lora_multihop.RoutingTable.BestRoute.{get_best_route-eq, leftmost_cheapest}
use lora_multihop.RoutingTable.Processed.{check-add}
use lora_multihop.Node.{Node}
use lora_multihop.Node.Action.{◌>>=◌, best_route, update_table}
use lora_multihop.Protocol.Transmit.{send_header}
use lora_multihop.Protocol.Untouched.{send-untouched, queues_of}
use lora_multihop.Protocol.Receive.{forwarded, process_route_request}

processed-entry :
    (now : ℕ) (a d n : Text) (hops : ℤ) (t : RoutingTable)
    → check_route_request_already_processed now a (add_routing_table_entry d n hops t)
      ≡ check_route_request_already_processed now a t
unfolding add_routing_table_entry check_route_request_already_processed
processed-entry now a d n hops t = ground arith

processed-add :
    (now later : ℕ) (a : Text) (t : RoutingTable)
    → now ≤ later
    → ltb (later - now) processed_route_request_timeout ≡ true
    → check_route_request_already_processed now a t ≡ false
    → check_route_request_already_processed later a (add_address_to_processed_requests_list now a t)
      ≡ true
unfolding check_route_request_already_processed add_address_to_processed_requests_list
processed-add now later a t le recent new =
    ground (arith, check-add now later a a t.processed_route_requests le new, text_eq_refl a)

module _ (h : Header) (hops : ℤ) (end_node : Text) (s : Node) where
  -- the routes once the source of the request has been entered, where there was no route to it
  abbrev pub known_source : Option Route → RoutingTable
  known_source none = add_routing_table_entry h.source h.received_from hops s.routing_table
  known_source (some _) = s.routing_table

  passed_on :
      (o : Option Route)
      → text_eq h.source s.my_address ≡ false
      → text_eq end_node s.my_address ≡ false
      → get_best_route_for_destination h.source s.routing_table ≡ ok o
      → check_route_request_already_processed s.now end_node s.routing_table ≡ false
      → process_route_request h hops end_node s
        ≡ send_header (forwarded h (route_request (hops +ℤ pos 1) end_node)) (record s {
          routing_table = add_address_to_processed_requests_list s.now end_node (known_source o);
        })
  unfolding process_route_request ◌>>=◌ update_table best_route
  passed_on none not_mine not_for_me best new =
      let same = processed-entry s.now end_node h.source h.received_from hops s.routing_table in
      rw (not_mine, not_for_me, best, same, new) refl
  passed_on (some r) not_mine not_for_me best new = rw (not_mine, not_for_me, best, new) refl

  remembered :
      (o : Option Route) (later : ℕ)
      → s.now ≤ later
      → ltb (later - s.now) processed_route_request_timeout ≡ true
      → check_route_request_already_processed s.now end_node s.routing_table ≡ false
      → check_route_request_already_processed later end_node
          (add_address_to_processed_requests_list s.now end_node (known_source o))
        ≡ true
  remembered none later le recent new =
      processed-add s.now later end_node (known_source none) le recent
        (processed-entry s.now end_node h.source h.received_from hops s.routing_table ∙ new)
  remembered (some r) later le recent new =
      processed-add s.now later end_node s.routing_table le recent new

  not_passed_on :
      (r : Result (Option Route))
      → text_eq end_node s.my_address ≡ false
      → get_best_route_for_destination h.source s.routing_table ≡ r
      → check_route_request_already_processed s.now end_node s.routing_table ≡ true
      → (process_route_request h hops end_node s).1.writing_q ≡ s.writing_q
  unfolding process_route_request ◌>>=◌ update_table best_route
  not_passed_on (ok none) not_for_me best old =
      let same = processed-entry s.now end_node h.source h.received_from hops s.routing_table in
      ground (arith, same)
  not_passed_on (ok (some r)) not_for_me best old = ground arith
  not_passed_on (raised e) not_for_me best old = ground arith

-- A route request of another node of the network for a node other than this one, which this node has
-- not entered lately, is sent on with one hop more, on a table that has the request entered and has a
-- route to its source, which is entered if there was none. A request for the same node that is handled
-- next, before the timeout of ten seconds has passed, writes nothing to the modem, whatever the modem
-- answered before: from whichever node it comes and however many hops it has made.
pub request-once :
    (h h' : Header) (hops hops' : ℤ) (end_node : Text) (later : ℕ) (s : Node)
    → contains h.source available_nodes ≡ true
    → text_eq h.source s.my_address ≡ false
    → text_eq end_node s.my_address ≡ false
    → check_route_request_already_processed s.now end_node s.routing_table ≡ false
    → s.now ≤ later
    → ltb (later - s.now) processed_route_request_timeout ≡ true
    → (process_route_request h hops end_node s
        ≡ send_header (forwarded h (route_request (hops +ℤ pos 1) end_node)) (record s {
          routing_table = add_address_to_processed_requests_list s.now end_node (
              known_source h hops end_node s
                (leftmost_cheapest h.source s.routing_table.routing_table));
        }))
      × ((process_route_request h' hops' end_node
            (record (process_route_request h hops end_node s).1 { now = later })).1.writing_q
          ≡ (process_route_request h hops end_node s).1.writing_q)
request-once h h' hops hops' end_node later s known not_mine not_for_me new le recent =
    let o = leftmost_cheapest h.source s.routing_table.routing_table in
    let best : get_best_route_for_destination h.source s.routing_table ≡ ok o =
      rw (get_best_route-eq h.source s.routing_table) (ground arith) in
    let once = passed_on h hops end_node s o not_mine not_for_me best new in
    let next : Node = record s {
      routing_table =
          add_address_to_processed_requests_list s.now end_node (known_source h hops end_node s o);
    } in
    let text = forwarded h (route_request (hops +ℤ pos 1) end_node) in
    let after_first = process_route_request h hops end_node s in
    let same : after_first.1 ≡ queues_of (send_header text next).1 next =
      ap (λ (x : Result (Unit {0}) × Node). x.1) once ∙ send-untouched text next in
    (
      once,
      not_passed_on h' hops' end_node (record after_first.1 { now = later }) _
          (ap (λ (x : Node). text_eq end_node x.my_address) same ∙ not_for_me) refl
          (ap (λ (x : Node). check_route_request_already_processed later end_node x.routing_table)
              same
            ∙ remembered h hops end_node s o later le recent new),
    )
