-- ===== src/Protocol/Reconnect.antt =====
-- A connect request that is entered, and the same request once more.
use lora_multihop.Prelude.{
  ℕ, ℤ, ◌+◌, ◌<◌, Result, raised, subst, sym, Text, true, false, ◌≡◌, refl, arith, ok, List, ◌∷◌,
  text_eq_refl,
}
use lora_multihop.RoutingTable.{
  RoutingTable, add_routing_table_entry, add_neighbor_to_routing_table,
  add_neighbor_with_unsupported_protocol, delete_all_entries_of_destination, add_peer, delete_peer,
  add_address_to_processed_requests_list, add_address_to_processed_registration_messages_list,
  add_connect_request, check_connect_request_entry_already_exists,
}
use lora_multihop.RoutingTable.Processed.{connect_request-add}
use lora_multihop.Node.{Node}
use lora_multihop.Node.Action.{Action, continue, ◌>>=◌, update_table}
use lora_multihop.Protocol.Receive.Stable.{
  IsStable, TableMethod, add, neighbor, unsupported, delete, join, leave, request, registered,
  Preserves, Preserves-IsStable,
}
use lora_multihop.Protocol.Send.{send_connect_request_header, check_peers}
use lora_multihop.Protocol.Send.Stable.{connect_after, connect_after-Keeps}
use lora_multihop.Protocol.Calls.{Call, connect, called, called_all, called_all-Keeps}

module _ (later : ℕ) (a b : Text) where
  -- The request is still found at the time `later`.
  abbrev Known : RoutingTable → Type 0
  Known t = check_connect_request_entry_already_exists later a b t ≡ true

  same-Known :
      (t u : RoutingTable)
      → u.processed_connect_request ≡ t.processed_connect_request
      → Known t
      → Known u
  unfolding check_connect_request_entry_already_exists
  same-Known t u same h = rw same h

  add-Known :
      (d n : Text) (hops : ℤ) (t : RoutingTable)
      → Known t
      → Known (add_routing_table_entry d n hops t)
  add-Known d n hops t h = same-Known t _ (unfold add_routing_table_entry in ground arith) h

  unsupported-Known :
      (p : Text) (t : RoutingTable) → Known t → Known (add_neighbor_with_unsupported_protocol p t)
  unsupported-Known p t h =
      same-Known t _ (unfold add_neighbor_with_unsupported_protocol in ground arith) h

  join-Known : (p d : Text) (t : RoutingTable) → Known t → Known (add_peer p d t)
  join-Known p d t h = same-Known t _ (unfold add_peer in ground arith) h

  connect-Known :
      (now : ℕ) (c d : Text) (t : RoutingTable) → Known t → Known (add_connect_request now c d t)
  connect-Known now c d t h = rw (connect_request-add now later c d a b t, h) refl

  Known-method :
      (f : RoutingTable → RoutingTable) (t : RoutingTable) → TableMethod f → Known t → Known (f t)
  Known-method _ t (add d n hops) h = add-Known d n hops t h
  Known-method _ t (neighbor p) h = unfold add_neighbor_to_routing_table in add-Known p p _ t h
  Known-method _ t (unsupported p) h = unsupported-Known p t h
  Known-method _ t (delete p) h =
      same-Known t _ (unfold delete_all_entries_of_destination in refl) h
  Known-method _ t (join p d) h = join-Known p d t h
  Known-method _ t (leave p d) h = same-Known t _ (unfold delete_peer in refl) h
  Known-method _ t (request now p) h =
      same-Known t _ (unfold add_address_to_processed_requests_list in refl) h
  Known-method _ t (registered now p) h =
      same-Known t _ (unfold add_address_to_processed_registration_messages_list in refl) h
  Known-method _ t (TableMethod.connect now c d) h = connect-Known now c d t h

  Known-IsStable : IsStable (Preserves Known)
  Known-IsStable = Preserves-IsStable Known-method

-- A request that is accepted and not found yet is entered first.
send_connect-enters :
    (source target timeout : Text) (s : Node)
    → (check_peers source target s).0 ≡ ok tt
    → check_connect_request_entry_already_exists s.now source target s.routing_table ≡ false
    → send_connect_request_header source target timeout s
      ≡ connect_after source target timeout
          (record s { routing_table = add_connect_request s.now source target s.routing_table })
unfolding send_connect_request_header check_peers ◌>>=◌ update_table
send_connect-enters source target timeout s accepted new = rw (accepted, new) refl

continue-pure :
    (r : Result (Unit {0})) (rest : Unit {0} → Action (Unit {0})) (s : Node)
    → rest tt s ≡ (ok tt, s)
    → continue r rest s ≡ (r, s)
continue-pure (ok a) rest s done = done
continue-pure (raised e) rest s done = refl

-- A request that is found is not sent.
send_connect-known :
    (source target timeout : Text) (s : Node)
    → check_connect_request_entry_already_exists s.now source target s.routing_table ≡ true
    → send_connect_request_header source target timeout s ≡ check_peers source target s
unfolding send_connect_request_header check_peers ◌>>=◌
send_connect-known source target timeout s known =
    continue-pure (check_peers source target s).0 _ s (rw known refl)

connect-Known_after :
    (source target timeout : Text) (s : Node) (later : ℕ)
    → (check_peers source target s).0 ≡ ok tt
    → check_connect_request_entry_already_exists s.now source target s.routing_table ≡ false
    → later < s.now + 45000000
    → check_connect_request_entry_already_exists later source target
        (called (connect source target timeout) s).routing_table
      ≡ true
unfolding called
connect-Known_after source target timeout s later accepted new soon =
    subst
      (λ (after : Result (Unit {0}) × Node).
        check_connect_request_entry_already_exists later source target after.1.routing_table ≡ true)
      (sym (send_connect-enters source target timeout s accepted new))
      ((connect_after-Keeps (Known-IsStable later source target) source target timeout).afterwards _
        (rw (connect_request-add s.now later source target source target s.routing_table)
          (ground (arith, text_eq_refl source, text_eq_refl target))))

-- After the call with a connect request that is accepted and not yet found in the table, whatever is
-- called, whatever lines arrive and whatever the modem answers: until 45 seconds have passed the same
-- request, also with another timeout, does no more than check its peers again. It sends nothing and
-- leaves the node as it is.
pub connect-once :
    (source target timeout timeout' : Text) (calls : List Call) (s : Node)
    → (check_peers source target s).0 ≡ ok tt
    → check_connect_request_entry_already_exists s.now source target s.routing_table ≡ false
    → (called_all (connect source target timeout ∷ calls) s).now < s.now + 45000000
    → send_connect_request_header source target timeout'
        (called_all (connect source target timeout ∷ calls) s)
      ≡ check_peers source target (called_all (connect source target timeout ∷ calls) s)
unfolding called_all
connect-once source target timeout timeout' calls s accepted new soon =
    let s' = called_all (connect source target timeout ∷ calls) s in
    send_connect-known source target timeout' s' (
      called_all-Keeps (Known-IsStable s'.now source target) calls
        (called (connect source target timeout) s)
        (connect-Known_after source target timeout s s'.now accepted new soon))
