-- ===== src/RoutingTable/Refinement.antt =====
-- What the routing table promises, whatever order its lists are in: a set of routes and a set of peers.
use lora_multihop.Prelude.{
  Text, text_eq, text_eq_iff, Bool, true, not, ◌&&◌, ◌||◌, List, [], ◌∷◌, ◌++◌, ℤ, pos, eq_ℤ, ◌≡◌,
  refl, ap, ◌∙◌, arith, any, any-append,
}
use lora_multihop.RoutingTable.{
  RoutingTable, Peer, add_routing_table_entry, add_neighbor_to_routing_table,
  delete_all_entries_of_destination, add_peer, delete_peer, check_routing_table_entry_exists,
  check_entry_for_peer_exists,
}
use lora_multihop.RoutingTable.Routes.{exists-add, exists-delete}
use lora_multihop.RoutingTable.Peers.{exists-delete_peer}

-- What can be asked: whether a route or a peer is entered.
pub data Question : Type 0 where
  is_there : Text → Text → ℤ → Question
  is_registered : Text → Text → Question

-- The abstract table: an answer to each question.
abbrev pub Answers : Type 0
Answers = Question → Bool

pub data Operation : Type 0 where
  add_route : Text → Text → ℤ → Operation
  add_neighbor : Text → Operation
  delete_node : Text → Operation
  register : Text → Text → Operation
  unregister : Text → Text → Operation

-- An operation of the program on the lists.
unfoldable pub perform : Operation → RoutingTable → RoutingTable
perform (add_route d n hops) t = add_routing_table_entry d n hops t
perform (add_neighbor address) t = add_neighbor_to_routing_table address t
perform (delete_node x) t = delete_all_entries_of_destination x t
perform (register peer_id address) t = add_peer peer_id address t
perform (unregister peer_id address) t = delete_peer peer_id address t

unfoldable pub answer : RoutingTable → Answers
answer t (is_there d n hops) = check_routing_table_entry_exists d n hops t
answer t (is_registered peer_id address) = check_entry_for_peer_exists peer_id address t

abbrev with_route : Text → Text → ℤ → Answers → Answers
with_route d n hops answers (is_there d' n' hops') =
    answers (is_there d' n' hops') || (text_eq d d' && (text_eq n n' && eq_ℤ hops hops'))
with_route d n hops answers (is_registered p a) = answers (is_registered p a)

-- The same operation on the sets.
unfoldable pub specify : Operation → Answers → Answers
specify (add_route d n hops) answers question = with_route d n hops answers question
specify (add_neighbor address) answers question =
    with_route address address (pos 1) answers question
specify (delete_node x) answers (is_there d n hops) =
    answers (is_there d n hops) && not (text_eq x d || text_eq x n)
specify (delete_node x) answers (is_registered p a) = answers (is_registered p a)
specify (register peer_id address) answers (is_there d n hops) = answers (is_there d n hops)
specify (register peer_id address) answers (is_registered p a) =
    answers (is_registered p a) || (text_eq peer_id p && text_eq address a)
specify (unregister peer_id address) answers (is_there d n hops) = answers (is_there d n hops)
specify (unregister peer_id address) answers (is_registered p a) =
    answers (is_registered p a) && (not (text_eq p peer_id) && not (text_eq a address))

unfoldable pub perform_all : List Operation → RoutingTable → RoutingTable
perform_all [] t = t
perform_all (o ∷ later) t = perform_all later (perform o t)

unfoldable pub specify_all : List Operation → Answers → Answers
specify_all [] answers = answers
specify_all (o ∷ later) answers = specify_all later (specify o answers)

peers-add :
    (d n : Text) (hops : ℤ) (p a : Text) (t : RoutingTable)
    → check_entry_for_peer_exists p a (add_routing_table_entry d n hops t)
      ≡ check_entry_for_peer_exists p a t
unfolding add_routing_table_entry check_entry_for_peer_exists
peers-add d n hops p a t = ground arith

routes-add_peer :
    (d n : Text) (hops : ℤ) (p a : Text) (t : RoutingTable)
    → check_routing_table_entry_exists d n hops (add_peer p a t)
      ≡ check_routing_table_entry_exists d n hops t
unfolding add_peer check_routing_table_entry_exists
routes-add_peer d n hops p a t = ground arith

any-same_peer :
    (p a q b : Text) (ps : List Peer)
    → text_eq p q && text_eq a b ≡ true
    → any (λ x. text_eq x.peer_id q && text_eq x.address b) ps
      ≡ any (λ x. text_eq x.peer_id p && text_eq x.address a) ps
any-same_peer p a q b ps same = ground (arith, text_eq_iff p q, text_eq_iff a b)

any-new_peer :
    (p a q b : Text) (ps : List Peer)
    → any
        (λ x. text_eq x.peer_id q && text_eq x.address b)
        (ps ++ record { peer_id = p; address = a } ∷ [])
      ≡ (any (λ x. text_eq x.peer_id q && text_eq x.address b) ps || (text_eq p q && text_eq a b))
any-new_peer p a q b ps =
    any-append (λ (x : Peer). text_eq x.peer_id q && text_eq x.address b) ps _
    ∙ unfold any in ground arith

exists-add_peer :
    (p a q b : Text) (t : RoutingTable)
    → check_entry_for_peer_exists q b (add_peer p a t)
      ≡ (check_entry_for_peer_exists q b t || (text_eq p q && text_eq a b))
unfolding check_entry_for_peer_exists add_peer
exists-add_peer p a q b t =
    ground (arith, any-new_peer p a q b t.available_peers, any-same_peer p a q b t.available_peers)

perform-specify :
    (o : Operation) (t : RoutingTable) (q : Question)
    → answer (perform o t) q ≡ specify o (answer t) q
unfolding perform answer specify
perform-specify (add_route d n hops) t (is_there d' n' hops') = exists-add d n d' n' hops hops' t
perform-specify (add_route d n hops) t (is_registered p a) = peers-add d n hops p a t
perform-specify (add_neighbor x) t (is_there d n hops) =
    unfold add_neighbor_to_routing_table in exists-add x x d n (pos 1) hops t
perform-specify (add_neighbor x) t (is_registered p a) =
    unfold add_neighbor_to_routing_table in peers-add x x (pos 1) p a t
perform-specify (delete_node x) t (is_there d n hops) = exists-delete x d n hops t
perform-specify (delete_node x) t (is_registered p a) =
    unfold delete_all_entries_of_destination check_entry_for_peer_exists in refl
perform-specify (register peer_id address) t (is_there d n hops) =
    routes-add_peer d n hops peer_id address t
perform-specify (register peer_id address) t (is_registered p a) =
    exists-add_peer peer_id address p a t
perform-specify (unregister peer_id address) t (is_there d n hops) =
    unfold delete_peer check_routing_table_entry_exists in refl
perform-specify (unregister peer_id address) t (is_registered p a) =
    exists-delete_peer peer_id p address a t

-- The lists implement the sets: after any sequence of additions and deletions of routes and peers, every
-- question is answered as by the sets on which the same sequence was performed. The order of the lists
-- and the copies in them are not seen. Deleting a node takes every route to it or through it, and
-- unregistering a peer at a node takes every entry that has this peer or this node.
pub table-refines :
    (operations : List Operation) (t : RoutingTable)
    → answer (perform_all operations t) ≡ specify_all operations (answer t)
unfolding perform_all specify_all
table-refines [] t = refl
table-refines (o ∷ later) t =
    table-refines later (perform o t) ∙ ap (specify_all later) (λ i q. perform-specify o t q i)
