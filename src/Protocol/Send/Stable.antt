-- ===== src/Protocol/Send/Stable.antt =====
-- What the methods that send do to the node, with the lines that arrive during their sleeps, in terms
-- of the changes that they make.
use lora_multihop.Prelude.{
  ℕ, zero, suc, ◌+◌, Text, Bool, true, false, not, List, [], ◌∷◌, ℤ, pos, Option, none, some, ltb,
}
use lora_multihop.Variables.{default_ttl}
use lora_multihop.Header.{connect_request, get_header_str}
use lora_multihop.Node.{Node}
use lora_multihop.Node.Action.{Action, modify, gets, ◌>>=◌, is_none}
use lora_multihop.Node.Action.Keeps.{
  IsPreorder, Keeps, Keeps-modify, Keeps-bind, Keeps-if, Keeps-pure, Keeps-gets, Keeps-best_route,
  keeps_rules,
}
use lora_multihop.Protocol.Transmit.{add_message_to_waiting_acknowledgement_list, send_header}
use lora_multihop.Protocol.Receive.Stable.{
  IsStable, send_header-Keeps, delete-Keeps, join-Keeps, leave-Keeps, connect-Keeps,
}
use lora_multihop.Protocol.Receive.Handled.{lines-Keeps, delete_from_ack_list-Keeps}
use lora_multihop.Protocol.Send.{
  next_arrivals, sleep_half, wait_for, attempts, wait_for_route, request_round,
  send_route_request_message, with_route, message_round, give_up, send_along, send_to, send_message,
  check_peers, address_of, send_connect_request_header, send_disconnect_request_header,
  registration_round, send_registration_message,
}

-- What follows once a connect request is entered.
abbrev pub connect_after : Text → Text → Text → Action (Unit {0})
connect_after source target timeout = do
  end_node ← address_of target
  me ← gets (λ s. s.my_address)
  with_route end_node (λ next_node. send_header (
      get_header_str (record {
        source = me;
        ttl = pos default_ttl;
        body = connect_request end_node next_node source target timeout;
      })))

module _ {R : Node → Node → Type 0} (stable : IsStable R) where
  ordered : IsPreorder R
  ordered = stable.order

  ruleset send_rules = (keeps_rules, ordered, send_header-Keeps)

  arrivals-Keeps :
      (arrivals : List (List Text)) (time : ℕ) (s : Node)
      → R s (next_arrivals arrivals (record s { now = time }))
  arrivals-Keeps [] time s = stable.passes s time s.arrivals
  arrivals-Keeps (lines ∷ later) time s =
      stable.order.transitive s (record s { now = time; arrivals = later }) _
        (stable.passes s time later)
        (lines-Keeps stable lines (record s { now = time; arrivals = later }))

  sleep-Keeps : Keeps R sleep_half
  unfolding sleep_half
  sleep-Keeps = record { afterwards = λ s. arrivals-Keeps s.arrivals (s.now + 500000) s }

  wait_for-Keeps : (answered : Node → Bool) (tries : ℕ) → Keeps R (wait_for answered tries)
  unfolding wait_for
  wait_for-Keeps answered zero = search send_rules
  wait_for-Keeps answered (suc tries) =
      Keeps-bind ordered _ _
        (λ done.
          Keeps-if ordered done _ _
            (Keeps-bind ordered _ _ (λ slept. wait_for-Keeps answered tries) sleep-Keeps)
            (Keeps-pure ordered true))
        (Keeps-gets ordered answered)

  wait_for_route-Keeps : (end_node : Text) (tries : ℕ) → Keeps R (wait_for_route end_node tries)
  unfolding wait_for_route
  wait_for_route-Keeps end_node zero = search send_rules
  wait_for_route-Keeps end_node (suc tries) =
      Keeps-bind ordered _ _
        (λ route.
          Keeps-if ordered (not (is_none route)) _ _
            (Keeps-bind ordered _ _ (λ slept. wait_for_route-Keeps end_node tries) sleep-Keeps)
            (Keeps-pure ordered true))
        (Keeps-best_route ordered end_node)

  attempts-Keeps :
      (fuel step attempt : ℕ) (round : Action Bool)
      → Keeps R round
      → Keeps R (attempts fuel step attempt round)
  unfolding attempts
  attempts-Keeps zero step attempt round h = search send_rules
  attempts-Keeps (suc fuel) step attempt round h =
      Keeps-if ordered (ltb attempt 3) _ _ (Keeps-pure ordered false) (
        Keeps-bind ordered _ _
          (λ confirmed.
            Keeps-if ordered confirmed _ _ (attempts-Keeps fuel step (attempt + step) round h)
              (Keeps-pure ordered true))
          h)

  request-round-Keeps : (end_node : Text) → Keeps R (request_round end_node)
  unfolding request_round
  request-round-Keeps end_node = search (send_rules, wait_for_route-Keeps) depth 10

  send_route_request-Keeps : (end_node : Text) → Keeps R (send_route_request_message end_node)
  unfolding send_route_request_message
  send_route_request-Keeps end_node =
      attempts-Keeps 4 2 0 (request_round end_node) (request-round-Keeps end_node)

  with_route-Keeps :
      (destination : Text) (forward : Text → Action (Unit {0}))
      → ((next : Text) → Keeps R (forward next))
      → Keeps R (with_route destination forward)
  unfolding with_route
  with_route-Keeps destination forward h = search (send_rules, send_route_request-Keeps, h) depth 14

  message_round-Keeps : (text : Text) (id : ℤ) → Keeps R (message_round text id)
  unfolding message_round
  message_round-Keeps text id = search (send_rules, wait_for-Keeps) depth 10

  give_up-Keeps : (destination : Text) (id : ℤ) → Keeps R (give_up destination id)
  unfolding give_up
  give_up-Keeps destination id =
      search
        (keeps_rules, delete-Keeps stable, delete_from_ack_list-Keeps stable, send_header-Keeps)
        depth 10

  count-Keeps : Keeps R (modify (λ s. record s { message_counter = s.message_counter + 1 }))
  count-Keeps = Keeps-modify _ (λ s. stable.counts s)

  pending-Keeps : (id : ℤ) → Keeps R (add_message_to_waiting_acknowledgement_list id)
  unfolding add_message_to_waiting_acknowledgement_list
  pending-Keeps id = Keeps-modify _ (λ s. stable.acknowledges s _)

  send_along-Keeps :
      (destination : Text) (payload : List ℕ) (next_node : Text)
      → Keeps R (send_along destination payload next_node)
  unfolding send_along
  send_along-Keeps destination payload next_node =
      search
        (
          keeps_rules, count-Keeps, pending-Keeps, attempts-Keeps, message_round-Keeps,
          give_up-Keeps,
        )
        depth 14

  send_to-Keeps : (connected : Option Text) (payload : List ℕ) → Keeps R (send_to connected payload)
  send_to-Keeps none payload = search send_rules
  send_to-Keeps (some destination) payload =
      with_route-Keeps destination (send_along destination payload)
        (send_along-Keeps destination payload)

  pub send_message-Keeps : (payload : List ℕ) → Keeps R (send_message payload)
  unfolding send_message
  send_message-Keeps payload = search (send_rules, send_to-Keeps)

  check_peers-Keeps : (source target : Text) → Keeps R (check_peers source target)
  unfolding check_peers
  check_peers-Keeps source target = record { afterwards = λ s. stable.order.reflexive s }

  address_of-Keeps : (peer_id : Text) → Keeps R (address_of peer_id)
  unfolding address_of
  address_of-Keeps peer_id = record { afterwards = λ s. stable.order.reflexive s }

  pub connect_after-Keeps :
      (source target timeout : Text) → Keeps R (connect_after source target timeout)
  connect_after-Keeps source target timeout =
      search (send_rules, address_of-Keeps, with_route-Keeps, send_header-Keeps) depth 16

  pub send_connect-Keeps :
      (source target timeout : Text) → Keeps R (send_connect_request_header source target timeout)
  unfolding send_connect_request_header
  send_connect-Keeps source target timeout =
      search
        (
          keeps_rules,
          check_peers-Keeps,
          address_of-Keeps,
          connect-Keeps stable,
          with_route-Keeps,
          send_header-Keeps,
        )
        depth 16

  pub send_disconnect-Keeps :
      (source target : Text) → Keeps R (send_disconnect_request_header source target)
  unfolding send_disconnect_request_header
  send_disconnect-Keeps source target =
      search (send_rules, check_peers-Keeps, address_of-Keeps, with_route-Keeps, send_header-Keeps)
        depth 16

  unheard-Keeps : Keeps R (modify (λ s. record s { received_own_registration_message = false }))
  unheard-Keeps = Keeps-modify _ (λ s. stable.hears s false)

  registration_round-Keeps :
      (subscribe : Bool) (peer_id : Text) → Keeps R (registration_round subscribe peer_id)
  unfolding registration_round
  registration_round-Keeps subscribe peer_id = search (send_rules, wait_for-Keeps) depth 10

  pub send_registration-Keeps :
      (subscribe : Bool) (peer_id : Text) → Keeps R (send_registration_message subscribe peer_id)
  unfolding send_registration_message
  send_registration-Keeps subscribe peer_id =
      search
        (
          keeps_rules,
          join-Keeps stable,
          leave-Keeps stable,
          unheard-Keeps,
          attempts-Keeps,
          registration_round-Keeps,
        )
        depth 16
