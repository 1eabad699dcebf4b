-- ===== src/Protocol/Send.antt =====
-- src/lora_multihop/protocol.py: what the node sends on its own. A sleep of half a second lets the
-- receiving thread process the lines that arrive meanwhile; the two threads take turns at sleeps alone.
pub mod Stable
use lora_multihop.Prelude.{
  ℕ, zero, suc, ◌+◌, Text, text_eq, ltb, if◌then◌else◌, Bool, true, false, not, List, [], ◌∷◌,
  Option, none, some, ℤ, pos, eq_ℤ, Result, ok, raised, value_error, any, or_raise,
}
use lora_multihop.Variables.{default_ttl}
use lora_multihop.Python.Number.{str_ℤ}
use lora_multihop.Python.Base64.{b64encode}
use lora_multihop.Header.{
  route_request, message, route_error, registration, connect_request, disconnect_request,
  get_header_str,
}
use lora_multihop.RoutingTable.{
  delete_all_entries_of_destination, add_peer, delete_peer, check_peer_is_already_registered,
  get_address_of_peer, check_connect_request_entry_already_exists, add_connect_request,
}
use lora_multihop.Node.{Node}
use lora_multihop.Node.Action.{
  Action, pure, lift, gets, modify, when, is_none, update_table, best_route, ◌>>=◌, ◌>>◌,
}
use lora_multihop.Protocol.Transmit.{
  send_header, delete_from_ack_list, add_message_to_waiting_acknowledgement_list,
}
use lora_multihop.Protocol.Receive.{process_incoming_message, next_of}

abbrev pub next_arrivals : List (List Text) → Node → Node
next_arrivals [] s = s
next_arrivals (lines ∷ later) s = process_incoming_message lines (record s { arrivals = later })

-- `time.sleep(0.5)`
unfoldable pub sleep_half : Action (Unit {0})
sleep_half s = (ok tt, next_arrivals s.arrivals (record s { now = s.now + 500000 }))

-- The loop that looks up to `tries` times whether the answer is there, and sleeps in between.
unfoldable pub wait_for : (Node → Bool) → ℕ → Action Bool
wait_for answered zero = pure false
wait_for answered (suc tries) = do
  done ← gets answered
  if done then pure true else (do sleep_half; wait_for answered tries)

-- `while attempt < 3 and not message_confirmed` with a round of its own; the fuel bounds the rounds,
-- and `step` is what an attempt without an answer adds to the count.
unfoldable pub attempts : ℕ → ℕ → ℕ → Action Bool → Action Bool
attempts zero step attempt round = pure false
attempts (suc fuel) step attempt round =
    if ltb attempt 3
    then (do
      confirmed ← round
      if confirmed then pure true else attempts fuel step (attempt + step) round)
    else pure false

-- `len(self.routing_table.get_best_route_for_destination(end_node)) != 0`, looked up by an action,
-- since the call may raise
unfoldable pub wait_for_route : Text → ℕ → Action Bool
wait_for_route end_node zero = pure false
wait_for_route end_node (suc tries) = do
  route ← best_route end_node
  if not (is_none route) then pure true else (do sleep_half; wait_for_route end_node tries)

unfoldable pub request_round : Text → Action Bool
request_round end_node = do
  me ← gets (λ s. s.my_address)
  send_header (
      get_header_str
        (record { source = me; ttl = pos default_ttl; body = route_request (pos 0) end_node }))
  wait_for_route end_node 10

-- A round without a route counts twice: `attempt += 1` stands both behind the inner loop and in the
-- last branch.
unfoldable pub send_route_request_message : Text → Action Bool
send_route_request_message end_node = attempts 4 2 0 (request_round end_node)

-- Goes on with the next node of a route, which is asked of the network if there is none; nothing is
-- done if the network does not answer.
unfoldable pub with_route : Text → (Text → Action (Unit {0})) → Action (Unit {0})
with_route destination forward = do
  route ← best_route destination
  if is_none route
      then (do
        found ← send_route_request_message destination
        when found (do
          answered ← best_route destination
          next_node ← lift (next_of answered)
          forward next_node))
      else (do next_node ← lift (next_of route); forward next_node)

unfoldable pub message_round : Text → ℤ → Action Bool
message_round header_str message_id = do
  send_header header_str
  wait_for (λ s. not (any (eq_ℤ message_id) s.messages_acknowledgment)) 10

unfoldable pub give_up : Text → ℤ → Action (Unit {0})
give_up destination message_id = do
  update_table (delete_all_entries_of_destination destination)
  delete_from_ack_list (str_ℤ message_id)
  me ← gets (λ s. s.my_address)
  send_header (
      get_header_str
        (record { source = me; ttl = pos default_ttl; body = route_error destination }))

unfoldable pub send_along : Text → List ℕ → Text → Action (Unit {0})
send_along destination payload next_node = do
  modify (λ s. record s { message_counter = s.message_counter + 1 })
  me ← gets (λ s. s.my_address)
  count ← gets (λ s. s.message_counter)
  let header_str = get_header_str (record {
    source = me;
    ttl = pos default_ttl;
    body = message destination next_node (pos count) (b64encode payload);
  })
  add_message_to_waiting_acknowledgement_list (pos count)
  confirmed ← attempts 4 1 0 (message_round header_str (pos count))
  when (not confirmed) (give_up destination (pos count))

-- `send_message` of bytes to the connected node, if there is one
abbrev pub send_to : Option Text → List ℕ → Action (Unit {0})
send_to none payload = pure tt
send_to (some destination) payload = with_route destination (send_along destination payload)

unfoldable pub send_message : List ℕ → Action (Unit {0})
send_message payload = do connected ← gets (λ s. s.connected_node); send_to connected payload

-- `address == variables.MY_ADDRESS`
abbrev pub is_own : Text → Option Text → Bool
is_own me none = false
is_own me (some address) = text_eq address me

-- the first check that fails raises
abbrev pub peers_checked : Text → Text → Node → Result (Unit {0})
peers_checked source_peer_id target_peer_id s =
    if not (check_peer_is_already_registered source_peer_id s.routing_table)
    then raised value_error
    else if not (check_peer_is_already_registered target_peer_id s.routing_table)
    then raised value_error
    else if is_own s.my_address (get_address_of_peer source_peer_id s.routing_table)
    then ok tt
    else raised value_error

unfoldable pub check_peers : Text → Text → Action (Unit {0})
check_peers source_peer_id target_peer_id s = (peers_checked source_peer_id target_peer_id s, s)

-- The address of a peer; for `None` the search for a route raises.
unfoldable pub address_of : Text → Action Text
address_of peer_id s = (or_raise (get_address_of_peer peer_id s.routing_table) value_error, s)

unfoldable pub send_connect_request_header : Text → Text → Text → Action (Unit {0})
send_connect_request_header source_peer_id target_peer_id timeout_in_sec = do
  check_peers source_peer_id target_peer_id
  now ← gets (λ s. s.now)
  exists ← gets (λ s.
      check_connect_request_entry_already_exists now source_peer_id target_peer_id s.routing_table)
  when (not exists) (do
    update_table (add_connect_request now source_peer_id target_peer_id)
    end_node ← address_of target_peer_id
    me ← gets (λ s. s.my_address)
    with_route end_node (λ next_node. send_header (
        get_header_str (record {
          source = me;
          ttl = pos default_ttl;
          body = connect_request end_node next_node source_peer_id target_peer_id timeout_in_sec;
        }))))

unfoldable pub send_disconnect_request_header : Text → Text → Action (Unit {0})
send_disconnect_request_header source_peer_id target_peer_id = do
  check_peers source_peer_id target_peer_id
  end_node ← address_of target_peer_id
  me ← gets (λ s. s.my_address)
  with_route end_node (λ next_node. send_header (
      get_header_str (record {
        source = me;
        ttl = pos default_ttl;
        body = disconnect_request end_node next_node source_peer_id target_peer_id;
      })))

unfoldable pub registration_round : Bool → Text → Action Bool
registration_round subscribe peer_id = do
  me ← gets (λ s. s.my_address)
  send_header (
      get_header_str
        (record { source = me; ttl = pos default_ttl; body = registration subscribe peer_id }))
  wait_for (λ s. s.received_own_registration_message) 5

unfoldable pub send_registration_message : Bool → Text → Action (Unit {0})
send_registration_message subscribe peer_id = do
  me ← gets (λ s. s.my_address)
  if subscribe then update_table (add_peer peer_id me) else update_table (delete_peer peer_id me)
  modify (λ s. record s { received_own_registration_message = false })
  heard ← attempts 4 1 0 (registration_round subscribe peer_id)
  pure tt
