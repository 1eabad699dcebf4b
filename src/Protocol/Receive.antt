-- ===== src/Protocol/Receive.antt =====
-- src/lora_multihop/protocol.py: what the receiving thread does with a line of the LoRa module.
pub mod Stable
pub mod Handled
pub mod Orderly
pub mod Invariant
pub mod Replies
pub mod Emission
use lora_multihop.Prelude.{
  Text, text_eq, if◌then◌else◌, Bool, true, false, not, ◌&&◌, List, [], ◌∷◌, ◌++◌, Option, none,
  some, ℤ, pos, ◌+ℤ◌, ◌-ℤ◌, ltb_ℤ, Result, ok, raised, key_error,
}
use lora_multihop.Variables.{default_ttl, ttl_start_value}
use lora_multihop.Python.Number.{str_ℤ}
use lora_multihop.Python.Base64.{b64decode}
use lora_multihop.Header.{
  Body, route_request, route_reply, message, route_error, message_acknowledge, registration,
  connect_request, disconnect_request, Header, get_header_str,
}
use lora_multihop.Header.Parse.{create_header_obj_from_raw_message, get_received_from_value}
use lora_multihop.RoutingTable.{
  Route, contains, add_routing_table_entry, add_neighbor_to_routing_table,
  add_neighbor_with_unsupported_protocol, get_list_of_all_available_destinations,
  delete_all_entries_of_destination, add_peer, delete_peer, add_address_to_processed_requests_list,
  add_address_to_processed_registration_messages_list, check_route_request_already_processed,
  check_message_already_received,
}
use lora_multihop.Ipc.Message.{create_connect_request_message, create_disconnect_request_message}
use lora_multihop.Node.{Node}
use lora_multihop.Node.Action.{
  Action, pure, lift, gets, modify, when, is_none, along, update_table, best_route,
  except_value_error, ◌>>=◌, ◌>>◌,
}
use lora_multihop.Protocol.Transmit.{send_header, delete_from_ack_list}

-- A received header with another body, one hop further.
abbrev pub forwarded : Header → Body → Text
forwarded h body = get_header_str (record { source = h.source; ttl = h.ttl -ℤ pos 1; body = body })

unfoldable pub send_route_reply : Text → Text → Action (Unit {0})
send_route_reply next_node end_node = do
  me ← gets (λ s. s.my_address)
  send_header (
      get_header_str (record {
        source = me;
        ttl = pos default_ttl;
        body = route_reply (pos 0) end_node next_node;
      }))

unfoldable pub process_route_request : Header → ℤ → Text → Action (Unit {0})
process_route_request h hops end_node = do
  me ← gets (λ s. s.my_address)
  if text_eq h.source me
      then pure tt
      else if text_eq end_node me
      then (do
        update_table (add_routing_table_entry h.source h.received_from (hops +ℤ pos 1))
        send_route_reply h.received_from h.source)
      else (do
        route ← best_route h.source
        when (is_none route) (update_table (add_routing_table_entry h.source h.received_from hops))
        now ← gets (λ s. s.now)
        processed ← gets (λ s. check_route_request_already_processed now end_node s.routing_table)
        when (not processed) (do
          update_table (add_address_to_processed_requests_list now end_node)
          send_header (forwarded h (route_request (hops +ℤ pos 1) end_node))))

-- `node == self.connected_node`
abbrev pub is_connected : Text → Option Text → Bool
is_connected node none = false
is_connected node (some connected) = text_eq node connected

unfoldable pub process_message_header : Header → Text → Text → ℤ → Text → Action (Unit {0})
process_message_header h destination next_node message_id payload = do
  me ← gets (λ s. s.my_address)
  connected ← gets (λ s. s.connected_node)
  if text_eq destination me && is_connected h.source connected
      then (do
        let ack_header_str = get_header_str (record {
          source = me;
          ttl = pos ttl_start_value;
          body = message_acknowledge h.source (str_ℤ message_id);
        })
        received ← gets (λ s. check_message_already_received h.source message_id s.routing_table)
        if received then send_header ack_header_str else (do
          bytes ← lift (b64decode payload)
          modify
              (λ s. record s { received_messages_queue = s.received_messages_queue ++ bytes ∷ [] })
          send_header ack_header_str))
      else when (text_eq next_node me && not (text_eq destination me)) (do
        route ← best_route destination
        along route
            (λ next. send_header (forwarded h (message destination next message_id payload))))

-- `route['next_node']`
abbrev pub next_of : Option Route → Result Text
next_of none = raised key_error
next_of (some route) = ok route.next_node

unfoldable pub process_route_reply_header : Header → ℤ → Text → Text → Action (Unit {0})
process_route_reply_header h hops end_node next_node = do
  me ← gets (λ s. s.my_address)
  if text_eq h.source me
      then pure tt
      else if text_eq end_node me
      then update_table (add_routing_table_entry h.source h.received_from (hops +ℤ pos 1))
      else when (text_eq next_node me) (do
        known ← best_route h.source
        when (not (is_none known)) (do
          update_table (add_routing_table_entry h.source h.received_from (hops +ℤ pos 1))
          route ← best_route end_node
          next ← lift (next_of route)
          send_header (forwarded h (route_reply (hops +ℤ pos 1) end_node next))))

unfoldable pub process_route_error_header : Header → Text → Action (Unit {0})
process_route_error_header h broken_node = do
  destinations ← gets (λ s. get_list_of_all_available_destinations s.routing_table)
  when (contains broken_node destinations)
      (update_table (delete_all_entries_of_destination broken_node))
  send_header (forwarded h (route_error broken_node))

unfoldable pub process_ack_header : Header → Text → Text → Action (Unit {0})
process_ack_header h destination message_id = do
  me ← gets (λ s. s.my_address)
  when (text_eq destination me) (delete_from_ack_list message_id)
  when (not (text_eq destination me))
      (send_header (forwarded h (message_acknowledge destination message_id)))

unfoldable pub process_registration_header : Header → Bool → Text → Action (Unit {0})
process_registration_header h subscribe peer_id = do
  me ← gets (λ s. s.my_address)
  if not (text_eq h.source me)
      then (do
        now ← gets (λ s. s.now)
        update_table (add_address_to_processed_registration_messages_list now h.source)
        if subscribe
            then update_table (add_peer peer_id h.source)
            else update_table (delete_peer peer_id h.source)
        send_header (forwarded h (registration subscribe peer_id)))
      else modify (λ s. record s { received_own_registration_message = true })

unfoldable pub process_connect_request_header :
    Header → Text → Text → Text → Text → Text → Action (Unit {0})
process_connect_request_header h end_node next_node source_peer_id target_peer_id timeout = do
  me ← gets (λ s. s.my_address)
  when (not (text_eq h.received_from me)) (
      if text_eq end_node me
      then modify (λ s. record s {
        connected_node = some h.source;
        sending_queue =
            s.sending_queue
            ++ create_connect_request_message source_peer_id target_peer_id timeout ∷ [];
      })
      else when (text_eq next_node me) (do
        route ← best_route end_node
        along route (λ next.
            send_header
              (forwarded h (connect_request end_node next source_peer_id target_peer_id timeout)))))

unfoldable pub process_disconnect_request_header :
    Header → Text → Text → Text → Text → Action (Unit {0})
process_disconnect_request_header h end_node next_node source_peer_id target_peer_id = do
  me ← gets (λ s. s.my_address)
  when (not (text_eq h.received_from me)) (
      if text_eq end_node me
      then modify (λ s. record s {
        connected_node = some h.source;
        sending_queue =
            s.sending_queue ++ create_disconnect_request_message source_peer_id target_peer_id ∷ [];
      })
      else when (text_eq next_node me) (do
        route ← best_route end_node
        along route (λ next.
            send_header
              (forwarded h (disconnect_request end_node next source_peer_id target_peer_id)))))

-- The class of a header fixes its flag, by which the source chooses.
unfoldable pub process_header : Header → Body → Action (Unit {0})
process_header h (route_request hops end_node) = process_route_request h hops end_node
process_header h (message destination next_node message_id payload) =
    process_message_header h destination next_node message_id payload
process_header h (route_reply hops end_node next_node) =
    process_route_reply_header h hops end_node next_node
process_header h (route_error broken_node) = process_route_error_header h broken_node
process_header h (message_acknowledge destination message_id) =
    process_ack_header h destination message_id
process_header h (registration subscribe peer_id) = process_registration_header h subscribe peer_id
process_header h (connect_request end_node next_node source_peer_id target_peer_id timeout) =
    process_connect_request_header h end_node next_node source_peer_id target_peer_id timeout
process_header h (disconnect_request end_node next_node source_peer_id target_peer_id) =
    process_disconnect_request_header h end_node next_node source_peer_id target_peer_id

unfoldable pub process_accepted : Header → Action (Unit {0})
process_accepted h =
    when (ltb_ℤ (pos 1) h.ttl)
      (do update_table (add_neighbor_to_routing_table h.received_from); process_header h h.body)

abbrev pub note_unsupported : Result Text → Action (Unit {0})
note_unsupported (ok addr) = update_table (add_neighbor_with_unsupported_protocol addr)
note_unsupported (raised _) = pure tt

-- One round of `process_incoming_message`. `get_received_from_value` raises `ValueError` alone.
unfoldable pub process_incoming : Text → Action (Unit {0})
process_incoming raw_message =
    except_value_error
      (do h ← lift (create_header_obj_from_raw_message raw_message); process_accepted h)
      (note_unsupported (get_received_from_value raw_message))

-- The loop over the lines that have arrived: an exception that is not caught ends the thread.
abbrev pub survived : Result (Unit {0}) → Node → Node
survived (ok _) s = s
survived (raised _) s = record s { receiving = false }

unfoldable pub process_line : Text → Node → Node
process_line raw_message s = let (r, s') = process_incoming raw_message s in survived r s'

-- Once the thread has ended, no line is processed any more.
unfoldable pub process_incoming_message : List Text → Node → Node
process_incoming_message [] s = s
process_incoming_message (raw_message ∷ rest) s =
    process_incoming_message rest (if s.receiving then process_line raw_message s else s)

-- The first line of `stop`: the receiving thread ends before the next line.
unfoldable pub stop_receiving : Node → Node
stop_receiving s = record s { receiving = false }
