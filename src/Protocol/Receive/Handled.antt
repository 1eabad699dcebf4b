-- ===== src/Protocol/Receive/Handled.antt =====
-- What the handlers and the receiving thread do to the node, from the laws for its single changes.
use lora_multihop.Prelude.{
  ℕ, Text, Bool, true, false, List, [], ◌∷◌, ◌++◌, ℤ, some, Result, ok, raised, if◌then◌else◌,
}
use lora_multihop.Header.{
  Body, route_request, route_reply, message, route_error, message_acknowledge, registration,
  connect_request, disconnect_request, Header,
}
use lora_multihop.Node.{Node}
use lora_multihop.Node.Action.{modify}
use lora_multihop.Node.Action.Keeps.{Keeps, Keeps-modify}
use lora_multihop.Protocol.Transmit.{delete_from_ack_list}
use lora_multihop.Protocol.Receive.{
  send_route_reply, process_route_request, process_message_header, process_route_reply_header,
  process_route_error_header, process_ack_header, process_registration_header,
  process_connect_request_header, process_disconnect_request_header, process_header,
  process_accepted, process_incoming, process_incoming_message, process_line, note_unsupported,
  survived,
}
use lora_multihop.Protocol.Receive.Stable.{IsStable, table_rules}

module _ {R : Node → Node → Type 0} (stable : IsStable R) where
  received-Keeps :
      (bytes : List ℕ)
      → Keeps R (
          modify
            (λ s. record s { received_messages_queue = s.received_messages_queue ++ bytes ∷ [] }))
  received-Keeps bytes = Keeps-modify _ (λ s. stable.receives s bytes)

  pub delete_from_ack_list-Keeps : (id : Text) → Keeps R (delete_from_ack_list id)
  unfolding delete_from_ack_list
  delete_from_ack_list-Keeps id = Keeps-modify _ (λ s. stable.acknowledges s _)

  process_route_request-Keeps :
      (h : Header) (hops : ℤ) (end_node : Text) → Keeps R (process_route_request h hops end_node)
  unfolding process_route_request send_route_reply
  process_route_request-Keeps h hops end_node = search table_rules depth 12

  process_message_header-Keeps :
      (h : Header) (destination next_node : Text) (id : ℤ) (payload : Text)
      → Keeps R (process_message_header h destination next_node id payload)
  unfolding process_message_header
  process_message_header-Keeps h destination next_node id payload =
      search (table_rules, received-Keeps) depth 12

  process_route_reply-Keeps :
      (h : Header) (hops : ℤ) (end_node next_node : Text)
      → Keeps R (process_route_reply_header h hops end_node next_node)
  unfolding process_route_reply_header
  process_route_reply-Keeps h hops end_node next_node = search table_rules depth 12

  process_route_error-Keeps :
      (h : Header) (broken_node : Text) → Keeps R (process_route_error_header h broken_node)
  unfolding process_route_error_header
  process_route_error-Keeps h broken_node = search table_rules depth 12

  process_ack-Keeps :
      (h : Header) (destination id : Text) → Keeps R (process_ack_header h destination id)
  unfolding process_ack_header
  process_ack-Keeps h destination id = search (table_rules, delete_from_ack_list-Keeps) depth 12

  own_registration-Keeps :
      Keeps R (modify (λ s. record s { received_own_registration_message = true }))
  own_registration-Keeps = Keeps-modify _ (λ s. stable.hears s true)

  process_registration-Keeps :
      (h : Header) (subscribe : Bool) (peer_id : Text)
      → Keeps R (process_registration_header h subscribe peer_id)
  unfolding process_registration_header
  process_registration-Keeps h subscribe peer_id =
      search (table_rules, own_registration-Keeps) depth 12

  connected-Keeps :
      (node text : Text)
      → Keeps R (
          modify (λ s. record s {
            connected_node = some node;
            sending_queue = s.sending_queue ++ text ∷ [];
          }))
  connected-Keeps node text = Keeps-modify _ (λ s. stable.connects s node text)

  process_connected-Keeps :
      (h : Header) (end_node next_node source target timeout : Text)
      → Keeps R (process_connect_request_header h end_node next_node source target timeout)
  unfolding process_connect_request_header
  process_connected-Keeps h end_node next_node source target timeout =
      search (table_rules, connected-Keeps) depth 12

  process_disconnected-Keeps :
      (h : Header) (end_node next_node source target : Text)
      → Keeps R (process_disconnect_request_header h end_node next_node source target)
  unfolding process_disconnect_request_header
  process_disconnected-Keeps h end_node next_node source target =
      search (table_rules, connected-Keeps) depth 12

  process_header-Keeps : (h : Header) (body : Body) → Keeps R (process_header h body)
  unfolding process_header
  process_header-Keeps h (route_request hops end_node) = process_route_request-Keeps h hops end_node
  process_header-Keeps h (message destination next_node id payload) =
      process_message_header-Keeps h destination next_node id payload
  process_header-Keeps h (route_reply hops end_node next_node) =
      process_route_reply-Keeps h hops end_node next_node
  process_header-Keeps h (route_error broken_node) = process_route_error-Keeps h broken_node
  process_header-Keeps h (message_acknowledge destination id) = process_ack-Keeps h destination id
  process_header-Keeps h (registration subscribe peer_id) =
      process_registration-Keeps h subscribe peer_id
  process_header-Keeps h (connect_request end_node next_node source target timeout) =
      process_connected-Keeps h end_node next_node source target timeout
  process_header-Keeps h (disconnect_request end_node next_node source target) =
      process_disconnected-Keeps h end_node next_node source target

  note_unsupported-Keeps : (r : Result Text) → Keeps R (note_unsupported r)
  note_unsupported-Keeps (ok address) = search table_rules
  note_unsupported-Keeps (raised e) = search table_rules

  process_accepted-Keeps : (h : Header) → Keeps R (process_accepted h)
  unfolding process_accepted
  process_accepted-Keeps h = search (table_rules, process_header-Keeps)

  pub process_incoming-Keeps : (raw : Text) → Keeps R (process_incoming raw)
  unfolding process_incoming
  process_incoming-Keeps raw = search (table_rules, process_accepted-Keeps, note_unsupported-Keeps)

  survived-Keeps : (r : Result (Unit {0})) (s t : Node) → R s t → R s (survived r t)
  survived-Keeps (ok a) s t h = h
  survived-Keeps (raised e) s t h = stable.order.transitive s t _ h (stable.stops t)

  process_line-Keeps : (raw : Text) (s : Node) → R s (process_line raw s)
  unfolding process_line
  process_line-Keeps raw s =
      survived-Keeps (process_incoming raw s).0 s (process_incoming raw s).1
        ((process_incoming-Keeps raw).afterwards s)

  if-Keeps : (b : Bool) (s t : Node) → R s t → R s (if b then t else s)
  if-Keeps true s t h = h
  if-Keeps false s t h = stable.order.reflexive s

  -- The receiving thread respects it, whatever lines arrive.
  pub lines-Keeps : (lines : List Text) (s : Node) → R s (process_incoming_message lines s)
  unfolding process_incoming_message
  lines-Keeps [] s = stable.order.reflexive s
  lines-Keeps (raw ∷ rest) s =
      stable.order.transitive s _ _
        (if-Keeps s.receiving s (process_line raw s) (process_line-Keeps raw s))
        (lines-Keeps rest _)
