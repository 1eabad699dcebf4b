-- ===== src/Protocol/Receive/Emission.antt =====
-- What a node sends when it processes a line.
use lora_multihop.Prelude.{
  ℕ, Text, Bool, true, List, [], ◌∷◌, ◌++◌, ℤ, pos, ltb_ℤ, some, Result, ok, raised, ◌≡◌, refl,
  append-nil, sym,
}
use lora_multihop.Header.{
  Body, route_request, route_reply, message, route_error, message_acknowledge, registration,
  connect_request, disconnect_request, Header,
}
use lora_multihop.Header.Parse.{create_header_obj_from_raw_message, get_received_from_value}
use lora_multihop.Node.{Node, Command}
use lora_multihop.Node.Action.{modify, lift, ◌>>=◌}
use lora_multihop.Protocol.Transmit.{delete_from_ack_list}
use lora_multihop.Protocol.Emission.{
  Emission, silent, Emits, Quiet, Quiet-modify, Emits-me, Emits-mono, Emits-when, Emits-bind,
  Emits-except, Quiet-pure, Quiet-update, emission_rules,
}
use lora_multihop.Protocol.Receive.{
  send_route_reply, process_route_request, process_message_header, process_route_reply_header,
  process_route_error_header, process_ack_header, process_registration_header,
  process_connect_request_header, process_disconnect_request_header, process_header,
  process_accepted, process_incoming, note_unsupported,
}
use lora_multihop.Protocol.Receive.Replies.{
  Requests, MaySend, onward, reply, acknowledge, requests, tells, request_on, reply_on, message_on,
  error_on, acknowledge_on, registration_on, connect_on, disconnect_on,
}

ruleset send_rules = (
  emission_rules, onward, requests, tells, reply, acknowledge, request_on, reply_on, message_on,
  error_on, acknowledge_on, registration_on, connect_on, disconnect_on,
)

received-Quiet :
    (bytes : List ℕ)
    → Quiet (
        modify
          (λ s. record s { received_messages_queue = s.received_messages_queue ++ bytes ∷ [] }))
received-Quiet bytes = Quiet-modify _ (λ s. (refl, refl))

delete_ack-Quiet : (id : Text) → Quiet (delete_from_ack_list id)
unfolding delete_from_ack_list
delete_ack-Quiet id = Quiet-modify _ (λ s. (refl, refl))

own_registration-Quiet : Quiet (modify (λ s. record s { received_own_registration_message = true }))
own_registration-Quiet = Quiet-modify _ (λ s. (refl, refl))

connect-Quiet :
    (node text : Text)
    → Quiet (
        modify (λ s. record s {
          connected_node = some node;
          sending_queue = s.sending_queue ++ text ∷ [];
        }))
connect-Quiet node text = Quiet-modify _ (λ s. (refl, refl))

module _ (me : Text) (h : Header) where
  send_route_reply-Emits :
      (body : Body)
      → Requests body
      → Emits me (MaySend me h body) (send_route_reply h.received_from h.source)
  unfolding send_route_reply
  send_route_reply-Emits body asked = Emits-me _ (search send_rules)

  process_route_request-Emits :
      (hops : ℤ) (end_node : Text)
      → Emits me
          (MaySend me h (route_request hops end_node))
          (process_route_request h hops end_node)
  unfolding process_route_request
  process_route_request-Emits hops end_node =
      Emits-me _ (search (send_rules, send_route_reply-Emits) depth 12)

  process_message-Emits :
      (destination next_node : Text) (id : ℤ) (payload : Text)
      → Emits me
          (MaySend me h (message destination next_node id payload))
          (process_message_header h destination next_node id payload)
  unfolding process_message_header
  process_message-Emits destination next_node id payload =
      Emits-me _ (search (send_rules, received-Quiet) depth 12)

  process_route_reply-Emits :
      (hops : ℤ) (end_node next_node : Text)
      → Emits me
          (MaySend me h (route_reply hops end_node next_node))
          (process_route_reply_header h hops end_node next_node)
  unfolding process_route_reply_header
  process_route_reply-Emits hops end_node next_node = Emits-me _ (search send_rules depth 12)

  process_route_error-Emits :
      (broken_node : Text)
      → Emits me (MaySend me h (route_error broken_node)) (process_route_error_header h broken_node)
  unfolding process_route_error_header
  process_route_error-Emits broken_node = search send_rules depth 12

  process_ack-Emits :
      (destination id : Text)
      → Emits me
          (MaySend me h (message_acknowledge destination id))
          (process_ack_header h destination id)
  unfolding process_ack_header
  process_ack-Emits destination id = Emits-me _ (search (send_rules, delete_ack-Quiet) depth 12)

  process_registration-Emits :
      (subscribe : Bool) (peer_id : Text)
      → Emits me
          (MaySend me h (registration subscribe peer_id))
          (process_registration_header h subscribe peer_id)
  unfolding process_registration_header
  process_registration-Emits subscribe peer_id =
      Emits-me _ (search (send_rules, own_registration-Quiet) depth 12)

  process_connect-Emits :
      (end_node next_node source target timeout : Text)
      → Emits me
          (MaySend me h (connect_request end_node next_node source target timeout))
          (process_connect_request_header h end_node next_node source target timeout)
  unfolding process_connect_request_header
  process_connect-Emits end_node next_node source target timeout =
      Emits-me _ (search (send_rules, connect-Quiet) depth 12)

  process_disconnect-Emits :
      (end_node next_node source target : Text)
      → Emits me
          (MaySend me h (disconnect_request end_node next_node source target))
          (process_disconnect_request_header h end_node next_node source target)
  unfolding process_disconnect_request_header
  process_disconnect-Emits end_node next_node source target =
      Emits-me _ (search (send_rules, connect-Quiet) depth 12)

  process_header-Emits : (body : Body) → Emits me (MaySend me h body) (process_header h body)
  unfolding process_header
  process_header-Emits (route_request hops end_node) = process_route_request-Emits hops end_node
  process_header-Emits (message destination next_node id payload) =
      process_message-Emits destination next_node id payload
  process_header-Emits (route_reply hops end_node next_node) =
      process_route_reply-Emits hops end_node next_node
  process_header-Emits (route_error broken_node) = process_route_error-Emits broken_node
  process_header-Emits (message_acknowledge destination id) = process_ack-Emits destination id
  process_header-Emits (registration subscribe peer_id) =
      process_registration-Emits subscribe peer_id
  process_header-Emits (connect_request end_node next_node source target timeout) =
      process_connect-Emits end_node next_node source target timeout
  process_header-Emits (disconnect_request end_node next_node source target) =
      process_disconnect-Emits end_node next_node source target

-- What may be sent on a line: nothing if it is no valid header or its ttl is spent.
abbrev pub Allowed : Text → Result Header → Text → Type 0
Allowed me (ok h) text = (ltb_ℤ (pos 1) h.ttl ≡ true) × MaySend me h h.body text
Allowed me (raised e) text = ⊥

accepted-Emits : (me : Text) (h : Header) → Emits me (Allowed me (ok h)) (process_accepted h)
unfolding process_accepted
accepted-Emits me h = Emits-when (ltb_ℤ (pos 1) h.ttl) _ (λ alive.
    Emits-mono (MaySend me h h.body) (Allowed me (ok h)) _ (λ text may. (alive, may))
      (Emits-bind _ _ (Quiet-update _) (λ _. process_header-Emits me h h.body)))

parsed-Emits :
    (me : Text) (r : Result Header) → Emits me (Allowed me r) (lift r >>= process_accepted)
unfolding ◌>>=◌
parsed-Emits me (ok h) = record { at = λ s own. (accepted-Emits me h).at s own }
parsed-Emits me (raised e) = record { at = λ s own. ([], silent, sym (append-nil s.writing_q)) }

note_unsupported-Quiet : (r : Result Text) → Quiet (note_unsupported r)
note_unsupported-Quiet (ok address) = Quiet-update _
note_unsupported-Quiet (raised e) = Quiet-pure tt

-- For every line, whatever the modem answers, the node hands the modem the commands of at most one
-- header. It sends nothing on a line that is no valid header or whose ttl is below two. Else it sends
-- the header onward, with its source and its ttl less one and no change but in the hops and the next
-- node, or an answer of its own with a ttl of 5: to the source of a route request a route reply, or to
-- the source of a message an acknowledgement.
pub process_incoming-Emits :
    (raw : Text) (s : Node)
    → (commands : List Command) × Emission
        (Allowed s.my_address (create_header_obj_from_raw_message raw))
        commands
      × ((process_incoming raw s).1.writing_q ≡ s.writing_q ++ commands)
unfolding process_incoming
process_incoming-Emits raw s =
    (Emits-except _ _ (parsed-Emits s.my_address (create_header_obj_from_raw_message raw))
        (note_unsupported-Quiet (get_received_from_value raw))).at
      s refl
