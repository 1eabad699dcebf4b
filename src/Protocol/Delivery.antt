-- ===== src/Protocol/Delivery.antt =====
-- A message that reaches its destination, and the acknowledgement that comes back.
use lora_multihop.Prelude.{
  ℕ, ◌<◌, Text, text_eq_refl, Bool, true, false, List, [], ◌∷◌, ◌++◌, ℤ, pos, ltb_ℤ, some, Result,
  ok, ◌≡◌, refl, arith, ◌∙◌, All, ap, any,
}
use lora_multihop.Variables.{header_delimiter}
use lora_multihop.Python.Split.{Lacks}
use lora_multihop.Python.Number.{str_ℤ}
use lora_multihop.Python.Number.RoundTrip.{int-str_ℤ}
use lora_multihop.Python.Base64.{
  b64encode, b64decode, IsByte, IsSkipped, b64decode-b64encode, value,
}
use lora_multihop.Header.{message, message_acknowledge, Packet, Header, get_header_str}
use lora_multihop.Header.Parse.{create_header_obj_from_raw_message, get_received_from_value}
use lora_multihop.Header.Sendable.{IsSendable, line, front}
use lora_multihop.Header.RoundTrip.{IsFrame, parse-print_tail}
use lora_multihop.RoutingTable.{
  RoutingTable, add_neighbor_to_routing_table, add_routing_table_entry,
  check_message_already_received,
}
use lora_multihop.Node.{Node}
use lora_multihop.Node.Action.{Action, update_table, except_value_error, handled, ◌>>=◌}
use lora_multihop.Protocol.Transmit.{
  send_header, put_command, get_status, delete_from_ack_list, remove_id,
}
use lora_multihop.Protocol.Receive.{
  process_incoming, process_accepted, process_header, process_message_header, process_ack_header,
  note_unsupported,
}

-- `send_header` never raises a `ValueError`.
send_no_value_error :
    (text : Text) (s : Node) (answers : List Bool) (handler : Action (Unit {0}))
    → except_value_error (send_header text) handler (record s { status_q = answers })
      ≡ send_header text (record s { status_q = answers })
unfolding except_value_error send_header ◌>>=◌ put_command get_status
send_no_value_error text s [] handler = refl
send_no_value_error text s (false ∷ later) handler = refl
send_no_value_error text s (true ∷ []) handler = refl
send_no_value_error text s (true ∷ b ∷ later) handler = refl

-- So a handler that comes down to sending a header is not left by an exception that is caught.
pub except-send :
    (m handler : Action (Unit {0})) (text : Text) (s s' : Node)
    → m s ≡ send_header text s'
    → except_value_error m handler s ≡ send_header text s'
unfolding except_value_error
except-send m handler text s s' e =
    ap (λ (r : Result (Unit {0}) × Node). handled r.0 handler r.1) e
    ∙ send_no_value_error text s' s'.status_q handler

-- A valid line whose ttl is not spent is handled on the table with the neighbour entered.
abbrev pub with_neighbor : Text → Node → Node
with_neighbor from s = record s {
  routing_table = add_neighbor_to_routing_table from s.routing_table;
}

pub incoming-accepted :
    (raw : Text) (h : Header) (s : Node)
    → create_header_obj_from_raw_message raw ≡ ok h
    → ltb_ℤ (pos 1) h.ttl ≡ true
    → process_incoming raw s
      ≡ except_value_error
          (process_header h h.body)
          (note_unsupported (get_received_from_value raw))
          (with_neighbor h.received_from s)
unfolding process_incoming except_value_error process_accepted ◌>>=◌ update_table
incoming-accepted raw h s parsed alive = rw (parsed, alive)

pub received-neighbor :
    (a : Text) (t : RoutingTable)
    → (add_neighbor_to_routing_table a t).received_messages ≡ t.received_messages
unfolding add_neighbor_to_routing_table add_routing_table_entry
received-neighbor a t = ground arith

front-append : (xs : Text) (c : ℕ) (s : Text) → front (xs ++ c ∷ s) ≡ xs ++ front (c ∷ s)
front-append [] c s = refl
front-append (x ∷ []) c s = refl
front-append (x ∷ y ∷ xs) c s = ap (◌∷◌ x) (front-append (y ∷ xs) c s)

front-All : (c : ℕ) (s : Text) → All IsSkipped (c ∷ s) → All IsSkipped (front (c ∷ s))
front-All c [] h = tt
front-All c (d ∷ s) h = (h.0, front-All d s h.1)

delimiter-IsSkipped : IsSkipped header_delimiter
unfolding value
delimiter-IsSkipped = (omega arith, refl)

-- The payload of a received line is decoded, whatever line end the module leaves behind it.
payload-decoded :
    (p : List ℕ) (tail : Text)
    → All IsByte p
    → All IsSkipped tail
    → b64decode (front (b64encode p ++ header_delimiter ∷ tail)) ≡ ok p
payload-decoded p tail bytes skipped =
    rw (front-append (b64encode p) header_delimiter tail) (
      b64decode-b64encode p _ bytes
        (front-All header_delimiter tail (delimiter-IsSkipped, skipped)))

-- An acknowledgement with this ttl, as the node sends it or as another has passed it on.
abbrev pub ack_with : Text → Text → ℕ → ℤ → Packet
ack_with me source t id = record {
  source = me;
  ttl = pos t;
  body = message_acknowledge source (str_ℤ id);
}

-- The acknowledgement that a node with this address sends for a message.
abbrev pub ack_packet : Text → Text → ℤ → Packet
ack_packet me source id = record {
  source = me;
  ttl = pos 5;
  body = message_acknowledge source (str_ℤ id);
}

abbrev pub delivered : List ℕ → Node → Node
delivered p s = record s { received_messages_queue = s.received_messages_queue ++ p ∷ [] }

none_received :
    (source : Text) (id : ℤ) (t : RoutingTable)
    → t.received_messages ≡ []
    → check_message_already_received source id t ≡ false
unfolding check_message_already_received any
none_received source id t h = rw h

handle-message :
    (h : Header) (next_node : Text) (id : ℤ) (payload : Text) (p : List ℕ) (s : Node)
    → s.connected_node ≡ some h.source
    → s.routing_table.received_messages ≡ []
    → b64decode payload ≡ ok p
    → process_message_header h s.my_address next_node id payload s
      ≡ send_header (get_header_str (ack_packet s.my_address h.source id)) (delivered p s)
unfolding process_message_header ◌>>=◌
handle-message h next_node id payload p s connected fresh decoded =
    let seen : check_message_already_received h.source id s.routing_table ≡ false =
      none_received h.source id s.routing_table fresh in
    ground (arith, text_eq_refl s.my_address, text_eq_refl h.source, connected, seen, decoded)

-- What is received of a message whose payload is encoded.
abbrev pub message_packet : Text → Text → Text → ℕ → ℕ → List ℕ → Packet
message_packet source destination next_node t id p = record {
  source = source;
  ttl = pos t;
  body = message destination next_node (pos id) (b64encode p);
}

-- The lines of the module and what the node relies on: the frame, and a line end that base64 skips.
pub record IsLine (start from size tail : Text) : Type 0 where
  pub frame : IsFrame start from size
  pub tail_lacks : Lacks header_delimiter tail
  pub tail_skipped : All IsSkipped tail

-- A message that reaches its destination over a line of the module, whatever line end is left there
-- (one that has no delimiter and that base64 skips). If the format can carry the message, its payload
-- is bytes, its ttl is above one, it comes from the connected node and no message is recorded as
-- received, its bytes are put into the queue of received messages exactly as they were sent, and its
-- acknowledgement goes to the modem, on tables that have the last hop as a neighbour. Nothing else of
-- the node changes.
pub deliver :
    (start from size tail source next_node : Text) (t id : ℕ) (p : List ℕ) (s : Node)
    → IsLine start from size tail
    → IsSendable (message_packet source s.my_address next_node t id p)
    → All IsByte p
    → 1 < t
    → s.connected_node ≡ some source
    → s.routing_table.received_messages ≡ []
    → process_incoming
        (line start from size
          (get_header_str (message_packet source s.my_address next_node t id p) ++ tail))
        s
      ≡ send_header
          (get_header_str (ack_packet s.my_address source (pos id)))
          (delivered p (with_neighbor from s))
unfolding process_header
deliver start from size tail source next_node t id p s l sendable bytes alive connected fresh =
    let arrived : Packet = record {
      source = source;
      ttl = pos t;
      body =
          message s.my_address next_node (pos id) (front (b64encode p ++ header_delimiter ∷ tail));
    } in
    let h : Header = record { received_from = from; packet = arrived } in
    incoming-accepted _ h s
      (parse-print_tail start from size tail l.frame l.tail_lacks
        (message_packet source s.my_address next_node t id p) sendable)
      (ground arith)
    ∙ except-send _ _ _ _ _ (
        handle-message h next_node (pos id) _ p (with_neighbor from s) connected
          (received-neighbor from s.routing_table ∙ fresh)
          (payload-decoded p tail bytes l.tail_skipped))

-- An acknowledgement that the format can carry, whose ttl is above one and that reaches the sender of
-- the message, whatever line end is left there (one that has no delimiter and that base64 skips),
-- removes the id from the list of messages that wait for one, enters the last hop as a neighbour, and
-- changes nothing else.
pub acknowledge :
    (start from size tail receiver : Text) (t : ℕ) (id : ℤ) (s : Node)
    → IsLine start from size tail
    → IsSendable (ack_with receiver s.my_address t id)
    → 1 < t
    → process_incoming
        (line start from size (get_header_str (ack_with receiver s.my_address t id) ++ tail))
        s
      ≡ (
        ok tt,
        record (with_neighbor from s) {
          messages_acknowledgment = remove_id id s.messages_acknowledgment;
        },
      )
unfolding process_header process_ack_header ◌>>=◌ delete_from_ack_list except_value_error
acknowledge start from size tail receiver t id s l sendable alive =
    incoming-accepted _
      (record { received_from = from; packet = ack_with receiver s.my_address t id }) s
      (parse-print_tail start from size tail l.frame l.tail_lacks
        (ack_with receiver s.my_address t id) sendable)
      (ground arith)
    ∙ rw (text_eq_refl s.my_address, int-str_ℤ id)
