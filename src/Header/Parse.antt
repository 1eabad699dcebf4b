-- ===== src/Header/Parse.antt =====
-- src/lora_multihop/header.py: from a line of the LoRa module to a header. Every `IndexError` of the
-- body is turned into a `ValueError`.
use lora_multihop.Prelude.{
  ◌-◌, Text, codes, text_eq, ◌==◌, if◌then◌else◌, Bool, true, false, not, ◌||◌, List, [], ◌∷◌, ℤ,
  pos, eq_ℤ, Result, ok, raised, value_error, index_error, key_error, queue_empty, type_error,
  attribute_error, socket_timeout, broken_pipe_error, connection_reset_error, check, at, length,
  any,
}
use lora_multihop.Prelude.Bind.{◌>>=◌, ◌>>◌}
use lora_multihop.Variables.{available_nodes, header_delimiter, lora_module_delimiter}
use lora_multihop.Python.Split.{slice, rest_of, split, split_max}
use lora_multihop.Python.Number.{int}
use lora_multihop.Header.{
  Body, route_request, route_reply, message, route_error, message_acknowledge, registration,
  connect_request, disconnect_request, Header,
}

-- Only a text of another length is converted, and the number is thrown away.
unfoldable pub check_int_field : Text → Result (Unit {0})
check_int_field s = if length s == 1 then ok tt else (do _ ← int s; ok tt)

unfoldable pub check_addr_field : Text → Result (Unit {0})
check_addr_field addr = check (length addr == 4) value_error

-- `node in variables.AVAILABLE_NODES`
unfoldable pub is_available : Text → Bool
is_available node = any (text_eq node) available_nodes

-- `del xs[len(xs) - 1]`; on an empty list the index is -1, which is out of range too
abbrev pub del_last {ℓ} : {A : Type ℓ} → List A → Result (List A)
del_last [] = raised index_error
del_last (x ∷ []) = ok []
del_last (x ∷ y ∷ xs) = do front ← del_last (y ∷ xs); ok (x ∷ front)

-- `except IndexError: raise ValueError`
abbrev pub index_to_value {ℓ} : {A : Type ℓ} → Result A → Result A
index_to_value (ok a) = ok a
index_to_value (raised index_error) = raised value_error
index_to_value (raised value_error) = raised value_error
index_to_value (raised key_error) = raised key_error
index_to_value (raised queue_empty) = raised queue_empty
index_to_value (raised type_error) = raised type_error
index_to_value (raised attribute_error) = raised attribute_error
index_to_value (raised socket_timeout) = raised socket_timeout
index_to_value (raised broken_pipe_error) = raised broken_pipe_error
index_to_value (raised connection_reset_error) = raised connection_reset_error

-- `MessageHeader(...)` from fixed positions of the text
unfoldable pub create_message_header_obj : Text → Text → Result Header
create_message_header_obj received_from s = do
  check (not (length (slice 20 (length s - 1) s) == 0)) value_error
  ttl ← int (slice 8 9 s)
  message_id ← int (slice 20 26 s)
  ok (record {
    received_from = received_from;
    packet = record {
      source = slice 1 5 s;
      ttl = ttl;
      body = message (slice 10 14 s) (slice 15 19 s) message_id (slice 27 (length s - 1) s);
    };
  })

-- The fields behind source, flag and ttl, by the flag.
unfoldable pub message_fields : Text → Text → Text → ℤ → ℤ → List Text → Result Header
message_fields received_from header_str source flag ttl fields = do
  destination ← at fields 3
  check (is_available destination) value_error
  if eq_ℤ flag (pos 2)
      then (do
        message_id ← at fields 4
        ok (record {
          received_from = received_from;
          packet = record {
            source = source;
            ttl = ttl;
            body = message_acknowledge destination message_id;
          };
        }))
      else create_message_header_obj received_from header_str

unfoldable pub route_fields : ℤ → List Text → Result Body
route_fields flag fields = do
  hops_str ← at fields 3
  check_int_field hops_str
  end_node ← at fields 4
  check_addr_field end_node
  if eq_ℤ flag (pos 3)
      then (do
        check (length fields == 5) value_error
        hops ← int hops_str
        ok (route_request hops end_node))
      else (do
        next_node ← at fields 5
        check_addr_field next_node
        hops ← int hops_str
        ok (route_reply hops end_node next_node))

unfoldable pub route_error_fields : List Text → Result Body
route_error_fields fields = do
  broken_node ← at fields 3
  check_addr_field broken_node
  ok (route_error broken_node)

abbrev pub read_subscribe : Text → Result Bool
read_subscribe s =
    if text_eq s (codes "true")
    then ok true
    else if text_eq s (codes "false")
    then ok false
    else raised value_error

unfoldable pub registration_fields : List Text → Result Body
registration_fields fields = do
  subscribe_field ← at fields 3
  subscribe ← read_subscribe subscribe_field
  peer_id ← at fields 4
  check (not (length peer_id == 0)) value_error
  ok (registration subscribe peer_id)

unfoldable pub connect_fields : List Text → Result Body
connect_fields fields = do
  end_node ← at fields 3
  check_addr_field end_node
  next_node ← at fields 4
  check_addr_field next_node
  source_peer_id ← at fields 5
  target_peer_id ← at fields 6
  timeout ← at fields 7
  ok (connect_request end_node next_node source_peer_id target_peer_id timeout)

unfoldable pub disconnect_fields : List Text → Result Body
disconnect_fields fields = do
  end_node ← at fields 3
  check_addr_field end_node
  next_node ← at fields 4
  check_addr_field next_node
  source_peer_id ← at fields 5
  target_peer_id ← at fields 6
  ok (disconnect_request end_node next_node source_peer_id target_peer_id)

unfoldable pub body_fields : ℤ → List Text → Result Body
body_fields flag fields =
    if eq_ℤ flag (pos 3) || eq_ℤ flag (pos 4)
    then route_fields flag fields
    else if eq_ℤ flag (pos 5)
    then route_error_fields fields
    else if eq_ℤ flag (pos 6)
    then registration_fields fields
    else if eq_ℤ flag (pos 7)
    then connect_fields fields
    else if eq_ℤ flag (pos 8)
    then disconnect_fields fields
    else raised value_error

-- The header text and its values without the empty ones at the two ends.
unfoldable pub read_header : Text → Text → List Text → Result Header
read_header received_from header_str fields = do
  source ← at fields 0
  check_addr_field source
  flag_str ← at fields 1
  check_int_field flag_str
  flag ← int flag_str
  ttl_str ← at fields 2
  check_int_field ttl_str
  ttl ← int ttl_str
  if eq_ℤ flag (pos 1) || eq_ℤ flag (pos 2)
      then message_fields received_from header_str source flag ttl fields
      else (do
        body ← body_fields flag fields
        ok (record {
          received_from = received_from;
          packet = record { source = source; ttl = ttl; body = body };
        }))

unfoldable pub create_header_obj_from_raw_message : Text → Result Header
create_header_obj_from_raw_message raw_message = index_to_value (do
  let raw_message_as_list = split_max lora_module_delimiter 3 raw_message
  received_from ← at raw_message_as_list 1
  check_addr_field received_from
  header_str ← at raw_message_as_list 3
  header_as_list ← del_last (rest_of (split header_delimiter header_str))
  read_header received_from header_str header_as_list)

unfoldable pub get_received_from_value : Text → Result Text
get_received_from_value raw_message = index_to_value (do
  received_from ← at (split lora_module_delimiter raw_message) 1
  check_addr_field received_from
  ok received_from)

unfoldable pub get_flag_from_raw_message : Text → Result ℤ
get_flag_from_raw_message raw_message =
    index_to_value (do header_str ← at (split b',' raw_message) 3; int (slice 4 5 header_str))
