-- ===== src/Header/Checks.antt =====
-- The checks of the parser in src/lora_multihop/header.py.
use lora_multihop.Prelude.{
  Text, true, List, [], ℤ, pos, ◌≡◌, ◌≢◌, refl, Result, ok, value_error, arith, length, at, check,
  eq_ℤ,
}
use lora_multihop.Prelude.Bind.{Ensures, Ensures-bind, Ensures-if, Ensures-ok}
use lora_multihop.Header.{
  Body, route_request, route_reply, message, route_error, message_acknowledge, registration,
  connect_request, disconnect_request, Header,
}
use lora_multihop.Header.Parse.{
  create_header_obj_from_raw_message, create_message_header_obj, read_header, is_available,
  index_to_value, check_addr_field, message_fields, body_fields, route_fields, route_error_fields,
  registration_fields, connect_fields, disconnect_fields,
}

-- Address fields have four characters, destinations of acknowledgements are known nodes, and a
-- registered peer has a name. The fields of a message are taken by position and are not checked.
abbrev pub IsChecked : Body → Type 0
IsChecked (route_request hops end_node) = length end_node ≡ 4
IsChecked (route_reply hops end_node next_node) = (length end_node ≡ 4) × (length next_node ≡ 4)
IsChecked (message destination next_node message_id payload) = Unit
IsChecked (route_error broken_node) = length broken_node ≡ 4
IsChecked (message_acknowledge destination message_id) = is_available destination ≡ true
IsChecked (registration subscribe peer_id) = peer_id ≢ []
IsChecked (connect_request end_node next_node _ _ _) =
    (length end_node ≡ 4) × (length next_node ≡ 4)
IsChecked (disconnect_request end_node next_node _ _) =
    (length end_node ≡ 4) × (length next_node ≡ 4)

body_fields-IsChecked :
    (flag : ℤ) (fields : List Text) (body : Body)
    → body_fields flag fields ≡ ok body
    → IsChecked body
unfolding body_fields route_fields route_error_fields registration_fields connect_fields
    disconnect_fields check_addr_field
body_fields-IsChecked flag fields (route_request hops end_node) h = ground arith
body_fields-IsChecked flag fields body h = ground arith

-- The postcondition of the parser, for the address that the module put in front.
abbrev Accepts : Text → Header → Type 0
Accepts from h = (h.received_from ≡ from) × IsChecked h.body

Accepts-message :
    (from source destination next_node payload : Text) (ttl id : ℤ)
    → Accepts from (record {
      received_from = from;
      packet = record {
        source = source;
        ttl = ttl;
        body = message destination next_node id payload;
      };
    })
Accepts-message from source destination next_node payload ttl id = (refl, tt)

create_message-Accepts :
    (from text : Text) → Ensures (Accepts from) (create_message_header_obj from text)
unfolding create_message_header_obj
create_message-Accepts from text = search (Ensures-bind, Ensures-ok, Accepts-message)

acknowledge-Accepts :
    (from source destination id : Text) (ttl : ℤ)
    → check (is_available destination) value_error ≡ ok tt
    → Accepts from (record {
      received_from = from;
      packet = record { source = source; ttl = ttl; body = message_acknowledge destination id };
    })
acknowledge-Accepts from source destination id ttl h = (refl, ground arith)

message_fields-Accepts :
    (from text source : Text) (flag ttl : ℤ) (fields : List Text)
    → Ensures (Accepts from) (message_fields from text source flag ttl fields)
unfolding message_fields
message_fields-Accepts from text source flag ttl fields =
    Ensures-bind (at fields 3) _ (λ destination _.
      Ensures-bind (check (is_available destination) value_error) _ (λ _ known.
        Ensures-if (eq_ℤ flag (pos 2)) _ _
          (λ _. Ensures-bind (at fields 4) _ (λ id _.
            Ensures-ok (Accepts from) _ (acknowledge-Accepts from source destination id ttl known)))
          (λ _. create_message-Accepts from text)))

body-Accepts :
    (from source : Text) (ttl flag : ℤ) (fields : List Text) (body : Body)
    → body_fields flag fields ≡ ok body
    → Accepts from (record {
      received_from = from;
      packet = record { source = source; ttl = ttl; body = body };
    })
body-Accepts from source ttl flag fields body h = (refl, body_fields-IsChecked flag fields body h)

read_header-Accepts :
    (from text : Text) (fields : List Text) → Ensures (Accepts from) (read_header from text fields)
unfolding read_header
read_header-Accepts from text fields =
    search (Ensures-bind, Ensures-ok, Ensures-if, body-Accepts, message_fields-Accepts) depth 14

index_to_value-ok : (r : Result Header) (h : Header) → index_to_value r ≡ ok h → r ≡ ok h
index_to_value-ok r h e = ground arith

abbrev IsAccepted : Header → Type 0
IsAccepted h = (length h.received_from ≡ 4) × IsChecked h.body

with_sender :
    (from : Text) (r : Result Header)
    → check_addr_field from ≡ ok tt
    → Ensures (Accepts from) r
    → Ensures IsAccepted r
unfolding check_addr_field
with_sender from r four e = record {
  at = λ h p. let (same, checked) = e.at h p in (ground (arith, same), checked);
}

-- A header that is accepted has the address of a last hop of four characters, and its fields are
-- checked: the nodes that a route or a request names have addresses of four characters, the destination
-- of an acknowledgement is a known node, and the name of a registered peer is not empty.
pub parse-IsChecked :
    (raw : Text) (h : Header)
    → create_header_obj_from_raw_message raw ≡ ok h
    → (length h.received_from ≡ 4) × IsChecked h.body
unfolding create_header_obj_from_raw_message
parse-IsChecked raw h e =
    let found : Ensures IsAccepted _ =
      search (Ensures-bind, with_sender, read_header-Accepts) depth 10 in
    found.at h (index_to_value-ok _ h e)
