-- ===== src/Header.antt =====
-- src/lora_multihop/header.py: the header classes and their text form. The attributes of the base
-- class are the record `Header`, those of the subclasses the constructors of `Body`. A header that
-- the node creates itself has `received_from=None` and is only printed: it is a `Packet`.
pub mod Parse
pub mod Sendable
pub mod RoundTrip
pub mod Checks
pub mod Debug
mod Tests
use lora_multihop.Prelude.{ℕ, Text, codes, if◌then◌else◌, Bool, List, [], ◌∷◌, ◌++◌, ℤ}
use lora_multihop.Variables.{header_delimiter}
use lora_multihop.Python.Number.{str_ℕ, str_ℤ, format_06d}

-- The constructors stand in the order of the flags 3, 4, 1, 5, 2, 6, 7, 8.
pub data Body : Type 0 where
  -- hops, end_node
  route_request : ℤ → Text → Body
  -- hops, end_node, next_node
  route_reply : ℤ → Text → Text → Body
  -- destination, next_node, message_id, payload
  message : Text → Text → ℤ → Text → Body
  -- broken_node
  route_error : Text → Body
  -- destination, message_id
  message_acknowledge : Text → Text → Body
  -- subscribe, peer_id
  registration : Bool → Text → Body
  -- end_node, next_node, source_peer_id, target_peer_id, timeout
  connect_request : Text → Text → Text → Text → Text → Body
  -- end_node, next_node, source_peer_id, target_peer_id
  disconnect_request : Text → Text → Text → Text → Body

pub record Packet : Type 0 where
  pub source : Text
  pub ttl : ℤ
  pub body : Body

pub record Header : Type 0 where
  pub received_from : Text
  pub packet : Packet
  pub open packet use *

-- `HEADER_TYPE`, which the constructors of the subclasses pass on as the flag
abbrev pub flag_of : Body → ℕ
flag_of (route_request _ _) = 3
flag_of (route_reply _ _ _) = 4
flag_of (message _ _ _ _) = 1
flag_of (route_error _) = 5
flag_of (message_acknowledge _ _) = 2
flag_of (registration _ _) = 6
flag_of (connect_request _ _ _ _ _) = 7
flag_of (disconnect_request _ _ _ _) = 8

-- every value followed by the delimiter
abbrev pub delimited : List Text → Text
delimited [] = []
delimited (v ∷ vs) = v ++ header_delimiter ∷ delimited vs

unfoldable pub create_header_str : List Text → Text
create_header_str args = header_delimiter ∷ delimited args

abbrev pub subscribe_str : Bool → Text
subscribe_str b = if b then codes "true" else codes "false"

-- The values that `get_header_str` of each class prints behind source, flag and ttl.
abbrev pub values : Body → List Text
values (route_request hops end_node) = str_ℤ hops ∷ end_node ∷ []
values (route_reply hops end_node next_node) = str_ℤ hops ∷ end_node ∷ next_node ∷ []
values (message destination next_node message_id payload) =
    destination ∷ next_node ∷ format_06d message_id ∷ payload ∷ []
values (route_error broken_node) = broken_node ∷ []
values (message_acknowledge destination message_id) = destination ∷ message_id ∷ []
values (registration subscribe peer_id) = subscribe_str subscribe ∷ peer_id ∷ []
values (connect_request end_node next_node source_peer_id target_peer_id timeout) =
    end_node ∷ next_node ∷ source_peer_id ∷ target_peer_id ∷ timeout ∷ []
values (disconnect_request end_node next_node source_peer_id target_peer_id) =
    end_node ∷ next_node ∷ source_peer_id ∷ target_peer_id ∷ []

unfoldable pub get_header_str : Packet → Text
get_header_str p =
    create_header_str (p.source ∷ str_ℕ (flag_of p.body) ∷ str_ℤ p.ttl ∷ values p.body)
