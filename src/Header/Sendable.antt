-- ===== src/Header/Sendable.antt =====
-- What the text form of a header can carry, and what is received of it.
use lora_multihop.Prelude.{◌<◌, Text, true, [], ◌∷◌, ◌++◌, ℤ, pos, negsuc, ◌≡◌, ◌≢◌, length, take}
use lora_multihop.Variables.{header_delimiter, lora_module_delimiter}
use lora_multihop.Python.Split.{Lacks}
use lora_multihop.Header.{
  Body, route_request, route_reply, message, route_error, message_acknowledge, registration,
  connect_request, disconnect_request, Packet,
}
use lora_multihop.Header.Parse.{is_available}

abbrev pub IsAddr : Text → Type 0
IsAddr a = (length a ≡ 4) × Lacks header_delimiter a

abbrev pub IsDigitZ : ℤ → Type 0
IsDigitZ (pos t) = t < 10
IsDigitZ (negsuc t) = ⊥

abbrev pub IsMessageId : ℤ → Type 0
IsMessageId (pos n) = n < 1000000
IsMessageId (negsuc n) = ⊥

-- What the format can carry. A message is read at fixed positions: its ttl is one digit and its
-- id six. Its payload is free, and may hold delimiters.
abbrev pub Fits : ℤ → Body → Type 0
Fits ttl (route_request hops end_node) = IsAddr end_node
Fits ttl (route_reply hops end_node next_node) = IsAddr end_node × IsAddr next_node
Fits ttl (message destination next_node message_id payload) =
    IsAddr destination
    × IsAddr next_node
    × IsMessageId message_id
    × IsDigitZ ttl
    × (is_available destination ≡ true)
Fits ttl (route_error broken_node) = IsAddr broken_node
Fits ttl (message_acknowledge destination message_id) =
    Lacks header_delimiter destination
    × (is_available destination ≡ true)
    × Lacks header_delimiter message_id
Fits ttl (registration subscribe peer_id) = (peer_id ≢ []) × Lacks header_delimiter peer_id
Fits ttl (connect_request end_node next_node source_peer_id target_peer_id timeout) =
    IsAddr end_node
    × IsAddr next_node
    × Lacks header_delimiter source_peer_id
    × Lacks header_delimiter target_peer_id
    × Lacks header_delimiter timeout
Fits ttl (disconnect_request end_node next_node source_peer_id target_peer_id) =
    IsAddr end_node
    × IsAddr next_node
    × Lacks header_delimiter source_peer_id
    × Lacks header_delimiter target_peer_id

pub record IsSendable (p : Packet) : Type 0 where
  pub source_addr : IsAddr p.source
  pub fits : Fits p.ttl p.body

-- all but the last character
abbrev pub front : Text → Text
front [] = []
front (c ∷ s) = take (length s) (c ∷ s)

-- What is received of a body when `tail` follows the last delimiter: a payload is taken up to the
-- last character of the line, every other field up to its delimiter.
abbrev pub received : Text → Body → Body
received tail (message destination next_node message_id payload) =
    message destination next_node message_id (front (payload ++ header_delimiter ∷ tail))
received tail body = body

-- The line that the LoRa module hands over: `LR,<address>,<size>,<text>`.
abbrev pub line : Text → Text → Text → Text → Text
line start received_from size text =
    start
    ++ lora_module_delimiter
      ∷ (received_from ++ lora_module_delimiter ∷ (size ++ lora_module_delimiter ∷ text))
