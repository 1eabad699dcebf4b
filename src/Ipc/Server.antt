-- ===== src/Ipc/Server.antt =====
-- src/lora_multihop/ipc.py: the socket for administration. Each event is what `accept` or `recv` of the
-- socket came back with; an exception that nothing catches ends the loop.
use lora_multihop.Prelude.{
  ℕ, Text, codes, text_eq, if◌then◌else◌, List, [], ◌∷◌, ◌++◌, Result, ok, raised, at, value_error,
  index_error, key_error, queue_empty, type_error, attribute_error, socket_timeout,
  broken_pipe_error, connection_reset_error,
}
use lora_multihop.Variables.{header_delimiter, java_ipc_message_values_delimiter}
use lora_multihop.Python.Split.{split}
use lora_multihop.Python.Find.{lower}
use lora_multihop.Python.Utf8.{encode, decode}
use lora_multihop.RoutingTable.{Peer, get_peers}
use lora_multihop.Node.{Node}
use lora_multihop.Node.Action.{Action}
use lora_multihop.Protocol.Receive.{stop_receiving}
use lora_multihop.Protocol.Send.{
  send_registration_message, send_connect_request_header, send_disconnect_request_header,
}
use lora_multihop.Ipc.Socket.{Sending, bytes_sent}

-- Waiting for a client, with a client, or over.
pub data Phase : Type 0 where
  listening serving over : Phase

-- `sent` is what the client was sent, and `sending` what the next calls of `conn.send` come back with;
-- behind its end they take all bytes.
pub record Server : Type 0 where
  pub node : Node
  pub phase : Phase
  pub sent : List (List ℕ)
  pub sending : List Sending

abbrev pub Serving : Type 0 → Type 0
Serving A = Server → Result A × Server

abbrev pub proceed : {A B : Type 0} → (A → Serving B) → Result A × Server → Result B × Server
proceed rest (ok a, s) = rest a s
proceed rest (raised e, s) = (raised e, s)

infixl 10 ◌>>=◌ ◌>>◌
unfoldable pub ◌>>=◌ : {A B : Type 0} → Serving A → (A → Serving B) → Serving B
◌>>=◌ m rest s = proceed rest (m s)

abbrev pub ◌>>◌ : {A B : Type 0} → Serving A → Serving B → Serving B
m >> n = m >>= λ _. n

unfoldable pub idle : Serving (Unit {0})
idle s = (ok tt, s)

unfoldable pub result : {A : Type 0} → Result A → Serving A
result r s = (r, s)

abbrev pub after_call : {A : Type 0} → Server → Result A × Node → Result A × Server
after_call s (r, node) = (r, record s { node = node })

-- a method of `self.protocol`
unfoldable pub call : {A : Type 0} → Action A → Serving A
call m s = after_call s (m s.node)

abbrev pub sent_as : Result (List ℕ) → Serving (Unit {0})
sent_as (ok bytes) s = (ok tt, record s { sent = s.sent ++ bytes ∷ [] })
sent_as (raised e) s = (raised e, s)

abbrev pub next_send : List Sending → List ℕ → Serving (Unit {0})
next_send [] bytes s = sent_as (ok bytes) s
next_send (sending ∷ later) bytes s =
    sent_as (bytes_sent sending bytes) (record s { sending = later })

-- `conn.send((text + '|').encode(...))`
unfoldable pub send : Text → Serving (Unit {0})
send text = do
  bytes ← result (encode (text ++ header_delimiter ∷ []))
  λ s. next_send s.sending bytes s

-- `',' + peer_id` of each peer
unfoldable pub listed : List Peer → Text
listed [] = []
listed (p ∷ later) = b',' ∷ (p.peer_id ++ listed later)

unfoldable pub registered_peers : List Peer → Text
registered_peers peers = codes "RegisteredPeers" ++ listed peers

-- The branches for the types of messages; any other type is ignored.
unfoldable pub handle_values : Text → List Text → Serving (Unit {0})
handle_values message_type values =
    if text_eq message_type (codes "Registration")
    then (do
      subscribe_str ← result (at values 2)
      peer_id ← result (at values 1)
      call (send_registration_message (text_eq (lower subscribe_str) (codes "true")) peer_id))
    else if text_eq message_type (codes "ConnectRequest")
    then (do
      source ← result (at values 1)
      target ← result (at values 2)
      timeout ← result (at values 3)
      call (send_connect_request_header source target timeout))
    else if text_eq message_type (codes "DisconnectRequest")
    then (do
      source ← result (at values 1)
      target ← result (at values 2)
      call (send_disconnect_request_header source target))
    else idle

unfoldable pub handle_request : List Text → Serving (Unit {0})
handle_request values = do message_type ← result (at values 0); handle_values message_type values

unfoldable pub handle_message : Text → Serving (Unit {0})
handle_message [] = idle
handle_message (c ∷ message) =
    if text_eq (c ∷ message) (codes "registeredPeers?")
    then (λ s. send (registered_peers (get_peers s.node.routing_table)) s)
    else handle_request (split java_ipc_message_values_delimiter (c ∷ message))

-- `for message in received_data_as_list`
unfoldable pub handle_messages : List Text → Serving (Unit {0})
handle_messages [] = idle
handle_messages (message ∷ later) = handle_message message >>= λ _. handle_messages later

unfoldable pub handle_data : List ℕ → Serving (Unit {0})
handle_data received = do
  text ← result (decode received)
  handle_messages (split header_delimiter text)

-- `while not self.protocol.sending_queue.empty()`
unfoldable pub forward_queue : List Text → Serving (Unit {0})
forward_queue [] = idle
forward_queue (payload ∷ later) =
    (λ s. send payload (record s { node = record s.node { sending_queue = later } })) >>= λ _.
    forward_queue later

pub data Event : Type 0 where
  accepted accept_timeout : Event
  received : List ℕ → Event
  closed_by_client recv_timeout broken_pipe connection_reset : Event

abbrev pub goes_to : Phase → Server → Server
goes_to phase s = record s { phase = phase }

-- The handlers around the loop over the clients: a timeout or a reset leads back to `accept`, and a
-- broken pipe is none of these.
abbrev pub caught_outside : Result (Unit {0}) × Server → Server
caught_outside (ok _, s) = s
caught_outside (raised socket_timeout, s) = goes_to listening s
caught_outside (raised connection_reset_error, s) = goes_to listening s
caught_outside (raised broken_pipe_error, s) = goes_to over s
caught_outside (raised value_error, s) = goes_to over s
caught_outside (raised index_error, s) = goes_to over s
caught_outside (raised key_error, s) = goes_to over s
caught_outside (raised queue_empty, s) = goes_to over s
caught_outside (raised type_error, s) = goes_to over s
caught_outside (raised attribute_error, s) = goes_to over s

-- `except socket.timeout`, whose own sends are not covered by the handlers beside it
unfoldable pub time_out : Server → Server
time_out s = caught_outside (forward_queue s.node.sending_queue s)

-- The handlers around `recv` and the messages.
abbrev pub caught : Result (Unit {0}) × Server → Server
caught (ok _, s) = s
caught (raised socket_timeout, s) = time_out s
caught (raised broken_pipe_error, s) = goes_to listening s
caught (raised connection_reset_error, s) = goes_to listening s
caught (raised value_error, s) = goes_to over s
caught (raised index_error, s) = goes_to over s
caught (raised key_error, s) = goes_to over s
caught (raised queue_empty, s) = goes_to over s
caught (raised type_error, s) = goes_to over s
caught (raised attribute_error, s) = goes_to over s

-- One event of `start_tcp_server`.
unfoldable pub serve : Phase → Event → Server → Server
serve listening accepted s = goes_to serving s
serve serving (received bytes) s = caught (handle_data bytes s)
serve serving closed_by_client s = goes_to listening s
serve serving recv_timeout s = time_out s
serve serving broken_pipe s = goes_to listening s
serve serving connection_reset s = goes_to listening s
serve _ _ s = s

unfoldable pub start_tcp_server : List Event → Server → Server
start_tcp_server [] s = s
start_tcp_server (event ∷ later) s = start_tcp_server later (serve s.phase event s)

-- `stop_ipc_instance`, as the loop sees it when it tests its flags again.
unfoldable pub stop_ipc_instance : Server → Server
stop_ipc_instance s = record s { phase = over; node = stop_receiving s.node }
