-- ===== src/Ipc/Transfer.antt =====
-- src/lora_multihop/ipc.py: the socket for data exchange.
use lora_multihop.Prelude.{ℕ, Bool, false, List, [], ◌∷◌, ◌++◌, Result, ok, raised, if◌then◌else◌}
use lora_multihop.Node.{Node}
use lora_multihop.Protocol.Send.{send_message}
use lora_multihop.Ipc.Socket.{Sending, bytes_sent}

-- `running` until the client closes the socket or an exception ends the loop; `sent` is what the client
-- was sent.
pub record Transfer : Type 0 where
  pub node : Node
  pub running : Bool
  pub sent : List (List ℕ)

-- What `conn.recv(220)` comes back with: bytes, none as the client has closed, or an error, as where
-- nothing has arrived.
pub data Arrival : Type 0 where
  bytes_from : List ℕ → Arrival
  socket_error : Arrival

-- The message is taken from the queue already when `conn.send` raises, outside of the `try`.
abbrev pub sent_as : Result (List ℕ) → Transfer → Transfer
sent_as (ok bytes) s = record s { sent = s.sent ++ bytes ∷ [] }
sent_as (raised _) s = record s { running = false }

abbrev pub first_message : Sending → List (List ℕ) → Transfer → Transfer
first_message sending [] s = s
first_message sending (message ∷ later) s =
    sent_as (bytes_sent sending message)
      (record s { node = record s.node { received_messages_queue = later } })

-- the second half of a round
unfoldable pub pass_on : Sending → Transfer → Transfer
pass_on sending s = first_message sending s.node.received_messages_queue s

abbrev pub after_send : Sending → Transfer → Result (Unit {0}) × Node → Transfer
after_send sending s (ok _, node) = pass_on sending (record s { node = node })
after_send sending s (raised _, node) = record s { node = node; running = false }

-- One round of `start_tcp_server_for_message_transfer`, with what its `recv` and its `send` come back
-- with.
unfoldable pub transfer_round : Arrival → Sending → Transfer → Transfer
transfer_round (bytes_from []) sending s = record s { running = false }
transfer_round (bytes_from (b ∷ bytes)) sending s =
    after_send sending s (send_message (b ∷ bytes) s.node)
transfer_round socket_error sending s = pass_on sending s

unfoldable pub transfer : List (Arrival × Sending) → Transfer → Transfer
transfer [] s = s
transfer ((arrival, sending) ∷ later) s =
    transfer later (if s.running then transfer_round arrival sending s else s)
