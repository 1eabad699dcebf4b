-- ===== src/Application.antt =====
-- src/lora_multihop/ipc.py: the two socket loops and the receiving thread over one `Protocol`, one event
-- at a time. An event of a socket is handled as a whole; lines that arrive meanwhile are those of the
-- sleeps that it waits in.
mod Tests
pub mod Serving
pub mod Ordered
pub mod Drained
pub mod Passed
use lora_multihop.Prelude.{ℕ, ◌+◌, Text, Bool, true, false, if◌then◌else◌, List, [], ◌∷◌}
use lora_multihop.Node.{Node}
use lora_multihop.Protocol.Receive.{process_incoming_message}
use lora_multihop.Ipc.Server.{Server, listening, Event, serve, stop_ipc_instance}
use lora_multihop.Ipc.Socket.{Sending}
use lora_multihop.Ipc.Transfer.{Transfer, Arrival, transfer_round}

-- The server has the node; `running` and `sent` are those of the loop for data.
pub record Application : Type 0 where
  pub server : Server
  pub running : Bool
  pub sent : List (List ℕ)

-- Both threads start on a `Protocol`; `sending` is for the socket for administration.
abbrev pub start_ipc : Node → List Sending → Application
start_ipc node sending = record {
  server = record { node = node; phase = listening; sent = []; sending = sending };
  running = true;
  sent = [];
}

-- What happens: at the socket for administration, at the one for data, lines for the receiving thread,
-- time that passes, and `stop_ipc_instance`.
pub data Happening : Type 0 where
  administration : Event → Happening
  exchange : Arrival → Sending → Happening
  lines : List Text → Happening
  elapse : ℕ → Happening
  stop : Happening

abbrev pub with_node : Node → Application → Application
with_node node a = record a { server = record a.server { node = node } }

abbrev pub exchanged : Transfer → Application → Application
exchanged t a = record (with_node t.node a) { running = t.running; sent = t.sent }

abbrev pub transfer_of : Application → Transfer
transfer_of a = record { node = a.server.node; running = a.running; sent = a.sent }

unfoldable pub happens : Happening → Application → Application
happens (administration event) a = record a { server = serve a.server.phase event a.server }
happens (exchange arrival sending) a =
    if a.running then exchanged (transfer_round arrival sending (transfer_of a)) a else a
happens (lines texts) a = with_node (process_incoming_message texts a.server.node) a
happens (elapse time) a = with_node (record a.server.node { now = a.server.node.now + time }) a
happens stop a = record a { server = stop_ipc_instance a.server; running = false }

unfoldable pub run : List Happening → Application → Application
run [] a = a
run (happening ∷ later) a = run later (happens happening a)
