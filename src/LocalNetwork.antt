-- ===== src/LocalNetwork.antt =====
-- src/tests/integration_tests/local_network.py: `LocalNetwork`, which takes the place of the modem where
-- nodes are connected by TCP. A round of the sending thread takes all
-- entries of the queue, one of a receiving thread is one `recv`. A `send` takes all bytes.
mod Tests
pub mod Link
pub mod Message
pub mod Swallowed
use lora_multihop.Prelude.{
  ℕ, Text, codes, if◌then◌else◌, Bool, true, false, ◌&&◌, List, [], ◌∷◌, ◌++◌, Result, ok, raised,
}
use lora_multihop.Python.Find.{occurs}
use lora_multihop.SerialConnection.{Command, Entry, of_str, of_bytes}
use lora_multihop.SerialConnection.Answer.{Line, str_to_bytes, bytes_to_str}

-- The queues of src/lora_multihop/serial_connection.py with the attributes that change. `sent` is what
-- went to each connection; a thread is alive until an exception ends it.
pub record LocalNetwork : Type 0 where
  pub module_address : Text
  pub writing_q : List Entry
  pub status_q : List Bool
  pub response_q : List Text
  pub sent : List Line
  pub tcp_communication_running : Bool
  pub sending_alive : Bool
  pub receiving_alive : Bool

-- `f'LR,{self.module_address},10,' + payload`
abbrev pub line_of : Text → Text → Text
line_of module_address payload = codes "LR," ++ (module_address ++ (codes ",10," ++ payload))

-- `serial_connection.status_q.put(True)`
abbrev pub put_true : LocalNetwork → LocalNetwork
put_true s = record s { status_q = s.status_q ++ true ∷ [] }

abbrev pub send_all : Result Line → LocalNetwork → LocalNetwork
send_all (ok message_to_send) s = put_true (record s { sent = s.sent ++ message_to_send ∷ [] })
send_all (raised _) s = record s { sending_alive = false }

-- `'AT' not in payload` raises a `TypeError` for bytes.
abbrev pub send_payload : Command → LocalNetwork → LocalNetwork
send_payload (of_bytes payload) s = record s { sending_alive = false }
send_payload (of_str payload) s =
    if occurs (codes "AT") payload
    then put_true s
    else send_all (str_to_bytes (line_of s.module_address payload)) s

-- The inner loop, until the queue is empty or an exception ends the thread.
unfoldable pub send_entries : List Entry → LocalNetwork → LocalNetwork
send_entries [] s = s
send_entries (entry ∷ later) s =
    let t = send_payload entry.command (record s { writing_q = later }) in
    if t.sending_alive then send_entries later t else t

-- One round of `start_sending`.
unfoldable pub start_sending : LocalNetwork → LocalNetwork
start_sending s =
    if s.sending_alive && s.tcp_communication_running then send_entries s.writing_q s else s

abbrev pub put_response : Result Text → LocalNetwork → LocalNetwork
put_response (ok text) s = record s { response_q = s.response_q ++ text ∷ [] }
put_response (raised _) s = record s { receiving_alive = false }

abbrev pub received : List ℕ → LocalNetwork → LocalNetwork
received [] s = s
received (b ∷ bytes) s = put_response (bytes_to_str (b ∷ bytes)) s

-- One `recv` of `start_receiving` that came back with these bytes.
unfoldable pub start_receiving : List ℕ → LocalNetwork → LocalNetwork
start_receiving bytes s =
    if s.receiving_alive && s.tcp_communication_running then received bytes s else s

unfoldable pub stop_local_consumer_producer : LocalNetwork → LocalNetwork
stop_local_consumer_producer s = record s { tcp_communication_running = false }
