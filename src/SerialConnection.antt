-- ===== src/SerialConnection.antt =====
-- src/lora_multihop/serial_connection.py: the two threads between the queues and the serial port, a round
-- of the writing thread and the reading of one line at a time.
mod Tests
pub mod Answer
pub mod Verified
pub mod Threads
pub mod Device
pub mod Heard
pub mod Confirmed
pub mod Interleaved
use lora_multihop.Prelude.{
  ℕ, Text, codes, if◌then◌else◌, Bool, true, false, not, ◌&&◌, ◌||◌, List, [], ◌∷◌, ◌++◌, Option,
  none, some, Result, ok, raised, Exception, type_error, queue_empty,
}
use lora_multihop.SerialConnection.Answer.{Line, bytes_to_str, str_to_bytes, verify}

-- What stands in a queue or is passed as a command: Python does not tell the two apart beforehand.
pub data Command : Type 0 where
  of_str : Text → Command
  of_bytes : List ℕ → Command

-- An entry of `writing_q`.
pub record Entry : Type 0 where
  pub command : Command
  pub verify_list : List Text

-- The globals of the module. `port` has the lines that the modem sends and that are not read yet,
-- `written` what was written to it; a thread is alive until an exception ends it.
pub record Connection : Type 0 where
  pub writing_q : List Entry
  pub response_q : List Text
  pub status_q : List Bool
  pub write_data : Bool
  pub reading_thread_active : Bool
  pub writing_thread_active : Bool
  pub reading_thread_alive : Bool
  pub writing_thread_alive : Bool
  pub port : List Line
  pub written : List Line

-- The module as it is loaded, with what the modem will send.
abbrev pub connected : List Line → Connection
connected port = record {
  writing_q = [];
  response_q = [];
  status_q = [];
  write_data = false;
  reading_thread_active = true;
  writing_thread_active = true;
  reading_thread_alive = true;
  writing_thread_alive = true;
  port = port;
  written = [];
}

-- `str_to_bytes(command + '\r\n')`: adding a `str` to `bytes` raises a `TypeError`.
unfoldable pub terminated : Command → Result Line
terminated (of_str text) = str_to_bytes (text ++ codes "\r\n")
terminated (of_bytes bytes) = raised type_error

-- the end of a round whose answers are checked: an exception leaves `WRITE_DATA` set
abbrev pub judged : Result Bool → Connection → Connection
judged (ok successful) s = record s { status_q = s.status_q ++ successful ∷ []; write_data = false }
judged (raised _) s = record s { writing_thread_alive = false }

abbrev pub check_answers : List Text → Connection → Connection
check_answers [] s = record s { write_data = false }
check_answers (entry ∷ later) s =
    let (successful, rest) = verify true (entry ∷ later) s.port in
    judged successful (record s { port = rest })

abbrev pub send_line : Result Line → List Text → Connection → Connection
send_line (ok line) verify_list s =
    check_answers verify_list (record s { written = s.written ++ line ∷ [] })
send_line (raised _) verify_list s = record s { writing_thread_alive = false }

abbrev pub write_first : List Entry → Connection → Connection
write_first [] s = s
write_first (entry ∷ later) s =
    send_line (terminated entry.command) entry.verify_list
      (record s { writing_q = later; write_data = true })

-- One round of `WritingThread.run`.
unfoldable pub write_round : Connection → Connection
write_round s =
    if s.writing_thread_alive && s.writing_thread_active then write_first s.writing_q s else s

-- A line that is not UTF-8 is dumped.
abbrev pub received_line : Result Text → Connection → Connection
received_line (ok text) s = record s { response_q = s.response_q ++ text ∷ [] }
received_line (raised _) s = s

abbrev pub read_first : List Line → Connection → Connection
read_first [] s = s
read_first (line ∷ later) s = received_line (bytes_to_str line) (record s { port = later })

abbrev pub is_empty {ℓ} : {A : Type ℓ} → List A → Bool
is_empty [] = true
is_empty (x ∷ xs) = false

-- `writing_q.empty() and not WRITE_DATA`, in a loop that runs
abbrev pub condition_holds : Connection → Bool
condition_holds s =
    (s.reading_thread_alive && s.reading_thread_active)
    && (is_empty s.writing_q && not s.write_data)

-- One round of `ReadingThread.run`. It looks at the queue, at `WRITE_DATA` and at the port one after the
-- other, and the others go on in between: `behind` says that it has passed its condition before, so
-- that it reads now whatever the condition would be. SerialConnection/Interleaved has the single
-- accesses.
unfoldable pub read_round : Bool → Connection → Connection
read_round behind s = if behind || condition_holds s then read_first s.port s else s

-- The end of `Protocol.stop` in src/lora_multihop/protocol.py.
unfoldable pub stop_threads : Connection → Connection
stop_threads s = record s { writing_thread_active = false; reading_thread_active = false }
