-- ===== src/Senders.antt =====
-- Threads that call `Protocol.send_header` of src/lora_multihop/protocol.py, a shared access at a time,
-- over one serial connection: in the source the thread that receives and the threads of the sockets.
-- No lock keeps their calls apart.
mod Tests
pub mod Alone
pub mod Mixed
pub mod Simulated
pub mod Refined
use lora_multihop.Prelude.{ℕ, ◌<◌, Text, true, false, Bool, List, [], ◌∷◌, ◌++◌, ◌≡◌}
use native.Mathlib.Decide.{ℕ_discrete}
use mathlib.Core.Logic.{ite}
use lora_multihop.SerialConnection.Answer.{Line}
use lora_multihop.SerialConnection.{
  Connection, Entry, connected, write_round, read_round, stop_threads,
}
use lora_multihop.SerialConnection.Confirmed.{entry_of}
use lora_multihop.SerialConnection.Threads.{after_first}
use lora_multihop.Protocol.Emission.{size_command, header_command}

-- Where a thread stands in `send_header`: in no call, before the first `put`, before the `get` for it,
-- before the second `put`, before the `get` for that, or ended by `queue.Empty`.
pub data Pc : Type 0 where
  idle : Pc
  called : Text → Pc
  announced : Text → Pc
  confirmed : Text → Pc
  handed : Text → Pc
  ended : Pc

abbrev pub put : Entry → Connection → Connection
put entry s = record s { writing_q = s.writing_q ++ entry ∷ [] }

-- One shared access of a thread. A `get` that finds nothing may wait on, which is no move, or run into
-- its timeout.
pub data Move (s : Connection) : Pc → Connection → Pc → Type 0 where
  calls : (text : Text) → Move s idle s (called text)
  puts_size :
      {text : Text} → Move s (called text) (put (entry_of (size_command text)) s) (announced text)
  ready :
      {text : Text} (later : List Bool)
      → s.status_q ≡ true ∷ later
      → Move s (announced text) (record s { status_q = later }) (confirmed text)
  refused :
      {text : Text} (later : List Bool)
      → s.status_q ≡ false ∷ later
      → Move s (announced text) (record s { status_q = later }) idle
  size_timeout : {text : Text} → s.status_q ≡ [] → Move s (announced text) s ended
  puts_header :
      {text : Text} → Move s (confirmed text) (put (entry_of (header_command text)) s) (handed text)
  answered :
      {text : Text} (status : Bool) (later : List Bool)
      → s.status_q ≡ status ∷ later
      → Move s (handed text) (record s { status_q = later }) idle
  header_timeout : {text : Text} → s.status_q ≡ [] → Move s (handed text) s ended

-- What the threads of the connection, the modem and the other users of the connection do meanwhile.
pub data Background (s : Connection) : Connection → Type 0 where
  writes : Background s (write_round s)
  reads : (behind : Bool) → Background s (read_round behind s)
  arrives : (line : Line) → Background s (record s { port = s.port ++ line ∷ [] })
  takes_line : Background s (record s { response_q = after_first s.response_q })
  stops : Background s (stop_threads s)

abbrev pub update : (ℕ → Pc) → ℕ → Pc → ℕ → Pc
update f i p j = ite (ℕ_discrete i j) p (f j)

pub record System : Type 0 where
  pub connection : Connection
  pub pc : ℕ → Pc

pub data Step (threads : ℕ) (s : System) : System → Type 0 where
  moves :
      (i : ℕ) {t : Connection} {p : Pc}
      → i < threads
      → Move s.connection (s.pc i) t p
      → Step threads s (record { connection = t; pc = update s.pc i p })
  background :
      {t : Connection} → Background s.connection t → Step threads s (record s { connection = t })

-- Runs from the connection as it is loaded, with what the modem will send.
pub data Reach (threads : ℕ) (port : List Line) : System → Type 0 where
  start : Reach threads port (record { connection = connected port; pc = λ _. idle })
  next : {s t : System} → Reach threads port s → Step threads s t → Reach threads port t
