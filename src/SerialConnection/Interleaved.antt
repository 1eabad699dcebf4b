-- ===== src/SerialConnection/Interleaved.antt =====
-- src/lora_multihop/serial_connection.py: the two threads a shared access at a time, where the rounds
-- of the parent module are cut up. The reading thread looks at the queue and at `WRITE_DATA` in two
-- accesses; looking at the port and reading its line is one, and so is a status that the writing thread
-- reads.
mod Tests
pub mod Rounds
pub mod Waits
pub mod Stolen
pub mod Stuck
use lora_multihop.Prelude.{
  Text, text_eq, if◌then◌else◌, Bool, true, false, not, ◌&&◌, List, [], ◌∷◌, ◌++◌, Result, ok,
  raised,
}
use lora_multihop.SerialConnection.Answer.{Line, read_status}
use lora_multihop.SerialConnection.{
  Connection, Entry, connected, terminated, read_first, stop_threads, is_empty,
}
use lora_multihop.SerialConnection.Threads.{after_first}

-- At the head of the loop; behind `writing_q.empty()`, which was true; or behind the whole condition.
pub data Reader : Type 0 where
  watching : Reader
  saw_empty : Reader
  may_read : Reader

-- At the head of the loop; behind `WRITE_DATA = True`; in the loop over the answers that are left, with
-- `successful`; or behind it.
pub data Writer : Type 0 where
  watching : Writer
  claimed : Writer
  verifying : List Text → Bool → Writer
  finishing : Writer

unfoldable pub reader_step : Reader → Connection → Reader × Connection
reader_step Reader.watching s =
    if (s.reading_thread_alive && s.reading_thread_active) && is_empty s.writing_q
    then (saw_empty, s)
    else (Reader.watching, s)
reader_step saw_empty s = if s.write_data then (Reader.watching, s) else (may_read, s)
reader_step may_read s = (Reader.watching, read_first s.port s)

-- the writing thread ends
abbrev pub ends : Connection → Writer × Connection
ends s = (Writer.watching, record s { writing_thread_alive = false })

abbrev pub verify_or_finish : List Text → Connection → Writer × Connection
verify_or_finish [] s = (finishing, s)
verify_or_finish (entry ∷ later) s = (verifying (entry ∷ later) true, s)

abbrev pub write_line : Result Line → List Text → Connection → Writer × Connection
write_line (ok line) verify_list s =
    verify_or_finish verify_list (record s { written = s.written ++ line ∷ [] })
write_line (raised _) verify_list s = ends s

-- `writing_q.get()` waits where there is nothing.
abbrev pub take_entry : List Entry → Connection → Writer × Connection
take_entry [] s = (claimed, s)
take_entry (entry ∷ later) s =
    write_line (terminated entry.command) entry.verify_list (record s { writing_q = later })

abbrev pub compare :
    Text → List Text → Bool → Result Text × List Line → Connection → Writer × Connection
compare entry later successful (ok status, left) s =
    (verifying later (successful && text_eq entry status), record s { port = left })
compare entry later successful (raised _, left) s = ends (record s { port = left })

unfoldable pub writer_step : Writer → Connection → Writer × Connection
writer_step Writer.watching s =
    if (s.writing_thread_alive && s.writing_thread_active) && not (is_empty s.writing_q)
    then (claimed, record s { write_data = true })
    else (Writer.watching, s)
writer_step claimed s = take_entry s.writing_q s
writer_step (verifying [] successful) s =
    (finishing, record s { status_q = s.status_q ++ successful ∷ [] })
writer_step (verifying (entry ∷ later) successful) s =
    compare entry later successful (read_status s.port) s
writer_step finishing s = (Writer.watching, record s { write_data = false })

pub record Threads : Type 0 where
  pub reader : Reader
  pub writer : Writer
  pub connection : Connection

-- A step of one of the threads, and what other threads and the modem do to the queues and the port.
pub data Step (f : Threads) : Threads → Type 0 where
  reads : Step f (record f {
    reader = (reader_step f.reader f.connection).0;
    connection = (reader_step f.reader f.connection).1;
  })
  writes : Step f (record f {
    writer = (writer_step f.writer f.connection).0;
    connection = (writer_step f.writer f.connection).1;
  })
  put :
      (entry : Entry)
      → Step f (record f {
        connection = record f.connection { writing_q = f.connection.writing_q ++ entry ∷ [] };
      })
  arrives :
      (line : Line)
      → Step f
          (record f { connection = record f.connection { port = f.connection.port ++ line ∷ [] } })
  takes_line : Step f (record f {
    connection = record f.connection { response_q = after_first f.connection.response_q };
  })
  takes_status : Step f (record f {
    connection = record f.connection { status_q = after_first f.connection.status_q };
  })
  stops : Step f (record f { connection = stop_threads f.connection })

-- Both threads have started.
abbrev pub started : List Line → Threads
started port = record {
  reader = Reader.watching;
  writer = Writer.watching;
  connection = connected port;
}

pub data Reach (port : List Line) : Threads → Type 0 where
  start : Reach port (started port)
  next : {f g : Threads} → Reach port f → Step f g → Reach port g
