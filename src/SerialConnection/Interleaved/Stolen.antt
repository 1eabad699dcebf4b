-- ===== src/SerialConnection/Interleaved/Stolen.antt =====
-- A reading thread that has passed its condition before a command is put.
use lora_multihop.Prelude.{Text, Bool, true, List, [], ◌∷◌, ok, ◌≡◌, ◌≢◌}
use lora_multihop.SerialConnection.Answer.{Line, bytes_to_str}
use lora_multihop.SerialConnection.{Connection, Command, Entry, connected, terminated}
use lora_multihop.SerialConnection.Interleaved.{
  Reader, may_read, Writer, verifying, reader_step, writer_step, Threads,
}

-- Steps of the two threads alone: nothing is put, and no further line arrives.
pub data Alone (f : Threads) : Threads → Type 0 where
  here : Alone f f
  then_reads :
      {g : Threads} {reader : Reader} {t : Connection}
      → Alone f g
      → reader_step g.reader g.connection ≡ (reader, t)
      → Alone f (record g { reader = reader; connection = t })
  then_writes :
      {g : Threads} {writer : Writer} {t : Connection}
      → Alone f g
      → writer_step g.writer g.connection ≡ (writer, t)
      → Alone f (record g { writer = writer; connection = t })

module _ (command : Command) (entry : Text) (line answer : Line) (text : Text)
    (wired : terminated command ≡ ok line) (full : entry ≢ [])
    (decoded : bytes_to_str answer ≡ ok text) where
  abbrev item : Entry
  item = record { command = command; verify_list = entry ∷ [] }

  -- The command is written, and the reading thread is behind its condition.
  abbrev asked : Threads
  asked = record {
    reader = may_read;
    writer = verifying (entry ∷ []) true;
    connection = record (connected []) { write_data = true; written = line ∷ [] };
  }

  abbrev asked_then : List Line → List Bool → List Text → Connection
  asked_then port statuses responses = record asked.connection {
    port = port;
    status_q = statuses;
    response_q = responses;
  }
