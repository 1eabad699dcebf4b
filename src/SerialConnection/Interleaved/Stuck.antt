-- ===== src/SerialConnection/Interleaved/Stuck.antt =====
-- The threads after the writing thread has ended in the middle of a round.
use lora_multihop.Prelude.{ℕ, ◌+◌, ◌≤◌, List, ◌++◌, length, ◌≡◌}
use lora_multihop.SerialConnection.Answer.{Line}
use lora_multihop.SerialConnection.{Connection}
use lora_multihop.SerialConnection.Threads.{IsStuck}
use lora_multihop.SerialConnection.Interleaved.{Reader, saw_empty, may_read, Writer, Threads, Step}

-- Any steps.
pub data Runs (f : Threads) : Threads → Type 0 where
  here : Runs f f
  goes_on : {g h : Threads} → Runs f g → Step g h → Runs f h

-- The lines that the reading thread reads without looking again.
abbrev pub lines_left : Reader → ℕ
lines_left Reader.watching = 0
lines_left saw_empty = 0
lines_left may_read = 1

-- What stays: nothing is written, and of the lines only so many are read.
record Stays (f g : Threads) : Type 0 where
  stuck : IsStuck g.connection
  at : g.writer ≡ Writer.watching
  unwritten : g.connection.written ≡ f.connection.written
  arrived : List Line
  taken : List Line
  lines : f.connection.port ++ arrived ≡ taken ++ g.connection.port
  bound : length taken + lines_left g.reader ≤ lines_left f.reader

-- What a step of the reading thread does.
record Reads (s : Connection) (r : Reader) (next : Reader × Connection) : Type 0 where
  stuck : IsStuck next.1
  unwritten : next.1.written ≡ s.written
  taken : List Line
  lines : s.port ≡ taken ++ next.1.port
  bound : length taken + lines_left next.0 ≤ lines_left r
