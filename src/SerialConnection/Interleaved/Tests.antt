-- ===== src/SerialConnection/Interleaved/Tests.antt =====
-- The command `AT+RX`, and a modem that answers it.
use lora_multihop.Prelude.{true, ℕ, Text, codes, false, List, [], ◌∷◌, ◌++◌, ◌≡◌, refl}
use lora_multihop.SerialConnection.{Entry, of_str, connected, write_round}
use lora_multihop.SerialConnection.Interleaved.{
  Writer, claimed, Reader, may_read, writer_step, writes, Threads, started, Reach, start, next, put,
  arrives, reads, reader_step,
}
use lora_multihop.SerialConnection.Interleaved.Rounds.{steps, steps-round}
use lora_multihop.SerialConnection.Interleaved.Waits.{
  During, here, goes_on, is_behind, reader-waits,
}

abbrev item : Entry
item = record { command = of_str (codes "AT+RX"); verify_list = codes "AT,OK" ∷ [] }

-- the command is put
abbrev asked : Threads
asked = record (started []) { connection = record (connected []) { writing_q = item ∷ [] } }

steps-round_example :
    (n : ℕ) × (steps n (Writer.watching, asked.connection)
      ≡ (Writer.watching, write_round asked.connection))
steps-round_example = steps-round asked.connection

-- The writing thread works on it.
abbrev worked_on : Threads
worked_on = record asked {
  writer = claimed;
  connection = record asked.connection { write_data = true };
}

worked_on-Reach : Reach [] worked_on
unfolding writer_step
worked_on-Reach = next (next start (put item)) writes

-- The answer arrives, and the reading thread has a step.
abbrev looked : Threads
looked = record worked_on {
  connection = record worked_on.connection { port = codes "AT,OK\r\n" ∷ [] };
}

looked-During : During worked_on looked
unfolding reader_step
looked-During = goes_on (goes_on here refl (arrives (codes "AT,OK\r\n"))) refl reads

reader-waits_example :
    (is_behind looked.reader ≡ false)
    × (taken : List Text) × (worked_on.connection.response_q
        ≡ taken ++ looked.connection.response_q)
reader-waits_example = reader-waits [] worked_on looked worked_on-Reach refl looked-During

-- The writing thread has ended in a round, the reading thread is behind its condition, and two lines
-- wait.
abbrev dead : Threads
dead = record (started []) {
  reader = may_read;
  connection = record (connected (codes "LR" ∷ codes "AT" ∷ [])) {
    write_data = true;
    writing_thread_alive = false;
  };
}

abbrev read_once : Threads
read_once = record dead {
  reader = Reader.watching;
  connection = record dead.connection { port = codes "AT" ∷ []; response_q = codes "LR" ∷ [] };
}
