-- ===== src/SerialConnection/Tests.antt =====
-- The threads on the inputs of src/tests/test_serial_connection.py and on headers.
use lora_multihop.Prelude.{codes, text_eq, true, false, List, [], ◌∷◌, ◌++◌, ok, ◌≡◌, ◌↔◌, refl}
use lora_multihop.Python.Utf8.{encode, encode_text, is_scalar, char_bytes, decode, decode_bytes}
use lora_multihop.Python.Number.{strip, strip_start, strip_end, is_space, str_ℕ, digits}
use lora_multihop.Python.Find.{occurs, starts_with}
use lora_multihop.SerialConnection.Answer.{
  Line, verify, read_status, status_of, bytes_to_str, is_message, str_to_bytes,
}
use lora_multihop.SerialConnection.Verified.{Answers, answered, at_once, behind_one, verify_iff}
use lora_multihop.SerialConnection.Threads.{Run, here, next, put, writes, arrives, wire, Run-fifo}
use lora_multihop.SerialConnection.{Connection, Entry, of_str, connected, terminated, write_round}
use lora_multihop.SerialConnection.Device.{rounds}
use lora_multihop.SerialConnection.Confirmed.{entries_of, header-confirmed}
use lora_multihop.Protocol.Transmit.{send_verify_list}
use lora_multihop.Protocol.Silence.{transmission, confirmations}

-- the lines of `test_verify_command_bad2`
abbrev answers : List Line
answers = codes "SENDING" ∷ codes "LR" ∷ codes "SENDED" ∷ []

bad2 : verify true (codes "SENDING" ∷ codes "SENDED" ∷ []) answers ≡ (ok true, [])
unfolding verify read_status status_of bytes_to_str is_message decode decode_bytes is_scalar strip
    strip_start strip_end is_space occurs starts_with text_eq
bad2 = refl

too_many :
    verify true (codes "SENDING" ∷ codes "SENDED" ∷ []) (codes "SENDED" ∷ [] ∷ []) ≡ (ok false, [])
unfolding verify read_status status_of bytes_to_str is_message decode decode_bytes is_scalar strip
    strip_start strip_end is_space occurs starts_with text_eq
too_many = refl

verify_iff_example :
    (verify true (codes "SENDING" ∷ codes "SENDED" ∷ []) answers ≡ (ok true, []))
    ↔ Answers (codes "SENDING" ∷ codes "SENDED" ∷ []) answers []
verify_iff_example = verify_iff (codes "SENDING" ∷ codes "SENDED" ∷ []) answers []

abbrev at_command : Entry
at_command = record { command = of_str (codes "AT"); verify_list = [] }

-- a command is put, a line arrives, and the writing thread has its round
abbrev idle_module : Connection
idle_module = connected []

abbrev waiting_module : Connection
waiting_module = record idle_module { writing_q = at_command ∷ []; port = codes "LR" ∷ [] }

put_and_write : Run idle_module (at_command ∷ []) (write_round waiting_module)
put_and_write = next (next (next here (put at_command)) (arrives (codes "LR"))) writes

Run-fifo_example :
    (write_round waiting_module).written ++ wire (write_round waiting_module).writing_q
    ≡ ([] ++ wire []) ++ wire (at_command ∷ [])
Run-fifo_example = Run-fifo idle_module (write_round waiting_module) (at_command ∷ []) put_and_write

-- the answers to a header, a message of another node between them
abbrev header_lines : List Line
header_lines =
    codes "AT,OK\r\n"
    ∷ codes "LR,0136,04,|0|\r\n"
    ∷ codes "AT,SENDING\r\n"
    ∷ codes "AT,SENDED\r\n"
    ∷ []

ready-Answers :
    Answers
      (codes "AT,OK" ∷ [])
      header_lines
      (codes "LR,0136,04,|0|\r\n" ∷ codes "AT,SENDING\r\n" ∷ codes "AT,SENDED\r\n" ∷ [])
unfolding status_of bytes_to_str is_message decode decode_bytes is_scalar strip strip_start
    strip_end is_space occurs starts_with
ready-Answers = at_once (codes "AT,OK") [] _ _ refl refl (answered _)

sent-Answers :
    Answers send_verify_list
      (codes "LR,0136,04,|0|\r\n" ∷ codes "AT,SENDING\r\n" ∷ codes "AT,SENDED\r\n" ∷ [])
      []
unfolding status_of bytes_to_str is_message decode decode_bytes is_scalar strip strip_start
    strip_end is_space occurs starts_with
sent-Answers =
    behind_one (codes "LR,0136,04,|0|") (codes "AT,SENDING") _ _ _ refl refl refl
      (at_once (codes "AT,SENDED") [] _ _ refl refl (answered _))

header-confirmed_example :
    rounds 2 (record idle_module {
      writing_q = entries_of (transmission (codes "|0|" ∷ []));
      port = header_lines;
      status_q = [];
    })
    ≡ record idle_module {
      writing_q = [];
      port = [];
      status_q = confirmations (codes "|0|" ∷ []) [];
      written = [] ++ codes "AT+SEND=3\r\n" ∷ codes "|0|\r\n" ∷ [];
      write_data = false;
    }
unfolding terminated str_to_bytes encode encode_text is_scalar char_bytes str_ℕ digits
header-confirmed_example =
    header-confirmed (codes "|0|") (codes "AT+SEND=3\r\n") (codes "|0|\r\n") header_lines
      (codes "LR,0136,04,|0|\r\n" ∷ codes "AT,SENDING\r\n" ∷ codes "AT,SENDED\r\n" ∷ []) []
      idle_module refl refl ready-Answers sent-Answers refl
