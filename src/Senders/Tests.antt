-- ===== src/Senders/Tests.antt =====
-- Headers `|0|` and `|1|` over a modem that confirms every command.
use native.Mathlib.Decide.{ℕ_discrete}
use lora_multihop.Prelude.{ℕ, Text, codes, Bool, true, false, List, [], ◌∷◌, ◌++◌, ◌≡◌, refl, arith}
use lora_multihop.Python.Utf8.{encode, encode_text, is_scalar, char_bytes, decode, decode_bytes}
use lora_multihop.Python.Number.{strip, strip_start, strip_end, is_space, str_ℕ, digits}
use lora_multihop.Python.Find.{occurs, starts_with}
use lora_multihop.SerialConnection.Answer.{Line, status_of, bytes_to_str, is_message, str_to_bytes}
use lora_multihop.SerialConnection.Verified.{Answers, answered, at_once}
use lora_multihop.SerialConnection.{Connection, of_str, connected, terminated}
use lora_multihop.SerialConnection.Confirmed.{entries_of, round-answered}
use lora_multihop.SerialConnection.Threads.{wire}
use lora_multihop.Protocol.Transmit.{send_verify_list}
use lora_multihop.Protocol.Silence.{transmission}
use lora_multihop.Protocol.Emission.{size_command}
use lora_multihop.Senders.{
  Pc, idle, called, announced, confirmed, handed, calls, puts_size, ready, puts_header, System,
  moves, Move, Reach, start, next, update,
}
use lora_multihop.Node
use lora_multihop.Node.{Node, Command}
use lora_multihop.Senders.Refined.{Busy, busy, over, outcome, taken_in, put_in, send_header-refined}
use lora_multihop.Protocol.Transmit.{send_header}
use lora_multihop.Senders.Alone.{alone-consecutive}
use lora_multihop.Senders.Mixed.{headers-mixed, writes-Reach}

abbrev a : Text
a = codes "|0|"

abbrev b : Text
b = codes "|1|"

abbrev confirmations : List Line
confirmations = codes "AT,SENDING\r\n" ∷ codes "AT,SENDED\r\n" ∷ []

abbrev ok_line : Line
ok_line = codes "AT,OK\r\n"

ready-Answers : (rest : List Line) → Answers (codes "AT,OK" ∷ []) (ok_line ∷ rest) rest
unfolding status_of bytes_to_str is_message decode decode_bytes is_scalar strip strip_start
    strip_end is_space occurs starts_with
ready-Answers rest = at_once (codes "AT,OK") [] _ _ refl refl (answered _)

sent-Answers :
    (rest : List Line)
    → Answers send_verify_list (codes "AT,SENDING\r\n" ∷ codes "AT,SENDED\r\n" ∷ rest) rest
unfolding status_of bytes_to_str is_message decode decode_bytes is_scalar strip strip_start
    strip_end is_space occurs starts_with
sent-Answers rest =
    at_once (codes "AT,SENDING") _ _ _ refl refl
      (at_once (codes "AT,SENDED") [] _ _ refl refl (answered _))

headers-mixed_example :
    (s : System) × Reach 2 (ok_line ∷ ok_line ∷ confirmations ++ confirmations) s
    × (s.pc 0 ≡ handed a)
    × (s.pc 1 ≡ handed b)
    × (s.connection.status_q ≡ true ∷ true ∷ [])
    × (s.connection.written
        ≡ codes "AT+SEND=3\r\n" ∷ codes "AT+SEND=3\r\n" ∷ codes "|0|\r\n" ∷ codes "|1|\r\n" ∷ [])
unfolding terminated str_to_bytes encode encode_text is_scalar char_bytes str_ℕ digits
headers-mixed_example =
    headers-mixed a b (codes "AT+SEND=3\r\n") (codes "AT+SEND=3\r\n") (codes "|0|\r\n")
      (codes "|1|\r\n") (ok_line ∷ ok_line ∷ confirmations ++ confirmations)
      (ok_line ∷ confirmations ++ confirmations) (confirmations ++ confirmations) confirmations []
      refl refl refl refl (ready-Answers _) (ready-Answers _) (sent-Answers _) (sent-Answers _)

-- the connection when the header is written and its status is there
abbrev sent : Connection
sent = record (connected (ok_line ∷ confirmations)) {
  port = [];
  status_q = true ∷ [];
  written = codes "AT+SEND=3\r\n" ∷ codes "|0|\r\n" ∷ [];
}

abbrev one_announced : ℕ → Pc
one_announced = update (update (λ _. idle) 0 (called a)) 0 (announced a)

abbrev one_handed : ℕ → Pc
one_handed = update (update one_announced 0 (confirmed a)) 0 (handed a)

sent-Reach : Reach 1 (ok_line ∷ confirmations) (record { connection = sent; pc = one_handed })
unfolding ℕ_discrete terminated str_to_bytes encode encode_text is_scalar char_bytes str_ℕ digits
sent-Reach =
    let size =
      round-answered (of_str (size_command a).text) (codes "AT,OK") [] [] (codes "AT+SEND=3\r\n")
        (ok_line ∷ confirmations) confirmations (connected (ok_line ∷ confirmations)) refl
        (ready-Answers _) refl in
    let header =
      round-answered (of_str a) (codes "AT,SENDING") (codes "AT,SENDED" ∷ []) [] (codes "|0|\r\n")
        confirmations [] (record (connected confirmations) { written = codes "AT+SEND=3\r\n" ∷ [] })
        refl (sent-Answers _) refl in
    let announced_then =
      next (next start (moves 0 (omega arith) (calls a))) (moves 0 (omega arith) puts_size) in
    let confirmed_then =
      next (writes-Reach _ _ one_announced size announced_then)
        (moves 0 (omega arith) (ready [] refl)) in
    writes-Reach _ _ one_handed header (next confirmed_then (moves 0 (omega arith) puts_header))

alone-consecutive_example :
    ((before : List Line) × (sent.written ≡ before ++ wire (entries_of (transmission (a ∷ [])))))
    × (sent.writing_q ≡ [])
    × (◌≡◌ {A = List Bool} [] [])
unfolding ℕ_discrete
alone-consecutive_example =
    alone-consecutive (ok_line ∷ confirmations) (record { connection = sent; pc = one_handed }) a
      true [] sent-Reach refl refl

abbrev node : Node
node = Node.start (codes "0131") [] []

-- a thread that calls `send_header` and finds two statuses
abbrev calling : System
calling = record {
  connection = record (connected []) { status_q = true ∷ true ∷ [] };
  pc = update (λ _. idle) 0 (called a);
}

abbrev is_back : System
is_back = record {
  connection = record (connected []) { writing_q = entries_of (transmission (a ∷ [])) };
  pc = update one_handed 0 idle;
}

calling-Busy : Busy 1 0 calling is_back
unfolding ℕ_discrete
calling-Busy = busy refl (moves 0 (omega arith) puts_size) (
    busy refl (moves 0 (omega arith) (ready (true ∷ []) refl)) (
      busy refl (moves 0 (omega arith) puts_header)
        (busy refl (moves 0 (omega arith) (Move.answered true [] refl)) (over refl))))

send_header-refined_example :
    send_header a (record node { status_q = taken_in calling-Busy ++ false ∷ [] }) ≡ (
      outcome (is_back.pc 0),
      record node { writing_q = [] ++ put_in calling-Busy; status_q = false ∷ [] },
    )
unfolding ℕ_discrete
send_header-refined_example =
    send_header-refined 1 0 a calling is_back node (false ∷ []) calling-Busy refl (λ e. cc)
