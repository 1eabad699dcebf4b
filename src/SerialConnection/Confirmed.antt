-- ===== src/SerialConnection/Confirmed.antt =====
-- The commands of `Protocol.send_header` in src/lora_multihop/protocol.py, worked off by the writing
-- thread.
use lora_multihop.Prelude.{
  Text, codes, true, false, ◌&&◌, List, [], ◌∷◌, ◌++◌, append_assoc, ok, ◌≡◌, refl, ap, ◌∙◌,
}
use lora_multihop.SerialConnection.Answer.{Line}
use lora_multihop.SerialConnection.Verified.{Answers, verify_iff}
use lora_multihop.SerialConnection.{Connection, Command, Entry, of_str, terminated, write_round}
use lora_multihop.SerialConnection.Device.{rounds}
use lora_multihop.Node
use lora_multihop.Protocol.Transmit.{send_verify_list}
use lora_multihop.Protocol.Emission.{size_command, header_command}
use lora_multihop.Protocol.Silence.{transmission, confirmations}

-- What the protocol puts into `writing_q`, as the writing thread finds it.
abbrev pub entry_of : Node.Command → Entry
entry_of c = record { command = of_str c.text; verify_list = c.verify_list }

abbrev pub entries_of : List Node.Command → List Entry
entries_of [] = []
entries_of (c ∷ later) = entry_of c ∷ entries_of later

-- A command whose answers arrive is written and gets the status `True`.
pub round-answered :
    (command : Command) (entry : Text) (entries : List Text) (later : List Entry) (line : Line)
    (lines rest : List Line) (s : Connection)
    → terminated command ≡ ok line
    → Answers (entry ∷ entries) lines rest
    → (s.writing_thread_alive && s.writing_thread_active) ≡ true
    → write_round (record s {
      writing_q = record { command = command; verify_list = entry ∷ entries } ∷ later;
      port = lines;
    })
      ≡ record s {
        writing_q = later;
        port = rest;
        status_q = s.status_q ++ true ∷ [];
        written = s.written ++ line ∷ [];
        write_data = false;
      }
unfolding write_round
round-answered command entry entries later line lines rest s wire answers runs =
    rw (runs, wire, (verify_iff (entry ∷ entries) lines rest).1 answers) refl

-- A header that the protocol hands to the writing thread: if its size and its text can be encoded, and
-- the modem answers both commands, each answer at once or behind one message of another node, two
-- rounds write the two lines in this order, read exactly the answers, and give the two statuses that
-- `send_header` waits for.
pub header-confirmed :
    (text : Text) (size_line header_line : Line) (lines between rest : List Line) (s : Connection)
    → terminated (of_str (size_command text).text) ≡ ok size_line
    → terminated (of_str text) ≡ ok header_line
    → Answers (codes "AT,OK" ∷ []) lines between
    → Answers send_verify_list between rest
    → (s.writing_thread_alive && s.writing_thread_active) ≡ true
    → rounds 2 (record s {
      writing_q = entries_of (transmission (text ∷ []));
      port = lines;
      status_q = [];
    })
      ≡ record s {
        writing_q = [];
        port = rest;
        status_q = confirmations (text ∷ []) [];
        written = s.written ++ size_line ∷ header_line ∷ [];
        write_data = false;
      }
unfolding rounds
header-confirmed text size_line header_line lines between rest s size_wire header_wire ready sent
      runs =
    let first =
      round-answered (of_str (size_command text).text) (codes "AT,OK") []
        (entry_of (header_command text) ∷ []) size_line lines between (record s { status_q = [] })
        size_wire ready runs in
    let second =
      round-answered (of_str text) (codes "AT,SENDING") (codes "AT,SENDED" ∷ []) [] header_line
        between rest
        (record s {
          status_q = true ∷ [];
          written = s.written ++ size_line ∷ [];
          write_data = false;
        })
        header_wire sent runs in
    ap write_round first
    ∙ second
    ∙ ap
        (λ (wire : List Line). record s {
          writing_q = [];
          port = rest;
          status_q = true ∷ true ∷ [];
          written = wire;
          write_data = false;
        })
        (append_assoc s.written (size_line ∷ []) (header_line ∷ []))
