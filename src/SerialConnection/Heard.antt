-- ===== src/SerialConnection/Heard.antt =====
-- What the reading thread still reads after the writing thread has ended in the middle of a round.
use lora_multihop.Prelude.{
  ℕ, zero, suc, ◌∙◌, Text, if◌then◌else◌, Bool, true, false, List, [], ◌∷◌, ◌++◌, Result, ok,
  raised, ◌≡◌, refl, ap,
}
use lora_multihop.SerialConnection.{Connection}
use lora_multihop.SerialConnection.Answer.{bytes_to_str, Line}
use lora_multihop.SerialConnection.Device.{listen}
use lora_multihop.SerialConnection.{is_empty, read_first, received_line, read_round}
use lora_multihop.SerialConnection.Threads.{IsStuck, stuck-read}

-- A reading thread that is behind its condition reads one line more.
abbrev pub heard : Bool → Connection → Connection
heard behind s = if behind then read_first s.port s else s

received-IsStuck : (r : Result Text) (s : Connection) → IsStuck s → IsStuck (received_line r s)
received-IsStuck (ok text) s h = record { ended = h.ended; in_round = h.in_round }
received-IsStuck (raised e) s h = h

read_first-IsStuck : (lines : List Line) (s : Connection) → IsStuck s → IsStuck (read_first lines s)
read_first-IsStuck [] s h = h
read_first-IsStuck (line ∷ later) s h =
    received-IsStuck (bytes_to_str line) (record s { port = later })
      (record { ended = h.ended; in_round = h.in_round })

pub heard-IsStuck : (behind : Bool) (s : Connection) → IsStuck s → IsStuck (heard behind s)
heard-IsStuck false s h = h
heard-IsStuck true s h = read_first-IsStuck s.port s h

pub read-heard : (behind : Bool) (s : Connection) → IsStuck s → read_round behind s ≡ heard behind s
unfolding read_round
read-heard true s h = refl
read-heard false s h = stuck-read s h

pub listen-stuck : (n : ℕ) (s : Connection) → IsStuck s → listen n s ≡ s
unfolding listen
listen-stuck zero s h = refl
listen-stuck (suc n) s h = ap (listen n) (stuck-read s h) ∙ listen-stuck n s h

received-some :
    (r : Result Text) (s : Connection)
    → is_empty s.response_q ≡ false
    → is_empty (received_line r s).response_q ≡ false
received-some (ok text) s h = some_more s.response_q h
  where
    some_more : (queue : List Text) → is_empty queue ≡ false → is_empty (queue ++ text ∷ []) ≡ false
    some_more [] e = refl
    some_more (first ∷ later) e = refl
received-some (raised e) s h = h

pub heard-some :
    (behind : Bool) (lines : List Line) (s : Connection)
    → is_empty s.response_q ≡ false
    → is_empty (if behind then read_first lines s else s).response_q ≡ false
heard-some false lines s h = h
heard-some true [] s h = h
heard-some true (line ∷ later) s h = received-some (bytes_to_str line) (record s { port = later }) h
