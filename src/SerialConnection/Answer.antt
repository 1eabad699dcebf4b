-- ===== src/SerialConnection/Answer.antt =====
-- src/lora_multihop/serial_connection.py: the text of a line, and the answers to a command.
use lora_multihop.Prelude.{
  ℕ, Text, text_eq, codes, if◌then◌else◌, Bool, ◌&&◌, List, [], ◌∷◌, Result, ok, raised,
}
use lora_multihop.Prelude.Bind.{◌>>=◌}
use lora_multihop.Python.Utf8.{encode, decode}
use lora_multihop.Python.Number.{strip}
use lora_multihop.Python.Find.{occurs}

-- What `ser.readline()` returns, or `ser.write(...)` is given.
abbrev pub Line : Type 0
Line = List ℕ

unfoldable pub bytes_to_str : Line → Result Text
bytes_to_str message_in_bytes = decode message_in_bytes

unfoldable pub str_to_bytes : Text → Result Line
str_to_bytes string_to_convert = encode string_to_convert

-- `ser.readline()`: nothing is left when the timeout has passed.
abbrev pub next_line : List Line → Line
next_line [] = []
next_line (line ∷ later) = line

abbrev pub lines_behind : List Line → List Line
lines_behind [] = []
lines_behind (line ∷ later) = later

-- `bytes_to_str(line).strip()`
unfoldable pub status_of : Line → Result Text
status_of line = do text ← bytes_to_str line; ok (strip text)

-- whether a status is a message that has come in between
unfoldable pub is_message : Text → Bool
is_message status = occurs (codes "LR") status

abbrev pub behind_message : Result Text → List Line → Result Text × List Line
behind_message (raised e) lines = (raised e, lines)
behind_message (ok status) lines =
    if is_message status
    then (status_of (next_line lines), lines_behind lines)
    else (ok status, lines)

-- The status that is compared with an entry: the second one if the first is a message.
unfoldable pub read_status : List Line → Result Text × List Line
read_status lines = behind_message (status_of (next_line lines)) (lines_behind lines)

-- Goes on with the status that was read, unless reading raised.
abbrev pub with_status :
    (Text → List Line → Result Bool × List Line) → Result Text × List Line → Result Bool × List Line
with_status go (ok status, left) = go status left
with_status go (raised e, left) = (raised e, left)

-- The loop over `verify_list`, which reads on when an entry is not met.
unfoldable pub verify : Bool → List Text → List Line → Result Bool × List Line
verify successful [] lines = (ok successful, lines)
verify successful (entry ∷ later) lines =
    with_status (λ status left. verify (successful && text_eq entry status) later left)
      (read_status lines)
