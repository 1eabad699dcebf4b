-- ===== src/SerialConnection/Device.antt =====
-- src/lora_multihop/serial_connection.py: what the other threads call. While a caller waits, the two
-- threads of the connection have their rounds.
use lora_multihop.Prelude.{
  ℕ, zero, suc, Text, Bool, false, List, [], ◌∷◌, ◌++◌, Option, none, some, Result, ok, raised,
  Exception, queue_empty, attribute_error, length,
}
use lora_multihop.SerialConnection.Answer.{bytes_to_str}
use lora_multihop.SerialConnection.{Connection, Command, of_str, of_bytes, write_round, read_round}

-- What comes of a call: a value, an exception, or nothing, since it waits for ever.
pub data Outcome (A : Type 0) : Type 0 where
  returned : A → Outcome A
  raises : Exception → Outcome A
  waits : Outcome A

abbrev pub Device : Type 0 → Type 0
Device A = Connection → Outcome A × Connection

unfoldable pub give : {A : Type 0} → A → Device A
give a s = (returned a, s)

abbrev outcome_of : {A : Type 0} → Result A → Outcome A
outcome_of (ok a) = returned a
outcome_of (raised e) = raises e

unfoldable pub attempt : {A : Type 0} → Result A → Device A
attempt r s = (outcome_of r, s)

abbrev pub go_on : {A B : Type 0} → (A → Device B) → Outcome A × Connection → Outcome B × Connection
go_on rest (returned a, s) = rest a s
go_on rest (raises e, s) = (raises e, s)
go_on rest (waits, s) = (waits, s)

infixl 10 ◌>>=◌ ◌>>◌
unfoldable pub ◌>>=◌ : {A B : Type 0} → Device A → (A → Device B) → Device B
◌>>=◌ m rest s = go_on rest (m s)

abbrev pub ◌>>◌ : {A B : Type 0} → Device A → Device B → Device B
m >> n = m >>= λ _. n

unfoldable pub rounds : ℕ → Connection → Connection
rounds zero s = s
rounds (suc n) s = rounds n (write_round s)

-- The writing thread works off the queue.
unfoldable pub work_off : Connection → Connection
work_off s = rounds (length s.writing_q) s

-- `writing_q.put(...)`, which the writing thread takes up
unfoldable pub put_command : Command → List Text → Device (Unit {0})
put_command command verify_list s = (
  returned tt,
  work_off (record s {
    writing_q = s.writing_q ++ record { command = command; verify_list = verify_list } ∷ [];
  }),
)

abbrev first_status : List Bool → Connection → Outcome Bool × Connection
first_status [] s = (raises queue_empty, s)
first_status (status ∷ later) s = (returned status, record s { status_q = later })

-- `status_q.get(timeout=...)`
unfoldable pub get_status : Device Bool
get_status s = first_status s.status_q s

abbrev pub first_response : List Text → Connection → Outcome Text × Connection
first_response [] s = (waits, s)
first_response (text ∷ later) s = (returned text, record s { response_q = later })

-- The reading thread goes on reading while it may.
unfoldable pub listen : ℕ → Connection → Connection
listen zero s = s
listen (suc n) s = listen n (read_round false s)

abbrev pub await : Bool → List Text → Device Text
await behind [] s =
    let t = listen (length s.port) (read_round behind s) in first_response t.response_q t
await behind (text ∷ later) s = (returned text, record s { response_q = later })

-- `response_q.get(block)`, without a timeout. `behind` says that the reading thread has passed its
-- condition before the call, so that it reads a line in any case.
unfoldable pub get_response : Bool → Device Text
get_response behind s = await behind s.response_q s

abbrev status_if : List Text → Device (Option Bool)
status_if [] = give none
status_if (_ ∷ _) = get_status >>= λ status. give (some status)

unfoldable pub execute_command : Command → List Text → Device (Option Bool)
execute_command command verification_list =
    put_command command verification_list >>= λ _. status_if verification_list

-- `bytes_to_str` of what may be a `str` already, which has no `decode`
abbrev pub decoded : Command → Result Text
decoded (of_str text) = raised attribute_error
decoded (of_bytes bytes) = bytes_to_str bytes
