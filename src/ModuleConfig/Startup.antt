-- ===== src/ModuleConfig/Startup.antt =====
-- The start of the program.
use lora_multihop.Prelude.{
  length, sym, ◌∙◌, codes, Text, if◌then◌else◌, Bool, true, false, ◌&&◌, List, [], ◌∷◌, ◌++◌, some,
  Result, ok, raised, Exception, queue_empty, attribute_error, ◌≡◌, ◌⊎◌, refl, inl, inr, ap,
  Bool-cases,
}
use lora_multihop.SerialConnection.{
  Connection, Command, of_str, of_bytes, connected, write_round, terminated, send_line, judged,
}
use lora_multihop.SerialConnection.Answer.{Line, verify, str_to_bytes}
use lora_multihop.SerialConnection.Device.{
  Device, Outcome, returned, raises, waits, give, attempt, go_on, execute_command, put_command,
  get_status, get_response, await, listen, first_response, work_off, rounds, decoded, ◌>>=◌,
}
use lora_multihop.Variables.{status_ok, get_addr}
use lora_multihop.SerialConnection.{is_empty, read_round}
use lora_multihop.SerialConnection.Threads.{IsStuck}
use lora_multihop.Python.Utf8.{encode, encode_text, is_scalar, char_bytes}
use lora_multihop.ModuleConfig.{
  config_module, set_address, get_current_address, prepare, holds, address_in,
}
use lora_multihop.SerialConnection.Heard.{
  heard, heard-IsStuck, read-heard, listen-stuck, heard-some,
}

-- A call returns with both queues empty, or it raises `queue.Empty`.
abbrev Expected : {A : Type 0} → Outcome A × Connection → Type 0
Expected (returned a, s) = (s.status_q ≡ []) × (s.writing_q ≡ [])
Expected (raises e, s) = e ≡ queue_empty
Expected (waits, s) = ⊥

-- Behind a round of the writing thread: there is no status, or one, and no command is left.
abbrev Answered : Connection → Type 0
Answered s = (s.status_q ≡ []) ⊎ ((b : Bool) × (s.status_q ≡ b ∷ []) × (s.writing_q ≡ []))

judged-Answered :
    (r : Result Bool) (s : Connection) → s.status_q ≡ [] → s.writing_q ≡ [] → Answered (judged r s)
judged-Answered (ok b) s none_yet worked_off =
    inr (b, ap (λ (l : List Bool). l ++ b ∷ []) none_yet, worked_off)
judged-Answered (raised e) s none_yet worked_off = inl none_yet

sent-Answered :
    (r : Result Line) (entry : Text) (entries : List Text) (s : Connection)
    → s.status_q ≡ []
    → s.writing_q ≡ []
    → Answered (send_line r (entry ∷ entries) s)
sent-Answered (ok line) entry entries s none_yet worked_off =
    judged-Answered (verify true (entry ∷ entries) s.port).0 _ none_yet worked_off
sent-Answered (raised e) entry entries s none_yet worked_off = inl none_yet

round-Answered :
    (command : Command) (entry : Text) (entries : List Text) (s : Connection)
    → s.status_q ≡ []
    → Answered (
        write_round (record s {
          writing_q = record { command = command; verify_list = entry ∷ entries } ∷ [];
        }))
unfolding write_round
round-Answered command entry entries s none_yet =
    elim (Bool-cases (s.writing_thread_alive && s.writing_thread_active)) [
      | inl on ↦ rw on (sent-Answered (terminated command) entry entries _ none_yet refl)
      | inr off ↦ rw off (inl none_yet)
    ]

taken-Expected :
    (s : Connection) → Answered s → Expected ((get_status >>= λ status. give (some status)) s)
unfolding get_status ◌>>=◌ give
taken-Expected s (inl none_yet) = rw none_yet refl
taken-Expected s (inr (b, one, worked_off)) = rw one (refl, worked_off)

-- What every command with answers does, when both queues are empty before.
record Serves {A : Type 0} (m : Device A) : Type 0 where
  from : (s : Connection) → s.status_q ≡ [] → s.writing_q ≡ [] → Expected (m s)

execute-Serves :
    (command : Command) (entry : Text) (entries : List Text)
    → Serves (execute_command command (entry ∷ entries))
unfolding execute_command put_command work_off rounds ◌>>=◌
execute-Serves command entry entries = record {
  from = λ s none_yet worked_off.
      rw worked_off (taken-Expected _ (round-Answered command entry entries s none_yet));
}

give-Serves : {A : Type 0} (a : A) → Serves (give a)
unfolding give
give-Serves a = record { from = λ s none_yet worked_off. (none_yet, worked_off) }

go_on-Expected :
    {A B : Type 0} (rest : A → Device B) (r : Outcome A × Connection)
    → ((a : A) → Serves (rest a))
    → Expected r
    → Expected (go_on rest r)
go_on-Expected rest (returned a, s) serves h = (serves a).from s h.0 h.1
go_on-Expected rest (raises e, s) serves h = h
go_on-Expected rest (waits, s) serves h = h

bind-Serves :
    {A B : Type 0} (m : Device A) (rest : A → Device B)
    → Serves m
    → ((a : A) → Serves (rest a))
    → Serves (m >>= rest)
unfolding ◌>>=◌
bind-Serves m rest h serves = record {
  from = λ s none_yet worked_off. go_on-Expected rest (m s) serves (h.from s none_yet worked_off);
}

if-Serves :
    {A : Type 0} (b : Bool) (m n : Device A) → Serves m → Serves n → Serves (if b then m else n)
if-Serves true m n hm hn = hm
if-Serves false m n hm hn = hn

config_module-Serves : (configuration : Text) → Serves (config_module configuration)
unfolding config_module
config_module-Serves configuration =
    search (execute-Serves, give-Serves, bind-Serves, if-Serves) depth 12

-- A command of bytes gets no status.
bytes-unanswered :
    (bytes : Line) (entry : Text) (entries : List Text) (s : Connection)
    → s.status_q ≡ []
    → s.writing_q ≡ []
    → (execute_command (of_bytes bytes) (entry ∷ entries) s).0 ≡ raises queue_empty
unfolding execute_command put_command work_off rounds write_round terminated get_status ◌>>=◌
bytes-unanswered bytes entry entries s none_yet worked_off =
    rw worked_off (elim (Bool-cases (s.writing_thread_alive && s.writing_thread_active)) [
      | inl on ↦ rw (on, none_yet) refl
      | inr off ↦ rw (off, none_yet) refl
    ])

exception_of : {A : Type 0} → Exception → Outcome A → Exception
exception_of e (returned a) = e
exception_of e (raises x) = x
exception_of e waits = e

raises-first :
    {A B : Type 0} (rest : A → Device B) (r : Outcome A × Connection) (e : Exception)
    → r.0 ≡ raises e
    → (go_on rest r).0 ≡ raises e
unfolding exception_of
raises-first rest (returned a, s) e h = cc
raises-first rest (raises x, s) e h = ap raises (ap (exception_of e) h)
raises-first rest (waits, s) e h = cc

-- Setting the address of the modem never succeeds: with both queues empty, and an address that can be
-- encoded, the call ends with `queue.Empty`, whatever the modem sends.
pub set_address-raises :
    (address : Text) (bytes : Line) (s : Connection)
    → str_to_bytes (codes "AT+ADDR=" ++ address) ≡ ok bytes
    → s.status_q ≡ []
    → s.writing_q ≡ []
    → (set_address address s).0 ≡ raises queue_empty
unfolding set_address ◌>>=◌ attempt
set_address-raises address bytes s coded none_yet worked_off = rw coded (
    raises-first (λ done. give (holds done)) (execute_command (of_bytes bytes) (status_ok ∷ []) s)
      queue_empty (bytes-unanswered bytes status_ok [] s none_yet worked_off))

-- the connection when the writing thread has taken a command of bytes
abbrev pub dead : Connection → Connection
dead s = record s { writing_q = []; write_data = true; writing_thread_alive = false }

put-dead :
    (bytes : Line) (s : Connection)
    → s.writing_q ≡ []
    → (s.writing_thread_alive && s.writing_thread_active) ≡ true
    → put_command (of_bytes bytes) [] s ≡ (returned tt, dead s)
unfolding put_command work_off rounds write_round terminated
put-dead bytes s worked_off runs = rw (worked_off, runs) refl

abbrev answer_of : Text → Device Text
answer_of response = attempt (decoded (of_str response)) >>= λ addr. address_in addr

dead-response :
    (queue : List Text) (s : Connection)
    → IsStuck s
    → ((go_on answer_of (first_response queue s)).0
        ≡ (if is_empty queue then waits else raises attribute_error))
      × IsStuck (go_on answer_of (first_response queue s)).1
unfolding ◌>>=◌ attempt
dead-response [] s h = (refl, h)
dead-response (text ∷ later) s h = (refl, record { ended = h.ended; in_round = h.in_round })

await-fails :
    (behind : Bool) (queue : List Text) (s : Connection)
    → IsStuck s
    → s.response_q ≡ queue
    → ((go_on answer_of (await behind queue s)).0
        ≡ (if is_empty (heard behind s).response_q then waits else raises attribute_error))
      × IsStuck (go_on answer_of (await behind queue s)).1
unfolding ◌>>=◌ attempt
await-fails behind [] s h same =
    let all_read : listen (length s.port) (read_round behind s) ≡ heard behind s =
      ap (listen (length s.port)) (read-heard behind s h)
      ∙ listen-stuck (length s.port) (heard behind s) (heard-IsStuck behind s h) in
    rw all_read
      (dead-response (heard behind s).response_q (heard behind s) (heard-IsStuck behind s h))
await-fails behind (text ∷ later) s h same = (
  ap (λ (b : Bool). let r : Outcome Text = if b then waits else raises attribute_error in r)
      (sym (heard-some behind s.port s (ap is_empty same))),
  record { ended = h.ended; in_round = h.in_round },
)

get_addr-bytes : str_to_bytes get_addr ≡ ok (codes "AT+ADDR?")
unfolding str_to_bytes encode encode_text is_scalar char_bytes
get_addr-bytes = refl

address-bytes : str_to_bytes (codes "AT+ADDR=" ++ codes "0200") ≡ ok (codes "AT+ADDR=0200")
unfolding str_to_bytes encode encode_text is_scalar char_bytes
address-bytes = refl

-- Asking the modem for its address ends the writing thread in the middle of a round, and gives no
-- address. The call raises an `AttributeError` if a line has been received before, or if the reading
-- thread has passed its condition before and the next line can be decoded: this line it still reads.
-- Else the call waits for ever.
pub get_current_address-fails :
    (behind : Bool) (s : Connection)
    → s.writing_q ≡ []
    → (s.writing_thread_alive && s.writing_thread_active) ≡ true
    → ((get_current_address behind s).0
        ≡ (if is_empty (heard behind (dead s)).response_q then waits else raises attribute_error))
      × IsStuck (get_current_address behind s).1
unfolding get_current_address execute_command ◌>>=◌ attempt give get_response
get_current_address-fails behind s worked_off runs =
    let stuck : IsStuck (dead s) = record { ended = refl; in_round = refl } in
    rw (get_addr-bytes, put-dead _ s worked_off runs)
      (await-fails behind s.response_q (dead s) stuck refl)

-- The calls before the application is started end with `queue.Empty`, whatever the modem sends: the
-- program never gets to its sockets.
pub prepare-raises :
    (behind : Bool) (port : List Line) → (prepare behind (connected port)).0 ≡ raises queue_empty
unfolding prepare ◌>>=◌
prepare-raises behind port =
    by_outcome
      (config_module (codes "AT+CFG=433500000,20,9,7,1,1,0,0,0,0,3000,8,4") (connected port))
      ((config_module-Serves _).from (connected port) refl refl)
  where
    by_outcome :
        (r : Outcome Bool × Connection)
        → Expected r
        → (go_on (λ _. set_address (codes "0200") >>= λ _. get_current_address behind) r).0
          ≡ raises queue_empty
    by_outcome (returned done, s) h =
        raises-first _ (set_address (codes "0200") s) queue_empty
          (set_address-raises (codes "0200") (codes "AT+ADDR=0200") s address-bytes h.0 h.1)
    by_outcome (raises e, s) h = ap raises h
    by_outcome (waits, s) h = absurd h
