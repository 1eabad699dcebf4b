-- ===== src/Senders/Alone.antt =====
-- One thread that sends headers.
use native.Mathlib.Decide.{ℕ_discrete}
use lora_multihop.Prelude.{
  Text, Bool, true, false, List, [], ◌∷◌, ◌++◌, append_assoc, append-nil, Result, ok, raised, ◌≡◌,
  refl, sym, ap, ◌∙◌, arith, inl, inr, Bool-cases, if◌then◌else◌, ◌&&◌, ◌||◌, zero, suc, subst,
}
use lora_multihop.SerialConnection.Answer.{Line, verify, bytes_to_str}
use lora_multihop.SerialConnection.{
  Connection, Command, Entry, terminated, write_round, read_round, send_line, judged, stop_threads,
  received_line, read_first, condition_holds,
}
use lora_multihop.SerialConnection.Confirmed.{entry_of, entries_of}
use lora_multihop.SerialConnection.Threads.{wire, wire_of, wire-append}
use lora_multihop.Protocol.Emission.{size_command, header_command}
use lora_multihop.Protocol.Silence.{transmission}
use lora_multihop.Senders.{
  Pc, idle, called, announced, confirmed, handed, ended, put, Move, Background, writes, reads,
  arrives, takes_line, stops, calls, puts_size, ready, refused, size_timeout, puts_header, answered,
  header_timeout, System, Step, moves, background, Reach, start, next,
}

-- Nothing is to be written, and no status is left.
pub record IsQuiet (s : Connection) : Type 0 where
  pub empty_q : s.writing_q ≡ []
  pub no_status : s.status_q ≡ []

-- The last lines on the wire are those of these entries.
abbrev pub Ends : Connection → List Entry → Type 0
Ends s entries = (before : List Line) × (s.written ≡ before ++ wire entries)

-- An entry that is put behind others is not written yet; or it is written and has its status; or the
-- writing thread has ended over it, and no status will come.
pub data Waiting (s : Connection) (others : List Entry) (entry : Entry) : Type 0 where
  queued : s.writing_q ≡ entry ∷ [] → s.status_q ≡ [] → Ends s others → Waiting s others entry
  judged_as :
      (status : Bool)
      → s.writing_q ≡ []
      → s.status_q ≡ status ∷ []
      → Ends s (others ++ entry ∷ [])
      → Waiting s others entry
  lost : s.writing_q ≡ [] → s.status_q ≡ [] → Waiting s others entry

-- What holds of the connection where the thread stands.
abbrev Holds : Pc → Connection → Type 0
Holds idle s = IsQuiet s
Holds (called text) s = IsQuiet s
Holds (announced text) s = Waiting s [] (entry_of (size_command text))
Holds (confirmed text) s = IsQuiet s × Ends s (entry_of (size_command text) ∷ [])
Holds (handed text) s =
    Waiting s (entry_of (size_command text) ∷ []) (entry_of (header_command text))
Holds ended s = Unit

idle-write : (s : Connection) → s.writing_q ≡ [] → write_round s ≡ s
unfolding write_round
idle-write s h = elim (Bool-cases (s.writing_thread_alive && s.writing_thread_active)) [
  | inl on ↦ rw (on, h) refl
  | inr off ↦ rw off refl
]

module _ (others : List Entry) (command : Command) (first : Text) (more : List Text) where
  abbrev pending : Entry
  pending = record { command = command; verify_list = first ∷ more }

  judged-Waiting :
      (r : Result Bool) (line : Line) (s : Connection)
      → terminated command ≡ ok line
      → s.status_q ≡ []
      → Ends s others
      → Waiting
          (judged r (record s {
            writing_q = [];
            write_data = true;
            written = s.written ++ line ∷ [];
            port = (verify true (first ∷ more) s.port).1;
          }))
          others
          pending
  unfolding wire
  judged-Waiting (raised e) line s _ none_left ends = lost refl none_left
  judged-Waiting (ok status) line s wired none_left ends =
      judged_as status refl (ap (λ (q : List Bool). q ++ status ∷ []) none_left) (
        ends.0,
        ap (λ (lines : List Line). lines ++ line ∷ []) ends.1
            ∙ append_assoc ends.0 (wire others) (line ∷ [])
            ∙ ap (◌++◌ ends.0) (
                ap (λ (r : Result Line). wire others ++ (wire_of r ++ [])) (sym wired)
                ∙ sym (wire-append others (pending ∷ []))),
      )

  sent-Waiting :
      (r : Result Line) (s : Connection)
      → terminated command ≡ r
      → s.status_q ≡ []
      → Ends s others
      → Waiting
          (send_line r (first ∷ more) (record s { writing_q = []; write_data = true }))
          others
          pending
  sent-Waiting (raised e) s _ none_left ends = lost refl none_left
  sent-Waiting (ok line) s wired none_left ends =
      judged-Waiting (verify true (first ∷ more) s.port).0 line s wired none_left ends

  write-Waiting :
      (s : Connection) → Waiting s others pending → Waiting (write_round s) others pending
  unfolding write_round
  write-Waiting s (queued q none_left ends) =
      elim (Bool-cases (s.writing_thread_alive && s.writing_thread_active)) [
        | inl on ↦ rw (on, q) (sent-Waiting (terminated command) s refl none_left ends)
        | inr off ↦ rw off (queued q none_left ends)
      ]
  write-Waiting s (judged_as status q one ends) = rw (idle-write s q) (judged_as status q one ends)
  write-Waiting s (lost q none_left) = rw (idle-write s q) (lost q none_left)

-- What is to be written, what is written and the statuses are the same.
pub record Same (s t : Connection) : Type 0 where
  pub queue : t.writing_q ≡ s.writing_q
  pub statuses : t.status_q ≡ s.status_q
  pub lines : t.written ≡ s.written

Ends-Same : {s t : Connection} (entries : List Entry) → Same s t → Ends s entries → Ends t entries
Ends-Same entries same ends = (ends.0, same.lines ∙ ends.1)

IsQuiet-Same : {s t : Connection} → Same s t → IsQuiet s → IsQuiet t
IsQuiet-Same same quiet = record {
  empty_q = same.queue ∙ quiet.empty_q;
  no_status = same.statuses ∙ quiet.no_status;
}

Waiting-Same :
    {s t : Connection} (others : List Entry) (entry : Entry)
    → Same s t
    → Waiting s others entry
    → Waiting t others entry
Waiting-Same others entry same (queued q none_left ends) =
    queued (same.queue ∙ q) (same.statuses ∙ none_left) (Ends-Same others same ends)
Waiting-Same others entry same (judged_as status q one ends) =
    judged_as status (same.queue ∙ q) (same.statuses ∙ one)
      (Ends-Same (others ++ entry ∷ []) same ends)
Waiting-Same others entry same (lost q none_left) =
    lost (same.queue ∙ q) (same.statuses ∙ none_left)

Holds-Same : {s t : Connection} (p : Pc) → Same s t → Holds p s → Holds p t
Holds-Same idle same h = IsQuiet-Same same h
Holds-Same (called text) same h = IsQuiet-Same same h
Holds-Same (announced text) same h = Waiting-Same _ _ same h
Holds-Same (confirmed text) same h = (IsQuiet-Same same h.0, Ends-Same _ same h.1)
Holds-Same (handed text) same h = Waiting-Same _ _ same h
Holds-Same ended same h = tt

Holds-write : (p : Pc) (s : Connection) → Holds p s → Holds p (write_round s)
Holds-write idle s h = rw (idle-write s h.empty_q) h
Holds-write (called text) s h = rw (idle-write s h.empty_q) h
Holds-write (announced text) s h = write-Waiting [] _ _ _ s h
Holds-write (confirmed text) s h = rw (idle-write s h.0.empty_q) h
Holds-write (handed text) s h = write-Waiting (entry_of (size_command text) ∷ []) _ _ _ s h
Holds-write ended s h = tt

received-Same :
    (r : Result Text) (lines : List Line) (s : Connection)
    → Same s (received_line r (record s { port = lines }))
received-Same (ok text) lines s = record { queue = refl; statuses = refl; lines = refl }
received-Same (raised e) lines s = record { queue = refl; statuses = refl; lines = refl }

read_first-Same : (lines : List Line) (s : Connection) → Same s (read_first lines s)
read_first-Same [] s = record { queue = refl; statuses = refl; lines = refl }
read_first-Same (line ∷ later) s = received-Same (bytes_to_str line) later s

read-Same : (behind : Bool) (s : Connection) → Same s (read_round behind s)
unfolding read_round
read-Same behind s = by_test (behind || condition_holds s)
  where
    by_test : (b : Bool) → Same s (if b then read_first s.port s else s)
    by_test true = read_first-Same s.port s
    by_test false = record { queue = refl; statuses = refl; lines = refl }

Holds-Background : {s t : Connection} (p : Pc) → Background s t → Holds p s → Holds p t
unfolding stop_threads
Holds-Background {s} p writes h = Holds-write p s h
Holds-Background {s} p (reads behind) h = Holds-Same p (read-Same behind s) h
Holds-Background p (arrives line) h =
    Holds-Same p (record { queue = refl; statuses = refl; lines = refl }) h
Holds-Background p takes_line h =
    Holds-Same p (record { queue = refl; statuses = refl; lines = refl }) h
Holds-Background p stops h = Holds-Same p (record { queue = refl; statuses = refl; lines = refl }) h

-- the wait is over when a status is taken
taken :
    {s : Connection} {others : List Entry} {entry : Entry} (status : Bool) (later : List Bool)
    → s.status_q ≡ status ∷ later
    → Waiting s others entry
    → IsQuiet (record s { status_q = later }) × Ends s (others ++ entry ∷ [])
taken status later e (queued q none_left ends) = absurd (cc)
taken status later e (judged_as status' q one ends) = (record { empty_q = q; no_status = cc }, ends)
taken status later e (lost q none_left) = absurd (cc)

put-Waiting :
    {s : Connection} (others : List Entry) (entry : Entry)
    → IsQuiet s
    → Ends s others
    → Waiting (put entry s) others entry
put-Waiting others entry quiet ends =
    queued (ap (λ (q : List Entry). q ++ entry ∷ []) quiet.empty_q) quiet.no_status ends

Holds-Move : {s t : Connection} {p q : Pc} → Move s p t q → Holds p s → Holds q t
unfolding wire
Holds-Move (calls text) h = h
Holds-Move {s} puts_size h = put-Waiting [] _ h (s.written, sym (append-nil s.written))
Holds-Move (ready later e) h = taken true later e h
Holds-Move (refused later e) h = (taken false later e h).0
Holds-Move (size_timeout e) h = tt
Holds-Move puts_header h = put-Waiting _ _ h.0 h.1
Holds-Move (answered status later e) h = (taken status later e h).0
Holds-Move (header_timeout e) h = tt

Holds-Step : {s t : System} → Step 1 s t → Holds (s.pc 0) s.connection → Holds (t.pc 0) t.connection
unfolding ℕ_discrete
Holds-Step (moves zero lt move) h = Holds-Move move h
Holds-Step (moves (suc i) lt move) h = absurd (omega arith)
Holds-Step {s} (background b) h = Holds-Background (s.pc 0) b h

Holds-Reach : {port : List Line} {s : System} → Reach 1 port s → Holds (s.pc 0) s.connection
Holds-Reach start = record { empty_q = refl; no_status = refl }
Holds-Reach (next r step) = Holds-Step step (Holds-Reach r)

-- A single thread that sends headers, whatever the modem answers, whichever lines arrive and however
-- the rounds of the threads of the connection fall: when it finds a status for the header that it has
-- handed over, then the size of this header and right behind it the header itself are the last lines
-- that were written, nothing is left to be written, and there is no other status. So every status is
-- that of the command it is taken for.
pub alone-consecutive :
    (port : List Line) (s : System) (text : Text) (status : Bool) (later : List Bool)
    → Reach 1 port s
    → s.pc 0 ≡ handed text
    → s.connection.status_q ≡ status ∷ later
    → ((before : List Line) × (s.connection.written
          ≡ before ++ wire (entries_of (transmission (text ∷ [])))))
      × (s.connection.writing_q ≡ [])
      × (later ≡ [])
alone-consecutive port s text status later r at e =
    let h : Holds (handed text) s.connection =
      subst (λ p. Holds p s.connection) at (Holds-Reach r) in
    let (quiet, ends) = taken status later e h in (ends, quiet.empty_q, quiet.no_status)
