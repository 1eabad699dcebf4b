-- ===== src/SerialConnection/Interleaved/Waits.antt =====
-- The reading thread while a command is worked on.
use lora_multihop.Prelude.{
  Text, Bool, true, false, not, ◌&&◌, List, [], ◌∷◌, ◌++◌, Result, ok, raised, ◌≡◌, refl, sym, ap,
  ◌∙◌, arith, if◌then◌else◌, append_assoc,
}
use lora_multihop.SerialConnection.Answer.{Line, read_status, bytes_to_str}
use lora_multihop.SerialConnection.{
  Connection, Entry, terminated, stop_threads, is_empty, received_line, read_first,
}
use lora_multihop.SerialConnection.Threads.{after_first}
use lora_multihop.SerialConnection.Interleaved.{
  Reader, saw_empty, may_read, Writer, claimed, verifying, finishing, reader_step, writer_step,
  take_entry, write_line, verify_or_finish, compare, Threads, Step, reads, writes, put, arrives,
  takes_line, takes_status, stops, Reach, start, next,
}

-- The writing thread is between two heads of its loop.
abbrev pub is_working : Writer → Bool
is_working Writer.watching = false
is_working claimed = true
is_working (verifying _ _) = true
is_working finishing = true

-- While the writing thread works, `WRITE_DATA` is set.
abbrev Flagged : Writer → Connection → Type 0
Flagged w s = is_working w ≡ true → s.write_data ≡ true

finish-Flagged :
    (verify_list : List Text) (s : Connection)
    → s.write_data ≡ true
    → Flagged (verify_or_finish verify_list s).0 (verify_or_finish verify_list s).1
finish-Flagged [] s on _ = on
finish-Flagged (entry ∷ later) s on _ = on

write-Flagged :
    (r : Result Line) (verify_list : List Text) (s : Connection)
    → s.write_data ≡ true
    → Flagged (write_line r verify_list s).0 (write_line r verify_list s).1
write-Flagged (ok line) verify_list s on h =
    finish-Flagged verify_list (record s { written = s.written ++ line ∷ [] }) on h
write-Flagged (raised e) verify_list s on h = absurd (cc)

take-Flagged :
    (queue : List Entry) (s : Connection)
    → s.write_data ≡ true
    → Flagged (take_entry queue s).0 (take_entry queue s).1
take-Flagged [] s on _ = on
take-Flagged (entry ∷ later) s on h =
    write-Flagged (terminated entry.command) entry.verify_list (record s { writing_q = later }) on h

compare-Flagged :
    (entry : Text) (later : List Text) (successful : Bool) (r : Result Text × List Line)
    (s : Connection)
    → s.write_data ≡ true
    → Flagged (compare entry later successful r s).0 (compare entry later successful r s).1
compare-Flagged entry later successful (ok status, left) s on _ = on
compare-Flagged entry later successful (raised e, left) s on h = absurd (cc)

abbrev claim_if : Bool → Connection → Writer × Connection
claim_if b s = if b then (claimed, record s { write_data = true }) else (Writer.watching, s)

claim-Flagged : (b : Bool) (s : Connection) → Flagged (claim_if b s).0 (claim_if b s).1
claim-Flagged true s _ = refl
claim-Flagged false s working = absurd (cc)

writer-Flagged :
    (w : Writer) (s : Connection) → Flagged w s → Flagged (writer_step w s).0 (writer_step w s).1
unfolding writer_step
writer-Flagged Writer.watching s h k =
    claim-Flagged
      ((s.writing_thread_alive && s.writing_thread_active) && not (is_empty s.writing_q)) s k
writer-Flagged claimed s h k = take-Flagged s.writing_q s (h refl) k
writer-Flagged (verifying [] successful) s h k = h refl
writer-Flagged (verifying (entry ∷ later) successful) s h k =
    compare-Flagged entry later successful (read_status s.port) s (h refl) k
writer-Flagged finishing s h k = absurd (cc)

-- What the reading thread and the writing thread leave alone.
received-flag : (r : Result Text) (s : Connection) → (received_line r s).write_data ≡ s.write_data
received-flag (ok text) s = refl
received-flag (raised e) s = refl

read_first-flag :
    (lines : List Line) (s : Connection) → (read_first lines s).write_data ≡ s.write_data
read_first-flag [] s = refl
read_first-flag (line ∷ later) s = received-flag (bytes_to_str line) (record s { port = later })

reader-flag : (r : Reader) (s : Connection) → (reader_step r s).1.write_data ≡ s.write_data
unfolding reader_step
reader-flag Reader.watching s = ground arith
reader-flag saw_empty s = ground arith
reader-flag may_read s = read_first-flag s.port s

Flagged-Step :
    {f g : Threads} → Step f g → Flagged f.writer f.connection → Flagged g.writer g.connection
unfolding stop_threads
Flagged-Step {f} reads h = λ k. reader-flag f.reader f.connection ∙ h k
Flagged-Step {f} writes h = writer-Flagged f.writer f.connection h
Flagged-Step (put entry) h = h
Flagged-Step (arrives line) h = h
Flagged-Step takes_line h = h
Flagged-Step takes_status h = h
Flagged-Step stops h = h

Flagged-Reach : {port : List Line} {f : Threads} → Reach port f → Flagged f.writer f.connection
Flagged-Reach start = λ k. absurd (cc)
Flagged-Reach (next r step) = Flagged-Step step (Flagged-Reach r)

-- The reading thread has passed its condition.
abbrev pub is_behind : Reader → Bool
is_behind Reader.watching = false
is_behind saw_empty = false
is_behind may_read = true

-- Any steps, as long as the writing thread is in a round.
pub data During (f : Threads) : Threads → Type 0 where
  here : During f f
  goes_on : {g h : Threads} → During f g → is_working g.writer ≡ true → Step g h → During f h

compared-responses :
    (entry : Text) (later : List Text) (successful : Bool) (r : Result Text × List Line)
    (s : Connection)
    → (compare entry later successful r s).1.response_q ≡ s.response_q
compared-responses entry later successful (ok status, left) s = refl
compared-responses entry later successful (raised e, left) s = refl

finished-responses :
    (verify_list : List Text) (s : Connection)
    → (verify_or_finish verify_list s).1.response_q ≡ s.response_q
finished-responses [] s = refl
finished-responses (entry ∷ later) s = refl

written-responses :
    (r : Result Line) (verify_list : List Text) (s : Connection)
    → (write_line r verify_list s).1.response_q ≡ s.response_q
written-responses (ok line) verify_list s =
    finished-responses verify_list (record s { written = s.written ++ line ∷ [] })
written-responses (raised e) verify_list s = refl

taken-responses :
    (queue : List Entry) (s : Connection) → (take_entry queue s).1.response_q ≡ s.response_q
taken-responses [] s = refl
taken-responses (entry ∷ later) s =
    written-responses (terminated entry.command) entry.verify_list (record s { writing_q = later })

writer-responses : (w : Writer) (s : Connection) → (writer_step w s).1.response_q ≡ s.response_q
unfolding writer_step
writer-responses Writer.watching s = ground arith
writer-responses claimed s = taken-responses s.writing_q s
writer-responses (verifying [] successful) s = refl
writer-responses (verifying (entry ∷ later) successful) s =
    compared-responses entry later successful (read_status s.port) s
writer-responses finishing s = refl

-- The reading thread may find the queue empty, but then finds the flag set.
abbrev look_if : Bool → Connection → Reader × Connection
look_if b s = if b then (saw_empty, s) else (Reader.watching, s)

looks : (b : Bool) (s : Connection) → (is_behind (look_if b s).0 ≡ false) × ((look_if b s).1 ≡ s)
looks true s = (refl, refl)
looks false s = (refl, refl)

reader-watches :
    (r : Reader) (s : Connection)
    → s.write_data ≡ true
    → is_behind r ≡ false
    → (is_behind (reader_step r s).0 ≡ false) × ((reader_step r s).1 ≡ s)
unfolding reader_step
reader-watches Reader.watching s flagged at =
    looks ((s.reading_thread_alive && s.reading_thread_active) && is_empty s.writing_q) s
reader-watches saw_empty s flagged at = rw flagged (refl, refl)
reader-watches may_read s flagged at = absurd (cc)

-- The responses of the second are those of the first without some that were taken.
abbrev pub Fewer : Threads → Threads → Type 0
Fewer f g = (taken : List Text) × (f.connection.response_q ≡ taken ++ g.connection.response_q)

first-Fewer : (texts : List Text) → (taken : List Text) × (texts ≡ taken ++ after_first texts)
first-Fewer [] = ([], refl)
first-Fewer (text ∷ texts) = (text ∷ [], refl)

waits-Step :
    {f g : Threads}
    → Flagged f.writer f.connection
    → is_behind f.reader ≡ false
    → is_working f.writer ≡ true
    → Step f g
    → (is_behind g.reader ≡ false) × Fewer f g
unfolding stop_threads
waits-Step {f} flagged at on reads =
    let (there, same) = reader-watches f.reader f.connection (flagged on) at in
    (there, ([], ap (λ (s : Connection). s.response_q) (sym same)))
waits-Step {f} flagged at on writes = (at, ([], sym (writer-responses f.writer f.connection)))
waits-Step flagged at on (put entry) = (at, ([], refl))
waits-Step flagged at on (arrives line) = (at, ([], refl))
waits-Step {f} flagged at on takes_line =
    let (taken, e) = first-Fewer f.connection.response_q in (at, (taken, e))
waits-Step flagged at on takes_status = (at, ([], refl))
waits-Step flagged at on stops = (at, ([], refl))

-- A reading thread that has not passed its condition while the writing thread works on a command, in
-- any state that the threads can reach: as long as the writing thread is in this round, whatever
-- happens, the reading thread does not pass its condition, and nothing is put into the queue of
-- responses, from which others may take. So every answer is left to the writing thread.
pub reader-waits :
    (port : List Line) (f g : Threads)
    → Reach port f
    → is_behind f.reader ≡ false
    → During f g
    → (is_behind g.reader ≡ false)
      × (taken : List Text) × (f.connection.response_q ≡ taken ++ g.connection.response_q)
reader-waits port f g r at run = let k = waits run in (k.1, k.2.0, k.2.1)
  where
    waits :
        {g : Threads}
        → During f g
        → Flagged g.writer g.connection × (is_behind g.reader ≡ false) × Fewer f g
    waits here = (Flagged-Reach r, at, ([], refl))
    waits (goes_on {g} before on step) =
        let (flagged, at', (taken, e)) = waits before in
        let (at'', (taken', e')) = waits-Step flagged at' on step in
        (
          Flagged-Step step flagged,
          at'',
          (taken ++ taken', e ∙ ap (◌++◌ taken) e' ∙ sym (append_assoc taken taken' _)),
        )
