-- ===== src/SerialConnection/Threads.antt =====
-- The rounds of the two threads in any order, with other threads at the queues.
use lora_multihop.Prelude.{
  Text, if◌then◌else◌, Bool, true, false, not, ◌&&◌, ◌||◌, List, [], ◌∷◌, ◌++◌, append_assoc,
  append-nil, Result, ok, raised, ◌≡◌, refl, sym, ap, ◌∙◌, arith, inl, inr, Bool-cases,
}
use lora_multihop.SerialConnection.Answer.{Line, verify, bytes_to_str}
use lora_multihop.SerialConnection.{
  Connection, Entry, terminated, write_round, read_round, write_first, read_first, send_line,
  check_answers, judged, received_line, stop_threads, is_empty, condition_holds,
}

abbrev pub after_first {ℓ} : {A : Type ℓ} → List A → List A
after_first [] = []
after_first (x ∷ xs) = xs

-- What may happen next: a round of a thread, a command that is put, a line that the modem sends, a
-- line or a status that is taken, and the end of both loops. `puts` are the commands that were put.
pub data Step (s : Connection) : List Entry → Connection → Type 0 where
  writes : Step s [] (write_round s)
  reads : (behind : Bool) → Step s [] (read_round behind s)
  put : (entry : Entry) → Step s (entry ∷ []) (record s { writing_q = s.writing_q ++ entry ∷ [] })
  arrives : (line : Line) → Step s [] (record s { port = s.port ++ line ∷ [] })
  takes_line : Step s [] (record s { response_q = after_first s.response_q })
  takes_status : Step s [] (record s { status_q = after_first s.status_q })
  stops : Step s [] (stop_threads s)

pub data Run (s : Connection) : List Entry → Connection → Type 0 where
  here : Run s [] s
  next :
      {puts more : List Entry} {t u : Connection}
      → Run s puts t
      → Step t more u
      → Run s (puts ++ more) u

-- What a command puts on the wire: its bytes behind the terminator, or nothing where that raises.
abbrev pub wire_of : Result Line → List Line
wire_of (ok line) = line ∷ []
wire_of (raised _) = []

unfoldable pub wire : List Entry → List Line
wire [] = []
wire (entry ∷ later) = wire_of (terminated entry.command) ++ wire later

pub wire-append : (xs ys : List Entry) → wire (xs ++ ys) ≡ wire xs ++ wire ys
unfolding wire
wire-append [] ys = refl
wire-append (x ∷ xs) ys =
    ap (◌++◌ (wire_of (terminated x.command))) (wire-append xs ys)
    ∙ sym (append_assoc (wire_of (terminated x.command)) (wire xs) (wire ys))

-- What is written, and then what the queue will write.
abbrev pub on_wire : Connection → List Line
on_wire s = s.written ++ wire s.writing_q

checked-written :
    (verify_list : List Text) (s : Connection)
    → ((check_answers verify_list s).written ≡ s.written)
      × ((check_answers verify_list s).writing_q ≡ s.writing_q)
checked-written [] s = (refl, refl)
checked-written (entry ∷ later) s = ends (verify true (entry ∷ later) s.port).0
  where
    ends :
        (r : Result Bool)
        → ((judged r (record s { port = (verify true (entry ∷ later) s.port).1 })).written
            ≡ s.written)
          × ((judged r (record s { port = (verify true (entry ∷ later) s.port).1 })).writing_q
              ≡ s.writing_q)
    ends (ok successful) = (refl, refl)
    ends (raised e) = (refl, refl)

sent-wire :
    (r : Result Line) (verify_list : List Text) (s : Connection)
    → on_wire (send_line r verify_list s) ≡ s.written ++ (wire_of r ++ wire s.writing_q)
sent-wire (ok line) verify_list s =
    let (same, queue) =
      checked-written verify_list (record s { written = s.written ++ line ∷ [] }) in
    rw (same, queue) (append_assoc s.written (line ∷ []) (wire s.writing_q))
sent-wire (raised e) verify_list s = refl

first-wire :
    (queue : List Entry) (s : Connection)
    → on_wire (write_first queue (record s { writing_q = queue })) ≡ s.written ++ wire queue
unfolding wire
first-wire [] s = refl
first-wire (entry ∷ later) s =
    sent-wire (terminated entry.command) entry.verify_list
      (record s { writing_q = later; write_data = true })

write-wire : (s : Connection) → on_wire (write_round s) ≡ on_wire s
unfolding write_round
write-wire s = elim (Bool-cases (s.writing_thread_alive && s.writing_thread_active)) [
  | inl on ↦ rw on (first-wire s.writing_q s)
  | inr off ↦ rw off refl
]

received-wire : (r : Result Text) (s : Connection) → on_wire (received_line r s) ≡ on_wire s
received-wire (ok text) s = refl
received-wire (raised e) s = refl

read_first-wire : (lines : List Line) (s : Connection) → on_wire (read_first lines s) ≡ on_wire s
read_first-wire [] s = refl
read_first-wire (line ∷ later) s = received-wire (bytes_to_str line) (record s { port = later })

read-wire : (behind : Bool) (s : Connection) → on_wire (read_round behind s) ≡ on_wire s
unfolding read_round
read-wire behind s = by_test (behind || condition_holds s)
  where
    by_test : (b : Bool) → on_wire (if b then read_first s.port s else s) ≡ on_wire s
    by_test true = read_first-wire s.port s
    by_test false = refl

Step-wire :
    {s t : Connection} {puts : List Entry} → Step s puts t → on_wire t ≡ on_wire s ++ wire puts
unfolding wire stop_threads
Step-wire {s} writes = write-wire s ∙ sym (append-nil (on_wire s))
Step-wire {s} (reads behind) = read-wire behind s ∙ sym (append-nil (on_wire s))
Step-wire {s} (put entry) =
    ap (◌++◌ s.written) (wire-append s.writing_q (entry ∷ []))
    ∙ sym (append_assoc s.written (wire s.writing_q) (wire (entry ∷ [])))
Step-wire {s} (arrives line) = sym (append-nil (on_wire s))
Step-wire {s} takes_line = sym (append-nil (on_wire s))
Step-wire {s} takes_status = sym (append-nil (on_wire s))
Step-wire {s} stops = sym (append-nil (on_wire s))

Run-wire :
    {s t : Connection} {puts : List Entry} → Run s puts t → on_wire t ≡ on_wire s ++ wire puts
unfolding wire
Run-wire {s} here = sym (append-nil (on_wire s))
Run-wire {s} (next {puts} {more} r step) =
    Step-wire step
    ∙ ap (λ (lines : List Line). lines ++ wire more) (Run-wire r)
    ∙ append_assoc (on_wire s) (wire puts) (wire more)
    ∙ ap (◌++◌ (on_wire s)) (sym (wire-append puts more))

-- Whatever the threads do and in whichever order: what is written to the modem, followed by what the
-- queue will write, is what was there before, followed by the commands that were put, in their order.
-- So no command is lost, doubled or overtaken, but one that cannot be turned into bytes is dropped.
pub Run-fifo :
    (s t : Connection) (puts : List Entry)
    → Run s puts t
    → t.written ++ wire t.writing_q ≡ (s.written ++ wire s.writing_q) ++ wire puts
Run-fifo s t puts r = Run-wire r

-- The writing thread has ended in the middle of a round.
pub record IsStuck (s : Connection) : Type 0 where
  pub ended : s.writing_thread_alive ≡ false
  pub in_round : s.write_data ≡ true

stopped : (a b : Bool) {c : Bool} → c ≡ true → (a && (b && not c)) ≡ false
stopped a b h = ground arith

-- The condition of the reading thread fails from then on.
pub stuck-read : (s : Connection) → IsStuck s → read_round false s ≡ s
unfolding read_round
stuck-read s h =
    ap (λ (b : Bool). if b then read_first s.port s else s)
      (stopped (s.reading_thread_alive && s.reading_thread_active) (is_empty s.writing_q)
        h.in_round)
