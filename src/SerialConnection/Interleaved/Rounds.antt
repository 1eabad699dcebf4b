-- ===== src/SerialConnection/Interleaved/Rounds.antt =====
-- A round of the writing thread in which nothing else happens.
use lora_multihop.Prelude.{
  ℕ, zero, suc, Text, text_eq, Bool, true, ◌&&◌, List, [], ◌∷◌, ◌++◌, Result, ok, raised, ◌≡◌, refl,
  inl, inr, Bool-cases,
}
use lora_multihop.SerialConnection.Answer.{Line, read_status, verify, with_status}
use lora_multihop.SerialConnection.{
  Connection, Entry, terminated, write_round, write_first, send_line, check_answers, judged,
}
use lora_multihop.SerialConnection.Interleaved.{
  Writer, claimed, verifying, writer_step, write_line, verify_or_finish, compare,
}

-- The steps of the writing thread alone.
unfoldable pub steps : ℕ → Writer × Connection → Writer × Connection
steps zero f = f
steps (suc n) f = steps n (writer_step f.0 f.1)

-- the end of a round
abbrev RoundEnds : Writer × Connection → Connection → Type 0
RoundEnds f s = (n : ℕ) × (steps n f ≡ (Writer.watching, s))

one_more :
    (f : Writer × Connection) (s : Connection) → RoundEnds (writer_step f.0 f.1) s → RoundEnds f s
unfolding steps
one_more f s (n, e) = (suc n, e)

judged-ends :
    (successful : Bool) (s : Connection)
    → RoundEnds (verifying [] successful, s) (judged (ok successful) s)
unfolding writer_step steps
judged-ends successful s = (2, refl)

compared-ends :
    (entry : Text) (later : List Text) (successful : Bool) (r : Result Text × List Line)
    (s : Connection)
    → ((b : Bool) (t : Connection)
        → RoundEnds
            (verifying later b, t)
            (judged (verify b later t.port).0 (record t { port = (verify b later t.port).1 })))
    → let v =
        with_status (λ status left. verify (successful && text_eq entry status) later left) r in
      RoundEnds (compare entry later successful r s) (judged v.0 (record s { port = v.1 }))
unfolding steps
compared-ends entry later successful (ok status, left) s ih =
    ih (successful && text_eq entry status) (record s { port = left })
compared-ends entry later successful (raised e, left) s ih = (0, refl)

verified-ends :
    (entries : List Text) (successful : Bool) (s : Connection)
    → RoundEnds
        (verifying entries successful, s)
        (judged
          (verify successful entries s.port).0
          (record s { port = (verify successful entries s.port).1 }))
unfolding verify writer_step
verified-ends [] successful s = judged-ends successful s
verified-ends (entry ∷ later) successful s =
    one_more (verifying (entry ∷ later) successful, s) _
      (compared-ends entry later successful (read_status s.port) s (λ b t. verified-ends later b t))

checked-ends :
    (verify_list : List Text) (s : Connection)
    → RoundEnds (verify_or_finish verify_list s) (check_answers verify_list s)
unfolding writer_step steps
checked-ends [] s = (1, refl)
checked-ends (entry ∷ later) s = verified-ends (entry ∷ later) true s

sent-ends :
    (r : Result Line) (verify_list : List Text) (s : Connection)
    → RoundEnds (write_line r verify_list s) (send_line r verify_list s)
unfolding steps
sent-ends (ok line) verify_list s =
    checked-ends verify_list (record s { written = s.written ++ line ∷ [] })
sent-ends (raised e) verify_list s = (0, refl)

first-ends :
    (queue : List Entry) (s : Connection)
    → s.writing_thread_alive && s.writing_thread_active ≡ true
    → RoundEnds
        (Writer.watching, record s { writing_q = queue })
        (write_first queue (record s { writing_q = queue }))
unfolding writer_step steps
first-ends [] s on = (0, refl)
first-ends (entry ∷ later) s on =
    one_more (Writer.watching, record s { writing_q = entry ∷ later }) _
      (rw on (
        one_more (claimed, record s { writing_q = entry ∷ later; write_data = true }) _
          (sent-ends (terminated entry.command) entry.verify_list
            (record s { writing_q = later; write_data = true }))))

-- The steps of the writing thread are those of its round: from any connection, some number of steps of
-- this thread alone brings it back to the head of its loop, or to its end by an exception, with exactly
-- the connection that the round computes.
pub steps-round :
    (s : Connection) → (n : ℕ) × (steps n (Writer.watching, s) ≡ (Writer.watching, write_round s))
unfolding write_round steps
steps-round s = elim (Bool-cases (s.writing_thread_alive && s.writing_thread_active)) [
  | inl on ↦ rw on (first-ends s.writing_q s on)
  | inr off ↦ rw off (0, refl)
]
