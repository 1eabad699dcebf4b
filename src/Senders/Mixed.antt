-- ===== src/Senders/Mixed.antt =====
-- Two threads that send headers at the same time.
use native.Mathlib.Decide.{ℕ_discrete}
use lora_multihop.Prelude.{ℕ, Text, codes, true, List, [], ◌∷◌, ok, ◌≡◌, refl, subst, arith}
use lora_multihop.SerialConnection.Answer.{Line}
use lora_multihop.SerialConnection.Verified.{Answers}
use lora_multihop.SerialConnection.{Connection, Entry, of_str, connected, terminated, write_round}
use lora_multihop.SerialConnection.Confirmed.{entry_of, round-answered}
use lora_multihop.Protocol.Transmit.{send_verify_list}
use lora_multihop.Protocol.Emission.{size_command, header_command}
use lora_multihop.Senders.{
  Pc, idle, called, announced, confirmed, handed, writes, calls, puts_size, ready, puts_header,
  System, moves, background, Reach, start, next, update,
}

-- A round of the writing thread leads to the connection that it computes to.
pub writes-Reach :
    {threads : ℕ} {port : List Line} (c d : Connection) (pc : ℕ → Pc)
    → write_round c ≡ d
    → Reach threads port (record { connection = c; pc = pc })
    → Reach threads port (record { connection = d; pc = pc })
writes-Reach {threads} {port} c d pc e r =
    subst (λ t. Reach threads port (record { connection = t; pc = pc })) e
      (next r (background writes))

module _ (a b : Text) (size_a size_b line_a line_b : Line)
    (port left_1 left_2 left_3 rest : List Line) where
  -- the connection with these entries to be written, after these lines
  abbrev stage : List Entry → List Line → List Line → Connection
  stage queue written left = record (connected port) {
    writing_q = queue;
    written = written;
    port = left;
  }

  -- The threads call at the same time, and put the sizes of their headers one after the other.
  abbrev both_announced : ℕ → Pc
  both_announced =
      update (update (update (update (λ _. idle) 0 (called a)) 1 (called b)) 0 (announced a)) 1
        (announced b)

  announced-Reach : Reach 2 port (record {
    connection = stage (entry_of (size_command a) ∷ entry_of (size_command b) ∷ []) [] port;
    pc = both_announced;
  })
  unfolding ℕ_discrete
  announced-Reach =
      next
        (next
          (next (next start (moves 0 (omega arith) (calls a))) (moves 1 (omega arith) (calls b)))
          (moves 0 (omega arith) puts_size))
        (moves 1 (omega arith) puts_size)

  -- Both sizes are confirmed, and both headers are put.
  abbrev both_handed : ℕ → Pc
  both_handed =
      update (update (update (update both_announced 0 (confirmed a)) 1 (confirmed b)) 0 (handed a))
        1 (handed b)

  handed-Reach :
      terminated (of_str (size_command a).text) ≡ ok size_a
      → terminated (of_str (size_command b).text) ≡ ok size_b
      → Answers (codes "AT,OK" ∷ []) port left_1
      → Answers (codes "AT,OK" ∷ []) left_1 left_2
      → Reach 2 port (record {
        connection =
            stage
              (entry_of (header_command a) ∷ entry_of (header_command b) ∷ [])
              (size_a ∷ size_b ∷ [])
              left_2;
        pc = both_handed;
      })
  unfolding ℕ_discrete
  handed-Reach wired_a wired_b first second =
      let one =
        writes-Reach _ _ both_announced
          (round-answered (of_str (size_command a).text) (codes "AT,OK") []
            (entry_of (size_command b) ∷ []) size_a port left_1 (stage [] [] port) wired_a first
            refl)
          announced-Reach in
      let two =
        writes-Reach _ _ both_announced
          (round-answered (of_str (size_command b).text) (codes "AT,OK") [] [] size_b left_1 left_2
            (record (stage [] (size_a ∷ []) left_1) { status_q = true ∷ [] }) wired_b second refl)
          one in
      next
        (next
          (next (next two (moves 0 (omega arith) (ready (true ∷ []) refl)))
            (moves 1 (omega arith) (ready [] refl)))
          (moves 0 (omega arith) puts_header))
        (moves 1 (omega arith) puts_header)

  -- Two threads that send headers over one connection, and a modem that confirms every command: for
  -- all headers that can be encoded there is a run in which both sizes are written before both
  -- headers, so that the modem takes the first header for the text of the second size, and both threads
  -- find the status `True`.
  pub headers-mixed :
      terminated (of_str (size_command a).text) ≡ ok size_a
      → terminated (of_str (size_command b).text) ≡ ok size_b
      → terminated (of_str a) ≡ ok line_a
      → terminated (of_str b) ≡ ok line_b
      → Answers (codes "AT,OK" ∷ []) port left_1
      → Answers (codes "AT,OK" ∷ []) left_1 left_2
      → Answers send_verify_list left_2 left_3
      → Answers send_verify_list left_3 rest
      → (s : System) × Reach 2 port s
        × (s.pc 0 ≡ handed a)
        × (s.pc 1 ≡ handed b)
        × (s.connection.status_q ≡ true ∷ true ∷ [])
        × (s.connection.written ≡ size_a ∷ size_b ∷ line_a ∷ line_b ∷ [])
  unfolding ℕ_discrete
  headers-mixed wired_a wired_b text_a text_b first second third fourth =
      let one =
        writes-Reach _ _ both_handed
          (round-answered (of_str a) (codes "AT,SENDING") (codes "AT,SENDED" ∷ [])
            (entry_of (header_command b) ∷ []) line_a left_2 left_3
            (stage [] (size_a ∷ size_b ∷ []) left_2) text_a third refl)
          (handed-Reach wired_a wired_b first second) in
      let two =
        writes-Reach _ _ both_handed
          (round-answered (of_str b) (codes "AT,SENDING") (codes "AT,SENDED" ∷ []) [] line_b left_3
            rest (record (stage [] (size_a ∷ size_b ∷ line_a ∷ []) left_3) { status_q = true ∷ [] })
            text_b fourth refl)
          one in
      (_, two, refl, refl, refl, refl)
