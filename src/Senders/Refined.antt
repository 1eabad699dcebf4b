-- ===== src/Senders/Refined.antt =====
-- `send_header` of src/lora_multihop/protocol.py as one thread carries it out, a shared access at a
-- time, and as the action on a node: what the node's sequence of statuses stands for.
use native.Mathlib.Decide.{ℕ_discrete}
use mathlib.Core.Logic.{ite}
use lora_multihop.Prelude.{
  ℕ, Text, Bool, true, false, List, [], ◌++◌, Result, ok, raised, queue_empty, ◌≡◌, sym, subst,
}
use lora_multihop.Node.{Node, Command}
use lora_multihop.Protocol.Transmit.{send_header}
use lora_multihop.SerialConnection.{Connection}
use lora_multihop.Senders.{
  Move, Pc, idle, called, announced, confirmed, handed, ended, System, Step, moves, background,
}
use lora_multihop.Senders.Simulated.{
  Call, returns, times_out, goes_on, taken_by, put_by, in_call, no_call, Call-remaining,
}

-- What a call that is over came to.
abbrev pub outcome : Pc → Result (Unit {0})
outcome ended = raised queue_empty
outcome p = ok tt

-- The steps of a system until the call of one thread is over.
pub data Busy (threads i : ℕ) : System → System → Type 0 where
  over : {s : System} → in_call (s.pc i) ≡ false → Busy threads i s s
  busy :
      {s t u : System}
      → in_call (s.pc i) ≡ true
      → Step threads s t
      → Busy threads i t u
      → Busy threads i s u

over-Call : (p : Pc) → in_call p ≡ false → Call p (outcome p) [] []
over-Call idle h = returns
over-Call ended h = times_out
over-Call (called text) h = absurd (no_call (sym h))
over-Call (announced text) h = absurd (no_call (sym h))
over-Call (confirmed text) h = absurd (no_call (sym h))
over-Call (handed text) h = absurd (no_call (sym h))

-- The statuses that the thread itself takes in these steps, in their order: those of its own moves.
abbrev pub taken_in : {threads i : ℕ} {s u : System} → Busy threads i s u → List Bool
taken_in (over h) = []
taken_in (busy inside (background b) rest) = taken_in rest
taken_in {i} (busy inside (moves j lt m) rest) =
    ite (ℕ_discrete j i) (taken_by m ++ taken_in rest) (taken_in rest)

-- The commands that it puts.
abbrev pub put_in : {threads i : ℕ} {s u : System} → Busy threads i s u → List Command
put_in (over h) = []
put_in (busy inside (background b) rest) = put_in rest
put_in {i} (busy inside (moves j lt m) rest) =
    ite (ℕ_discrete j i) (put_by m ++ put_in rest) (put_in rest)

-- A move of a thread is that of this thread, or leaves it where it stands.
moved-Call :
    {i j : ℕ} {s t : Connection} {p : Pc} {r : Result (Unit {0})} {statuses : List Bool}
    {commands : List Command} (f : ℕ → Pc) (m : Move s (f j) t p) (d : Dec (j ≡ i))
    → in_call (f i) ≡ true
    → Call (ite d p (f i)) r statuses commands
    → Call (f i) r (ite d (taken_by m ++ statuses) statuses) (ite d (put_by m ++ commands) commands)
moved-Call {r} {statuses} {commands} f m (yes mine) inside call =
    subst (λ k. Call (f k) r (taken_by m ++ statuses) (put_by m ++ commands)) mine
      (goes_on m (subst (λ k. in_call (f k) ≡ true) (sym mine) inside) call)
moved-Call f m (no other) inside call = call

-- The moves of a thread among the steps of a system make up a call.
Busy-Call :
    {threads i : ℕ} {s u : System} (run : Busy threads i s u)
    → Call (s.pc i) (outcome (u.pc i)) (taken_in run) (put_in run)
Busy-Call {i} {s} (over h) = over-Call (s.pc i) h
Busy-Call (busy inside (background b) rest) = Busy-Call rest
Busy-Call {i} {s} (busy inside (moves j lt m) rest) =
    moved-Call s.pc m (ℕ_discrete j i) inside (Busy-Call rest)

-- Any thread that calls `send_header`, in any run of the system until its call is over, whatever the
-- other threads, the connection and the modem do between its accesses: with the statuses that the
-- thread takes in this run as the next ones of a node, the action on the node puts the commands that
-- the thread puts in this run, uses up exactly these statuses, and returns or raises `queue.Empty` as
-- the thread does. Where the thread runs into a timeout, the node has no further statuses.
pub send_header-refined :
    (threads i : ℕ) (text : Text) (s u : System) (n : Node) (later : List Bool)
    (run : Busy threads i s u)
    → s.pc i ≡ called text
    → (outcome (u.pc i) ≡ raised queue_empty → later ≡ [])
    → send_header text (record n { status_q = taken_in run ++ later })
      ≡ (outcome (u.pc i), record n { writing_q = n.writing_q ++ put_in run; status_q = later })
send_header-refined threads i text s u n later run at last =
    Call-remaining later n
      (subst (λ p. Call p (outcome (u.pc i)) (taken_in run) (put_in run)) at (Busy-Call run)) last
