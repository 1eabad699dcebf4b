-- ===== src/Senders/Simulated.antt =====
-- One call of `send_header`, a shared access at a time, and the action of the protocol.
use lora_multihop.Prelude.{
  Bool, true, false, List, [], ◌∷◌, ◌++◌, append_assoc, append-nil, Result, ok, raised, queue_empty,
  ◌≡◌, refl, sym, ap, ◌∙◌,
}
use lora_multihop.Node.{Node, Command}
use lora_multihop.Node.Action.{Action, pure, when, ◌>>=◌, ◌>>◌}
use lora_multihop.SerialConnection.{Connection}
use lora_multihop.SerialConnection.Confirmed.{entries_of}
use lora_multihop.Protocol.Transmit.{send_header, put_command, get_status, send_verify_list}
use lora_multihop.Protocol.Emission.{size_command, header_command}
use lora_multihop.Senders.{
  Pc, idle, called, announced, confirmed, handed, ended, Move, calls, puts_size, ready, refused,
  size_timeout, puts_header, answered, header_timeout,
}

-- The statuses that a move takes, and the commands that it puts.
abbrev pub taken_by : {s t : Connection} {p q : Pc} → Move s p t q → List Bool
taken_by (ready later e) = true ∷ []
taken_by (refused later e) = false ∷ []
taken_by (answered status later e) = status ∷ []
taken_by (calls text) = []
taken_by puts_size = []
taken_by (size_timeout e) = []
taken_by puts_header = []
taken_by (header_timeout e) = []

abbrev pub put_by : {s t : Connection} {p q : Pc} → Move s p t q → List Command
put_by (puts_size {text}) = size_command text ∷ []
put_by (puts_header {text}) = header_command text ∷ []
put_by (calls text) = []
put_by (ready later e) = []
put_by (refused later e) = []
put_by (answered status later e) = []
put_by (size_timeout e) = []
put_by (header_timeout e) = []

-- That is what happens to the queues of the connection.
Move-queues :
    {s t : Connection} {p q : Pc} (m : Move s p t q)
    → (s.status_q ≡ taken_by m ++ t.status_q) × (t.writing_q ≡ s.writing_q ++ entries_of (put_by m))
Move-queues (ready later e) = (e, sym (append-nil _))
Move-queues (refused later e) = (e, sym (append-nil _))
Move-queues (answered status later e) = (e, sym (append-nil _))
Move-queues (calls text) = (refl, sym (append-nil _))
Move-queues puts_size = (refl, refl)
Move-queues puts_header = (refl, refl)
Move-queues (size_timeout e) = (refl, sym (append-nil _))
Move-queues (header_timeout e) = (refl, sym (append-nil _))

abbrev pub in_call : Pc → Bool
in_call idle = false
in_call (called text) = true
in_call (announced text) = true
in_call (confirmed text) = true
in_call (handed text) = true
in_call ended = false

-- The rest of a call of one thread: its moves, each on the connection that it finds, whatever the other
-- threads and the modem have done meanwhile. The statuses are those that it takes and the commands
-- those that it puts, in their order.
pub data Call : Pc → Result (Unit {0}) → List Bool → List Command → Type 0 where
  returns : Call idle (ok tt) [] []
  times_out : Call ended (raised queue_empty) [] []
  goes_on :
      {s t : Connection} {p q : Pc} {r : Result (Unit {0})} {statuses : List Bool}
      {commands : List Command} (m : Move s p t q)
      → in_call p ≡ true
      → Call q r statuses commands
      → Call p r (taken_by m ++ statuses) (put_by m ++ commands)

-- What `send_header` still does where the thread stands.
abbrev remaining : Pc → Action (Unit {0})
remaining idle = pure tt
remaining (called text) = send_header text
remaining (announced text) = do
  is_ready ← get_status
  when is_ready (do put_command text send_verify_list; sent ← get_status; pure tt)
remaining (confirmed text) = do put_command text send_verify_list; sent ← get_status; pure tt
remaining (handed text) = do sent ← get_status; pure tt
remaining ended = λ s. (raised queue_empty, s)

abbrev node_with : Node → List Command → List Bool → Node
node_with n commands statuses = record n { writing_q = commands; status_q = statuses }

-- A move that puts nothing.
silent-remaining :
    (p : Pc) (later : List Bool) (n : Node)
    → remaining p (node_with n n.writing_q later)
      ≡ remaining p (node_with n (n.writing_q ++ []) later)
silent-remaining p later n =
    ap (λ commands. remaining p (node_with n commands later)) (sym (append-nil n.writing_q))

-- A move takes a step of the action.
Move-remaining :
    {s t : Connection} {p q : Pc} (m : Move s p t q) (later : List Bool) (n : Node)
    → in_call p ≡ true
    → (q ≡ ended → later ≡ [])
    → remaining p (node_with n n.writing_q (taken_by m ++ later))
      ≡ remaining q (node_with n (n.writing_q ++ put_by m) later)
unfolding send_header put_command get_status ◌>>=◌
Move-remaining (calls text) later n inside last = cc
Move-remaining puts_size later n inside last = refl
Move-remaining (ready {text} others e) later n inside last =
    silent-remaining (confirmed text) later n
Move-remaining (refused others e) later n inside last = silent-remaining idle later n
Move-remaining (size_timeout e) later n inside last = rw (last refl) (silent-remaining ended [] n)
Move-remaining puts_header later n inside last = refl
Move-remaining (answered status others e) later n inside last = silent-remaining idle later n
Move-remaining (header_timeout e) later n inside last = rw (last refl) (silent-remaining ended [] n)

pub no_call : false ≡ true → ⊥
no_call e = cc

-- A thread that has run into a timeout takes no more.
Call-ended :
    {q : Pc} {r : Result (Unit {0})} {statuses : List Bool} {commands : List Command}
    (later : List Bool)
    → Call q r statuses commands
    → (r ≡ raised queue_empty → later ≡ [])
    → q ≡ ended
    → statuses ++ later ≡ []
Call-ended later returns last at = cc
Call-ended later times_out last at = last refl
Call-ended later (goes_on {p} m inside rest) last at =
    absurd (no_call (sym (ap in_call at) ∙ inside))

pub Call-remaining :
    {p : Pc} {r : Result (Unit {0})} {statuses : List Bool} {commands : List Command}
    (later : List Bool) (n : Node)
    → Call p r statuses commands
    → (r ≡ raised queue_empty → later ≡ [])
    → remaining p (node_with n n.writing_q (statuses ++ later))
      ≡ (r, node_with n (n.writing_q ++ commands) later)
unfolding pure
Call-remaining later n returns last = silent-remaining idle later n
Call-remaining later n times_out last = silent-remaining ended later n
Call-remaining later n (goes_on {p} {q} {r} {statuses} {commands} m inside rest) last =
    ap (λ more. remaining p (node_with n n.writing_q more))
      (append_assoc (taken_by m) statuses later)
    ∙ Move-remaining m (statuses ++ later) n inside (Call-ended later rest last)
    ∙ Call-remaining later (record n { writing_q = n.writing_q ++ put_by m }) rest last
    ∙ ap (λ put. let after : Result (Unit {0}) × Node = (r, node_with n put later) in after)
        (append_assoc n.writing_q (put_by m) commands)
