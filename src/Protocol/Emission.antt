-- ===== src/Protocol/Emission.antt =====
-- What an action writes to the modem.
use lora_multihop.Prelude.{
  Text, codes, Bool, true, false, List, [], ◌∷◌, ◌++◌, append-nil, append_assoc, Option, none, some,
  Result, ok, raised, if◌then◌else◌, ◌≡◌, refl, sym, subst, length, value_error, ◌∙◌, ap,
}
use lora_multihop.Python.Number.{str_ℕ}
use lora_multihop.RoutingTable.{RoutingTable, Route}
use lora_multihop.Node.{Node, Command}
use lora_multihop.Node.Action.{
  Action, pure, lift, gets, modify, continue, when, along, update_table, best_route,
  except_value_error, handled, ◌>>=◌,
}
use lora_multihop.Protocol.Transmit.{send_header, send_verify_list, put_command, get_status}

abbrev pub size_command : Text → Command
size_command text = record {
  text = codes "AT+SEND=" ++ str_ℕ (length text);
  verify_list = codes "AT,OK" ∷ [];
}

abbrev pub header_command : Text → Command
header_command text = record { text = text; verify_list = send_verify_list }

-- The commands of at most one header: none, its size alone where the modem did not confirm it, or
-- its size and the header. `P` says which headers are allowed.
pub data Emission (P : Text → Type 0) : List Command → Type 0 where
  silent : Emission P []
  announced : (text : Text) → P text → Emission P (size_command text ∷ [])
  sent : (text : Text) → P text → Emission P (size_command text ∷ header_command text ∷ [])

-- On a node with this address the action adds the commands of at most one allowed header.
pub record Emits (me : Text) (P : Text → Type 0) {A : Type 0} (m : Action A) : Type 0 where
  pub at :
      (s : Node)
      → s.my_address ≡ me
      → (commands : List Command) × Emission P commands
        × ((m s).1.writing_q ≡ s.writing_q ++ commands)

-- The action writes nothing and keeps the address.
pub record Quiet {A : Type 0} (m : Action A) : Type 0 where
  pub at : (s : Node) → ((m s).1.writing_q ≡ s.writing_q) × ((m s).1.my_address ≡ s.my_address)

pub Quiet-pure : {A : Type 0} (a : A) → Quiet (pure a)
unfolding pure
Quiet-pure a = record { at = λ s. (refl, refl) }

pub Quiet-lift : {A : Type 0} (r : Result A) → Quiet (lift r)
unfolding lift
Quiet-lift r = record { at = λ s. (refl, refl) }

pub Quiet-gets : {A : Type 0} (f : Node → A) → Quiet (gets f)
unfolding gets
Quiet-gets f = record { at = λ s. (refl, refl) }

pub Quiet-best_route : (d : Text) → Quiet (best_route d)
unfolding best_route
Quiet-best_route d = record { at = λ s. (refl, refl) }

pub Quiet-update : (f : RoutingTable → RoutingTable) → Quiet (update_table f)
unfolding update_table
Quiet-update f = record { at = λ s. (refl, refl) }

pub Quiet-modify :
    (f : Node → Node)
    → ((s : Node) → ((f s).writing_q ≡ s.writing_q) × ((f s).my_address ≡ s.my_address))
    → Quiet (modify f)
unfolding modify
Quiet-modify f same = record { at = same }

pub Quiet-if :
    {A : Type 0} (b : Bool) (m n : Action A) → Quiet m → Quiet n → Quiet (if b then m else n)
Quiet-if true m n qm qn = qm
Quiet-if false m n qm qn = qn

pub Quiet-when : (b : Bool) (m : Action (Unit {0})) → Quiet m → Quiet (when b m)
Quiet-when b m qm = Quiet-if b m (pure tt) qm (Quiet-pure tt)

module _ {P : Text → Type 0} where
  -- by what the modem will answer
  send_with :
      (text : Text) (s : Node) (answers : List Bool)
      → P text
      → (commands : List Command) × Emission P commands
        × ((send_header text (record s { status_q = answers })).1.writing_q
            ≡ s.writing_q ++ commands)
  unfolding send_header ◌>>=◌ put_command get_status
  send_with text s [] allowed = (size_command text ∷ [], announced text allowed, refl)
  send_with text s (false ∷ later) allowed = (size_command text ∷ [], announced text allowed, refl)
  send_with text s (true ∷ []) allowed = (
    size_command text ∷ header_command text ∷ [],
    sent text allowed,
    append_assoc s.writing_q (size_command text ∷ []) (header_command text ∷ []),
  )
  send_with text s (true ∷ confirmed ∷ later) allowed = (
    size_command text ∷ header_command text ∷ [],
    sent text allowed,
    append_assoc s.writing_q (size_command text ∷ []) (header_command text ∷ []),
  )

module _ {me : Text} {P : Text → Type 0} where
  pub Emits-Quiet : {A : Type 0} (m : Action A) → Quiet m → Emits me P m
  Emits-Quiet m q = record { at = λ s own. ([], silent, (q.at s).0 ∙ sym (append-nil s.writing_q)) }

  Emits-then :
      {A B : Type 0} (f : A → Action B) (r : Result A)
      → ((a : A) → Emits me P (f a))
      → (s : Node) → s.my_address ≡ me
      → (commands : List Command) × Emission P commands
        × ((continue r f s).1.writing_q ≡ s.writing_q ++ commands)
  Emits-then f (ok a) step s own = (step a).at s own
  Emits-then f (raised e) step s own = ([], silent, sym (append-nil s.writing_q))

  pub Emits-bind :
      {A B : Type 0} (m : Action A) (f : A → Action B)
      → Quiet m
      → ((a : A) → Emits me P (f a))
      → Emits me P (m >>= f)
  unfolding ◌>>=◌
  Emits-bind m f q step = record {
    at = λ s own.
        let (same, address) = q.at s in
        let (r, s') = m s in
        let (commands, emission, written) = Emits-then f r step s' (address ∙ own) in
        (commands, emission, written ∙ ap (λ queue. queue ++ commands) same);
  }

  -- The node's own address is known.
  pub Emits-me :
      {B : Type 0} (f : Text → Action B)
      → Emits me P (f me)
      → Emits me P (gets (λ s. s.my_address) >>= f)
  unfolding ◌>>=◌
  Emits-me f e = record {
    at = λ s own.
        subst
          (λ a.
            (commands : List Command) × Emission P commands
            × ((f a s).1.writing_q ≡ s.writing_q ++ commands))
          (sym own) (e.at s own);
  }

  pub Emits-if :
      {A : Type 0} (b : Bool) (m n : Action A)
      → Emits me P m
      → Emits me P n
      → Emits me P (if b then m else n)
  Emits-if true m n em en = em
  Emits-if false m n em en = en

  pub Emits-when :
      (b : Bool) (m : Action (Unit {0})) → (b ≡ true → Emits me P m) → Emits me P (when b m)
  Emits-when true m em = em refl
  Emits-when false m em = Emits-Quiet (pure tt) (Quiet-pure tt)

  pub Emits-along :
      (route : Option Route) (k : Text → Action (Unit {0}))
      → ((next : Text) → Emits me P (k next))
      → Emits me P (along route k)
  unfolding along
  Emits-along none k step = Emits-Quiet (pure tt) (Quiet-pure tt)
  Emits-along (some route) k step = step route.next_node

  pub Emits-send : (text : Text) → P text → Emits me P (send_header text)
  Emits-send text allowed = record { at = λ s own. send_with text s s.status_q allowed }

weaken :
    (P Q : Text → Type 0) {commands : List Command}
    → ((text : Text) → P text → Q text)
    → Emission P commands
    → Emission Q commands
weaken P Q f silent = silent
weaken P Q f (announced text h) = announced text (f text h)
weaken P Q f (sent text h) = sent text (f text h)

pub Emits-mono :
    {me : Text} (P Q : Text → Type 0) {A : Type 0} (m : Action A)
    → ((text : Text) → P text → Q text)
    → Emits me P m
    → Emits me Q m
Emits-mono P Q m f e = record {
  at = λ s own.
      let (commands, emission, written) = e.at s own in (commands, weaken P Q f emission, written);
}

handler_emits :
    (handler : Action (Unit {0})) (r : Result (Unit {0})) (s : Node) (queue : List Command)
    → Quiet handler
    → s.writing_q ≡ queue
    → (handled r handler s).1.writing_q ≡ queue
handler_emits handler (ok a) s queue q e = e
handler_emits handler (raised value_error) s queue q e = (q.at s).0 ∙ e
handler_emits handler (raised _) s queue q e = e

module _ {me : Text} {P : Text → Type 0} where
  pub Emits-except :
      (m handler : Action (Unit {0}))
      → Emits me P m
      → Quiet handler
      → Emits me P (except_value_error m handler)
  unfolding except_value_error
  Emits-except m handler e q = record {
    at = λ s own.
        let (commands, emission, written) = e.at s own in
        (commands, emission, handler_emits handler (m s).0 (m s).1 _ q written);
  }

pub ruleset emission_rules = (
  Quiet-pure, Quiet-lift, Quiet-gets, Quiet-best_route, Quiet-update, Quiet-if, Quiet-when,
  Emits-Quiet, Emits-bind, Emits-if, Emits-when, Emits-along, Emits-send,
)
