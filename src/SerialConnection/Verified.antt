-- ===== src/SerialConnection/Verified.antt =====
-- When the answers to a command are accepted.
use lora_multihop.Prelude.{
  Text, text_eq, text_eq_iff, text_eq_refl, if◌then◌else◌, Bool, true, false, ◌&&◌, List, [], ◌∷◌,
  Result, ok, raised, ◌≡◌, ◌↔◌, refl, sym, subst, ap, ◌∙◌, ◌⊎◌, inl, inr, Bool-cases,
}
use lora_multihop.SerialConnection.Answer.{
  Line, status_of, next_line, lines_behind, behind_message, is_message, read_status, with_status,
  verify,
}

-- The lines answer the entries one by one, each at once or behind one message, and `rest` is left.
pub data Answers : List Text → List Line → List Line → Type 0 where
  answered : (lines : List Line) → Answers [] lines lines
  at_once :
      (entry : Text) (later : List Text) (lines rest : List Line)
      → status_of (next_line lines) ≡ ok entry
      → is_message entry ≡ false
      → Answers later (lines_behind lines) rest
      → Answers (entry ∷ later) lines rest
  behind_one :
      (message entry : Text) (later : List Text) (lines rest : List Line)
      → status_of (next_line lines) ≡ ok message
      → is_message message ≡ true
      → status_of (next_line (lines_behind lines)) ≡ ok entry
      → Answers later (lines_behind (lines_behind lines)) rest
      → Answers (entry ∷ later) lines rest

-- One step of the loop, where a status is read.
verify-step :
    (successful : Bool) (entry status : Text) (later : List Text) (lines left : List Line)
    → read_status lines ≡ (ok status, left)
    → verify successful (entry ∷ later) lines
      ≡ verify (successful && text_eq entry status) later left
unfolding verify
verify-step successful entry status later lines left e =
    ap (with_status (λ status left. verify (successful && text_eq entry status) later left)) e

abbrev accepted : List Line → Result Bool × List Line
accepted rest = (ok true, rest)

-- What is accepted in the end was accepted behind each status.
with_status-cases :
    (go : Text → List Line → Result Bool × List Line) (r : Result Text × List Line)
    (rest : List Line)
    → with_status go r ≡ accepted rest
    → (status : Text) × (left : List Line) × (r ≡ (ok status, left))
      × (go status left ≡ accepted rest)
with_status-cases go (ok status, left) rest h = (status, left, refl, h)
with_status-cases go (raised e, left) rest h =
    absurd (raised-ne-ok (ap (λ (r : Result Bool × List Line). r.0) h))
  where
    raised-ne-ok : ¬ (raised e ≡ ok true)
    raised-ne-ok h = cc

-- An entry that was not met is not forgiven.
not_forgiven :
    (entries : List Text) (lines rest : List Line) → ¬ (verify false entries lines ≡ accepted rest)
unfolding verify
not_forgiven [] lines rest h = cc (ap (λ (r : Result Bool × List Line). r.0) h)
not_forgiven (entry ∷ later) lines rest h =
    let (status, left, e, more) =
      with_status-cases (λ status left. verify false later left) (read_status lines) rest h in
    not_forgiven later left rest more

read-at_once :
    (status : Text) (lines : List Line)
    → status_of (next_line lines) ≡ ok status
    → is_message status ≡ false
    → read_status lines ≡ (ok status, lines_behind lines)
unfolding read_status
read-at_once status lines e plain = rw (e, plain) refl

read-behind_one :
    (message : Text) (r : Result Text) (lines : List Line)
    → status_of (next_line lines) ≡ ok message
    → is_message message ≡ true
    → status_of (next_line (lines_behind lines)) ≡ r
    → read_status lines ≡ (r, lines_behind (lines_behind lines))
unfolding read_status
read-behind_one message r lines e found e' = rw (e, found, e') refl

verify-Answers :
    {entries : List Text} {lines rest : List Line}
    → Answers entries lines rest
    → verify true entries lines ≡ accepted rest
verify-Answers (answered lines) = unfold verify in refl
verify-Answers (at_once entry later lines rest e plain more) =
    verify-step true entry entry later lines _ (read-at_once entry lines e plain)
    ∙ rw (text_eq_refl entry) (verify-Answers more)
verify-Answers (behind_one message entry later lines rest e found e' more) =
    verify-step true entry entry later lines _ (read-behind_one message (ok entry) lines e found e')
    ∙ rw (text_eq_refl entry) (verify-Answers more)

abbrev Answer : Type 0
Answer = Result Text × List Line

ok_inj : {s t : Text} → Path (Result Text) (ok s) (ok t) → s ≡ t
ok_inj {s} h = ap (λ (r : Result Text). text_of s r) h
  where
    text_of : Text → Result Text → Text
    text_of d (ok t) = t
    text_of d (raised e) = d

abbrev ReadAs : List Line → List Line → Text → Type 0
ReadAs lines left status =
    ((status_of (next_line lines) ≡ ok status)
      × (is_message status ≡ false)
      × (left ≡ lines_behind lines))
    ⊎ ((message : Text) × (status_of (next_line lines) ≡ ok message)
        × (is_message message ≡ true)
        × (status_of (next_line (lines_behind lines)) ≡ ok status)
        × (left ≡ lines_behind (lines_behind lines)))

-- How a status was read.
read_status-cases :
    (lines left : List Line) (status : Text)
    → read_status lines ≡ (ok status, left)
    → ReadAs lines left status
unfolding read_status
read_status-cases lines left status h = by_first (status_of (next_line lines)) refl h
  where
    branch : Text → Bool → Answer
    branch first b =
        if b
        then (status_of (next_line (lines_behind lines)), lines_behind (lines_behind lines))
        else (ok first, lines_behind lines)

    by_first :
        (r : Result Text)
        → status_of (next_line lines) ≡ r
        → behind_message r (lines_behind lines) ≡ (ok status, left)
        → ReadAs lines left status
    by_first (ok first) e h = elim (Bool-cases (is_message first)) [
      | inl found ↦
          let read = ap (branch first) (sym found) ∙ h in
          inr (first, e, found, ap (λ (r : Answer). r.0) read, sym (ap (λ (r : Answer). r.1) read))
      | inr plain ↦
          let read = ap (branch first) (sym plain) ∙ h in
          let same : first ≡ status = ok_inj (ap (λ (r : Answer). r.0) read) in
          inl
            (e ∙ ap ok same, ap is_message (sym same) ∙ plain, sym (ap (λ (r : Answer). r.1) read))
    ]
    by_first (raised x) e h = cc (ap (λ (r : Result Text × List Line). r.0) h)

met :
    (entry : Text) (later : List Text) (lines left rest : List Line) (status : Text)
    → entry ≡ status
    → ReadAs lines left status
    → Answers later left rest
    → Answers (entry ∷ later) lines rest
met entry later lines left rest status same (inl (e, plain, behind)) more =
    at_once entry later lines rest (e ∙ ap ok (sym same)) (ap is_message same ∙ plain)
      (subst (λ l. Answers later l rest) behind more)
met entry later lines left rest status same (inr (message, e, found, e', behind)) more =
    behind_one message entry later lines rest e found (e' ∙ ap ok (sym same))
      (subst (λ l. Answers later l rest) behind more)

Answers-verify :
    (entries : List Text) (lines rest : List Line)
    → verify true entries lines ≡ accepted rest
    → Answers entries lines rest
unfolding verify
Answers-verify [] lines rest h =
    subst (Answers [] lines) (ap (λ (r : Result Bool × List Line). r.1) h) (answered lines)
Answers-verify (entry ∷ later) lines rest h =
    let (status, left, e, more) =
      with_status-cases (λ status left. verify (text_eq entry status) later left)
        (read_status lines) rest h in
    elim (Bool-cases (text_eq entry status)) [
      | inl same ↦
          met entry later lines left rest status ((text_eq_iff entry status).0 same)
            (read_status-cases lines left status e)
            (Answers-verify later left rest
              (ap (λ (b : Bool). verify b later left) (sym same) ∙ more))
      | inr other ↦
          absurd (
            not_forgiven later left rest
              (ap (λ (b : Bool). verify b later left) (sym other) ∙ more))
    ]

-- The loop over the expected answers accepts exactly the lines that answer them one by one, each at
-- once or behind one message of another node, and it leaves what follows them.
pub verify_iff :
    (entries : List Text) (lines rest : List Line)
    → (verify true entries lines ≡ (ok true, rest)) ↔ Answers entries lines rest
verify_iff entries lines rest = (Answers-verify entries lines rest, verify-Answers)
