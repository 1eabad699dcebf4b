-- ===== src/Protocol/Pending.antt =====
-- The attempts to send a message whose acknowledgement does not come.
use mathlib.Core.Path.{ap₂}
use lora_multihop.Prelude.{
  ℕ, ◌+◌, ◌*◌, Text, Bool, true, false, not, List, [], ◌∷◌, ◌++◌, append_assoc, ℤ, eq_ℤ, eq_ℤ_iff,
  Result, ok, raised, queue_empty, ◌≡◌, refl, arith, ◌∙◌, ap, any, any-append,
}
use lora_multihop.Node.{Node, Command}
use lora_multihop.Node.Action.{◌>>=◌}
use lora_multihop.Protocol.Transmit.{send_header, put_command, get_status, remove_id}
use lora_multihop.Protocol.Emission.{size_command}
use lora_multihop.Protocol.Send.{attempts, message_round}
use lora_multihop.Protocol.Silence.{transmission, send-confirmed, after, wait_for-pending}

abbrev pub is_pending : ℤ → List ℤ → Bool
is_pending id ids = any (eq_ℤ id) ids

pub pending-append : (id : ℤ) (ids : List ℤ) → is_pending id (ids ++ id ∷ []) ≡ true
pending-append id ids =
    any-append (eq_ℤ id) ids (id ∷ []) ∙ unfold any in ground (arith, eq_ℤ_iff id id)

-- A pending id that was counted last is removed again.
pub remove_id-append :
    (id : ℤ) (ids : List ℤ) → is_pending id ids ≡ false → remove_id id (ids ++ id ∷ []) ≡ ids
unfolding remove_id any
remove_id-append id [] h = ground (arith, eq_ℤ_iff id id)
remove_id-append id (x ∷ ids) h =
    ground (arith, remove_id-append id ids, eq_ℤ_iff x id, eq_ℤ_iff id x)

module _ (text : Text) (id : ℤ) where
  -- One attempt: the message, and five seconds of waiting.
  pub round-pending :
      (s : Node) (later : List Bool)
      → is_pending id s.messages_acknowledgment ≡ true
      → message_round text id (record s { status_q = true ∷ true ∷ later; arrivals = [] }) ≡ (
        ok false,
        after 10
            (record s { writing_q = s.writing_q ++ transmission (text ∷ []); status_q = later }),
      )
  unfolding message_round ◌>>=◌
  round-pending s later pending = rw (send-confirmed text (record s { arrivals = [] }) later) (
      wait_for-pending (λ t. not (is_pending id t.messages_acknowledgment)) 10
        (record s { writing_q = s.writing_q ++ transmission (text ∷ []); status_q = later })
        (λ time. rw pending))

  -- Three attempts, and no more.
  pub three-pending :
      (s : Node) (later : List Bool)
      → is_pending id s.messages_acknowledgment ≡ true
      → attempts 4 1 0
          (message_round text id)
          (record s { status_q = true ∷ true ∷ true ∷ true ∷ true ∷ true ∷ later; arrivals = [] })
        ≡ (
          ok false,
          record s {
            writing_q = s.writing_q ++ transmission (text ∷ text ∷ text ∷ []);
            status_q = later;
            now = s.now + 30 * 500000;
            arrivals = [];
          },
        )
  unfolding attempts ◌>>=◌
  three-pending s later pending =
      let first = transmission (text ∷ []) in
      let once : Node = record s { writing_q = s.writing_q ++ first; now = s.now + 10 * 500000 } in
      let twice : Node = record s {
        writing_q = s.writing_q ++ first ++ first;
        now = s.now + 10 * 500000 + 10 * 500000;
      } in
      rw (round-pending s (true ∷ true ∷ true ∷ true ∷ later) pending) (
        rw (round-pending once (true ∷ true ∷ later) pending) (
          rw (round-pending twice later pending) (
            ap₂
              (λ (queue : List Command) (time : ℕ).
                let r : Result Bool × Node = (
                  ok false,
                  record s { writing_q = queue; status_q = later; now = time; arrivals = [] },
                ) in
                r)
              (append_assoc (s.writing_q ++ first) first first
                ∙ append_assoc s.writing_q first (first ++ first))
              (omega arith))))

-- A modem that stops to answer before an attempt shows when that attempt is made.
abbrev pub cut_off : ℕ → List Text → Text → Node → Node
cut_off sleeps before text s = record s {
  writing_q = s.writing_q ++ (transmission before ++ size_command text ∷ []);
  status_q = [];
  now = s.now + sleeps * 500000;
  arrivals = [];
}

module _ (text : Text) (id : ℤ) where
  round-cut :
      (s : Node)
      → message_round text id (record s { status_q = [] }) ≡ (
        raised queue_empty,
        record s { writing_q = s.writing_q ++ size_command text ∷ []; status_q = [] },
      )
  unfolding message_round send_header ◌>>=◌ put_command get_status
  round-cut s = refl

  pub cut-second :
      (s : Node)
      → is_pending id s.messages_acknowledgment ≡ true
      → attempts 4 1 0
          (message_round text id)
          (record s { status_q = true ∷ true ∷ []; arrivals = [] })
        ≡ (raised queue_empty, cut_off 10 (text ∷ []) text s)
  unfolding attempts ◌>>=◌
  cut-second s pending =
      let once : Node = record s {
        writing_q = s.writing_q ++ transmission (text ∷ []);
        now = s.now + 10 * 500000;
        arrivals = [];
      } in
      rw (round-pending text id s [] pending) (
        rw (round-cut once) (
          ap
            (λ (queue : List Command).
              let r : Result Bool × Node =
                (raised queue_empty, record once { writing_q = queue; status_q = [] }) in
              r)
            (append_assoc s.writing_q (transmission (text ∷ [])) (size_command text ∷ []))))

  pub cut-third :
      (s : Node)
      → is_pending id s.messages_acknowledgment ≡ true
      → attempts 4 1 0
          (message_round text id)
          (record s { status_q = true ∷ true ∷ true ∷ true ∷ []; arrivals = [] })
        ≡ (raised queue_empty, cut_off 20 (text ∷ text ∷ []) text s)
  unfolding attempts ◌>>=◌
  cut-third s pending =
      let first = transmission (text ∷ []) in
      let once : Node = record s { writing_q = s.writing_q ++ first; now = s.now + 10 * 500000 } in
      let twice : Node = record s {
        writing_q = (s.writing_q ++ first) ++ first;
        now = s.now + 10 * 500000 + 10 * 500000;
        arrivals = [];
      } in
      rw (round-pending text id s (true ∷ true ∷ []) pending) (
        rw (round-pending text id once [] pending) (
          rw (round-cut twice) (
            ap₂
              (λ (queue : List Command) (time : ℕ).
                let r : Result Bool × Node = (
                  raised queue_empty,
                  record s { writing_q = queue; status_q = []; now = time; arrivals = [] },
                ) in
                r)
              (append_assoc (s.writing_q ++ first) first (size_command text ∷ [])
                ∙ append_assoc s.writing_q first (first ++ size_command text ∷ []))
              (omega arith))))
