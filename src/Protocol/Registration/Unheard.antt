-- ===== src/Protocol/Registration/Unheard.antt =====
-- A registration that no neighbour passes on.
use mathlib.Core.Path.{ap₂}
use lora_multihop.Prelude.{
  ℕ, ◌+◌, ◌*◌, Text, Bool, true, false, List, [], ◌∷◌, ◌++◌, append_assoc, Result, ok, ◌≡◌, refl,
  arith, ◌∙◌,
}
use lora_multihop.Node.{Node, Command}
use lora_multihop.Node.Action.{◌>>=◌}
use lora_multihop.Protocol.Silence.{transmission, send-confirmed, after, wait_for-pending}
use lora_multihop.Protocol.Send.{attempts, registration_round, send_registration_message}
use lora_multihop.Protocol.Registration.{announced, registration_text, registered, announced-update}

module _ (subscribe : Bool) (peer_id : Text) where
  round-unheard :
      (s : Node) (later : List Bool)
      → s.received_own_registration_message ≡ false
      → registration_round subscribe peer_id
          (record s { status_q = true ∷ true ∷ later; arrivals = [] })
        ≡ (
          ok false,
          after 5 (record s {
            writing_q =
                s.writing_q ++ transmission (registration_text subscribe peer_id s.my_address ∷ []);
            status_q = later;
          }),
        )
  unfolding registration_round ◌>>=◌
  round-unheard s later unheard =
      rw
        (send-confirmed (registration_text subscribe peer_id s.my_address)
          (record s { arrivals = [] }) later)
        (wait_for-pending (λ t. t.received_own_registration_message) 5
          (record s {
            writing_q =
                s.writing_q ++ transmission (registration_text subscribe peer_id s.my_address ∷ []);
            status_q = later;
          })
          (λ time. unheard))

  -- Three rounds, and no more.
  three-unheard :
      (s : Node) (later : List Bool)
      → s.received_own_registration_message ≡ false
      → attempts 4 1 0
          (registration_round subscribe peer_id)
          (record s { status_q = true ∷ true ∷ true ∷ true ∷ true ∷ true ∷ later; arrivals = [] })
        ≡ (
          ok false,
          record s {
            writing_q =
                s.writing_q
                ++ transmission (
                    registration_text subscribe peer_id s.my_address
                    ∷ registration_text subscribe peer_id s.my_address
                    ∷ registration_text subscribe peer_id s.my_address
                    ∷ []);
            status_q = later;
            now = s.now + 15 * 500000;
            arrivals = [];
          },
        )
  unfolding attempts ◌>>=◌
  three-unheard s later unheard =
      let first = transmission (registration_text subscribe peer_id s.my_address ∷ []) in
      let once : Node = record s { writing_q = s.writing_q ++ first; now = s.now + 5 * 500000 } in
      let twice : Node = record s {
        writing_q = s.writing_q ++ first ++ first;
        now = s.now + 5 * 500000 + 5 * 500000;
      } in
      rw (round-unheard s (true ∷ true ∷ true ∷ true ∷ later) unheard) (
        rw (round-unheard once (true ∷ true ∷ later) unheard) (
          rw (round-unheard twice later unheard) (
            ap₂
              (λ (queue : List Command) (time : ℕ).
                let r : Result Bool × Node = (
                  ok false,
                  record s { writing_q = queue; status_q = later; now = time; arrivals = [] },
                ) in
                r)
              (append_assoc (s.writing_q ++ first) first first
                ∙ append_assoc s.writing_q first (first ++ first))
              (omega arith))))

pub registration-unheard :
    (subscribe : Bool) (peer_id : Text) (s : Node) (later : List Bool)
    → send_registration_message subscribe peer_id
        (record s { status_q = true ∷ true ∷ true ∷ true ∷ true ∷ true ∷ later; arrivals = [] })
      ≡ (
        ok tt,
        registered subscribe peer_id s
            (registration_text subscribe peer_id s.my_address
              ∷ registration_text subscribe peer_id s.my_address
              ∷ registration_text subscribe peer_id s.my_address
              ∷ [])
            later
            (s.now + 15 * 500000)
            [],
      )
unfolding send_registration_message ◌>>=◌
registration-unheard subscribe peer_id s later =
    let asked : Node = record s {
      routing_table = announced subscribe peer_id s;
      received_own_registration_message = false;
    } in
    rw
      (announced-update subscribe peer_id
        (record s { status_q = true ∷ true ∷ true ∷ true ∷ true ∷ true ∷ later; arrivals = [] }))
      (rw (three-unheard subscribe peer_id asked later refl) refl)
