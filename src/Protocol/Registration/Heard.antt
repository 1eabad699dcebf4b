-- ===== src/Protocol/Registration/Heard.antt =====
-- A registration that a neighbour passes on.
use lora_multihop.Prelude.{
  ℕ, ◌+◌, ◌*◌, ◌<◌, Text, text_eq_refl, Bool, true, false, List, [], ◌∷◌, ◌++◌, ok, ◌≡◌, refl,
  arith, ◌∙◌,
}
use lora_multihop.Header.{get_header_str}
use lora_multihop.Header.Sendable.{IsSendable, line}
use lora_multihop.Header.RoundTrip.{parse-print_tail}
use lora_multihop.Node.{Node}
use lora_multihop.Node.Action.{◌>>=◌, except_value_error}
use lora_multihop.Protocol.Receive.{process_incoming, process_header, process_registration_header}
use lora_multihop.Protocol.Delivery.{IsLine, with_neighbor, incoming-accepted}
use lora_multihop.Protocol.Silence.{transmission, send-confirmed}
use lora_multihop.Protocol.Answered.{wait_for-line}
use lora_multihop.Protocol.Send.{attempts, registration_round, send_registration_message}
use lora_multihop.Protocol.Registration.{
  registration_packet, announced, registration_text, registered, announced-update,
}
use lora_multihop.Protocol.Registration.Unheard.{registration-unheard}

-- A registration of this node that a neighbour has passed on is noted, and only noted.
hear :
    (start from size tail : Text) (ttl : ℕ) (subscribe : Bool) (peer_id : Text) (s : Node)
    → IsLine start from size tail
    → IsSendable (registration_packet s.my_address ttl subscribe peer_id)
    → 1 < ttl
    → process_incoming
        (line start from size
          (get_header_str (registration_packet s.my_address ttl subscribe peer_id) ++ tail))
        s
      ≡ (ok tt, record (with_neighbor from s) { received_own_registration_message = true })
unfolding process_header process_registration_header ◌>>=◌ except_value_error
hear start from size tail ttl subscribe peer_id s l sendable alive =
    incoming-accepted _
      (record {
        received_from = from;
        packet = registration_packet s.my_address ttl subscribe peer_id;
      })
      s
      (parse-print_tail start from size tail l.frame l.tail_lacks
        (registration_packet s.my_address ttl subscribe peer_id) sendable)
      (ground arith)
    ∙ rw (text_eq_refl s.my_address) refl

module _ (start from size tail : Text) (ttl : ℕ) (echoed subscribe : Bool) (other peer_id : Text)
    (s : Node) (later : List Bool) (more : List (List Text)) where
  -- the line with a registration of this node that a neighbour has passed on
  abbrev pub own_line : Text
  own_line =
      line start from size
        (get_header_str (registration_packet s.my_address ttl echoed other) ++ tail)

  registration-heard :
      IsLine start from size tail
      → IsSendable (registration_packet s.my_address ttl echoed other)
      → 1 < ttl
      → s.receiving ≡ true
      → send_registration_message subscribe peer_id
          (record s { status_q = true ∷ true ∷ later; arrivals = (own_line ∷ []) ∷ more })
        ≡ (
          ok tt,
          record (with_neighbor from (
              registered subscribe peer_id s
                (registration_text subscribe peer_id s.my_address ∷ [])
                later
                (s.now + 500000)
                more)) { received_own_registration_message = true },
        )
  unfolding send_registration_message attempts registration_round ◌>>=◌
  registration-heard l sendable alive running =
      let text = registration_text subscribe peer_id s.my_address in
      let asked : Node = record s {
        routing_table = announced subscribe peer_id s;
        received_own_registration_message = false;
      } in
      let sent : Node = record asked {
        writing_q = s.writing_q ++ transmission (text ∷ []);
        status_q = later;
      } in
      let asleep : Node = record sent { now = s.now + 500000; arrivals = more } in
      rw
        (announced-update subscribe peer_id
          (record s { status_q = true ∷ true ∷ later; arrivals = (own_line ∷ []) ∷ more }))
        (rw (send-confirmed text (record asked { arrivals = (own_line ∷ []) ∷ more }) later) (
          rw
            (wait_for-line (λ t. t.received_own_registration_message) 3 own_line more sent
              (record (with_neighbor from asleep) { received_own_registration_message = true }) refl
              running (hear start from size tail ttl echoed other asleep l sendable alive) refl)
            refl))

  -- With a modem that confirms every command, a peer that is registered or unregistered here is
  -- entered or deleted, as the one change of the table that the call makes itself, and announced. If
  -- the thread is running and in the first half second a line arrives with a registration of this
  -- node, for this peer or for another, which the format can carry, passed on with a ttl above one,
  -- then the peer is announced once, and the line only enters its last hop as a neighbour and is
  -- noted. If no line arrives, the peer is announced three times in seven and a half seconds, and the
  -- call returns all the same.
  pub registration-repeated :
      IsLine start from size tail
      → IsSendable (registration_packet s.my_address ttl echoed other)
      → 1 < ttl
      → s.receiving ≡ true
      → (send_registration_message subscribe peer_id
            (record s { status_q = true ∷ true ∷ later; arrivals = (own_line ∷ []) ∷ more })
          ≡ (
            ok tt,
            record (with_neighbor from (
                registered subscribe peer_id s
                  (registration_text subscribe peer_id s.my_address ∷ [])
                  later
                  (s.now + 500000)
                  more)) { received_own_registration_message = true },
          ))
        × (send_registration_message subscribe peer_id (record s {
          status_q = true ∷ true ∷ true ∷ true ∷ true ∷ true ∷ later;
          arrivals = [];
        })
            ≡ (
              ok tt,
              registered subscribe peer_id s
                  (registration_text subscribe peer_id s.my_address
                    ∷ registration_text subscribe peer_id s.my_address
                    ∷ registration_text subscribe peer_id s.my_address
                    ∷ [])
                  later
                  (s.now + 15 * 500000)
                  [],
            ))
  registration-repeated l sendable alive running =
      (registration-heard l sendable alive running, registration-unheard subscribe peer_id s later)
