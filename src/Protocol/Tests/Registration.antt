-- ===== src/Protocol/Tests/Registration.antt =====
-- The peer bob is registered at the node 0131, and 0136 passes on that alice was unregistered there before.
use lora_multihop.Prelude.{Text, codes, true, false, [], ◌∷◌, ok, ◌≡◌, refl, arith}
use lora_multihop.Header.Sendable.{IsSendable}
use lora_multihop.Protocol.Delivery.{with_neighbor}
use lora_multihop.Protocol.Send.{send_registration_message}
use lora_multihop.Protocol.Registration.{registration_packet, registration_text, registered}
use lora_multihop.Protocol.Registration.Heard.{own_line, registration-repeated}
use lora_multihop.Protocol.Tests.{node, me, line_end, sample-IsLine}

abbrev bob : Text
bob = codes "bob"

abbrev alice : Text
alice = codes "alice"

echo-IsSendable : IsSendable (registration_packet me 4 false alice)
echo-IsSendable = record { source_addr = (refl, ground arith); fits = (ground arith, ground arith) }

registration-repeated_example :
    (send_registration_message true bob (record node {
      status_q = true ∷ true ∷ [];
      arrivals =
          (own_line
              (codes "LR")
              (codes "0136")
              (codes "2C")
              line_end
              4
              false
              true
              alice
              bob
              node
              []
              []
            ∷ [])
          ∷ [];
    })
      ≡ (
        ok tt,
        record (with_neighbor
            (codes "0136")
            (registered true bob node (registration_text true bob me ∷ []) [] 500000 [])) {
              received_own_registration_message = true;
            },
      ))
    × (send_registration_message true bob
          (record node { status_q = true ∷ true ∷ true ∷ true ∷ true ∷ true ∷ []; arrivals = [] })
        ≡ (
          ok tt,
          registered true bob node
              (registration_text true bob me
                ∷ registration_text true bob me
                ∷ registration_text true bob me
                ∷ [])
              []
              7500000
              [],
        ))
registration-repeated_example =
    registration-repeated (codes "LR") (codes "0136") (codes "2C") line_end 4 false true alice bob
      node [] [] sample-IsLine echo-IsSendable (omega arith) refl
