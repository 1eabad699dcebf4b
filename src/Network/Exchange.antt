-- ===== src/Network/Exchange.antt =====
-- A message between two nodes, and its acknowledgement back.
use lora_multihop.Prelude.{
  ℕ, ◌+◌, Text, true, false, List, [], ◌∷◌, ◌++◌, pos, some, ok, ◌≡◌, ◌∙◌, All, arith,
}
use lora_multihop.Python.Base64.{IsByte}
use lora_multihop.Header.{get_header_str}
use lora_multihop.Header.Sendable.{IsSendable, line}
use lora_multihop.Node.{Node}
use lora_multihop.Protocol.Receive.{process_incoming}
use lora_multihop.Protocol.Send.{send_along}
use lora_multihop.Protocol.Delivery.{
  deliver, IsLine, message_packet, ack_packet, delivered, with_neighbor,
}
use lora_multihop.Protocol.Silence.{transmission, send-confirmed}
use lora_multihop.Protocol.Unanswered.{message_text}
use lora_multihop.Protocol.Pending.{is_pending}
use lora_multihop.Protocol.Answered.{sent_once, send-answered}

-- A frame of the LoRa module: what stands around a header text, and the line end.
pub record Frame : Type 0 where
  pub start : Text
  pub from : Text
  pub size : Text
  pub tail : Text

abbrev pub framed : Frame → Text → Text
framed f text = line f.start f.from f.size (text ++ f.tail)

abbrev pub IsProper : Frame → Type 0
IsProper f = IsLine f.start f.from f.size f.tail

-- Two nodes `a` and `b` whose modems confirm their commands, and that hear each other's headers in
-- proper frames; `b` is connected with `a` and records no message as received; the format can carry the
-- message and its acknowledgement, the payload is bytes, the id is new, and the thread of `a` runs.
-- Then the message that `a` sends makes `b` put the payload into its queue and send exactly the
-- acknowledgement that `a`, when it arrives in the first half second, takes for an answer: `a` has sent
-- the message once, waits for nothing, and deletes no route.
pub exchange :
    (to_b to_a : Frame) (next_node : Text) (p : List ℕ) (a b : Node) (more : List (List Text))
    → IsProper to_b
    → IsProper to_a
    → IsSendable (message_packet a.my_address b.my_address next_node 5 (a.message_counter + 1) p)
    → IsSendable (ack_packet b.my_address a.my_address (pos (a.message_counter + 1)))
    → All IsByte p
    → b.connected_node ≡ some a.my_address
    → b.routing_table.received_messages ≡ []
    → a.receiving ≡ true
    → is_pending (pos (a.message_counter + 1)) a.messages_acknowledgment ≡ false
    → (process_incoming
          (framed to_b (message_text a.my_address b.my_address next_node (a.message_counter + 1) p))
          (record b { status_q = true ∷ true ∷ [] })
        ≡ (
          ok tt,
          record (delivered p (with_neighbor to_b.from b)) {
            writing_q =
                b.writing_q
                ++ transmission (
                    get_header_str
                      (ack_packet b.my_address a.my_address (pos (a.message_counter + 1)))
                    ∷ []);
            status_q = [];
          },
        ))
      × (send_along b.my_address p next_node (record a {
        status_q = true ∷ true ∷ [];
        arrivals =
            (framed to_a (
                get_header_str (ack_packet b.my_address a.my_address (pos (a.message_counter + 1))))
              ∷ [])
            ∷ more;
      })
          ≡ (
            ok tt,
            with_neighbor to_a.from (
                sent_once to_a.start to_a.from to_a.size to_a.tail b.my_address next_node p a []
                  more),
          ))
exchange to_b to_a next_node p a b more proper_b proper_a sendable ack bytes connected fresh running
      new =
    (
      deliver to_b.start to_b.from to_b.size to_b.tail a.my_address next_node 5
            (a.message_counter + 1) p (record b { status_q = true ∷ true ∷ [] }) proper_b sendable
            bytes (omega arith) connected fresh
          ∙ send-confirmed _ (delivered p (with_neighbor to_b.from b)) [],
      send-answered to_a.start to_a.from to_a.size to_a.tail b.my_address next_node p a [] more
          proper_a ack running new,
    )
