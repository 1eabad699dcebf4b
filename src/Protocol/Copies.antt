-- ===== src/Protocol/Copies.antt =====
-- What a node does with a second copy of a message, as the sender transmits one when the
-- acknowledgement is lost.
use lora_multihop.Prelude.{
  ℕ, ◌<◌, Text, List, [], ◌∷◌, ◌++◌, append_assoc, some, Result, ◌≡◌, ap, ◌∙◌, All, pos,
}
use lora_multihop.Header.{get_header_str}
use lora_multihop.Header.Sendable.{IsSendable, line}
use lora_multihop.Python.Base64.{IsByte}
use lora_multihop.Node.{Node}
use lora_multihop.Protocol.Delivery.{
  deliver, IsLine, message_packet, ack_packet, delivered, with_neighbor, received-neighbor,
}
use lora_multihop.Protocol.Transmit.{send_header}
use lora_multihop.Protocol.Untouched.{send-untouched, queues_of}
use lora_multihop.Protocol.Receive.{process_incoming}

abbrev pub message_line : Text → Text → Text → Text → Text → Text → Text → ℕ → ℕ → List ℕ → Text
message_line start from size tail source destination next_node t id p =
    line start from size
      (get_header_str (message_packet source destination next_node t id p) ++ tail)

-- A message that arrives twice over a line of the module is put into the queue of received messages
-- twice, whatever the modem answers, if the format can carry it, its payload is bytes, its ttl is above
-- one, it comes from the connected node and no message is recorded as received before.
pub deliver_twice :
    (start from size tail source next_node : Text) (t id : ℕ) (p : List ℕ) (s : Node)
    → IsLine start from size tail
    → IsSendable (message_packet source s.my_address next_node t id p)
    → All IsByte p
    → 1 < t
    → s.connected_node ≡ some source
    → s.routing_table.received_messages ≡ []
    → (process_incoming
        (message_line start from size tail source s.my_address next_node t id p)
        (process_incoming
          (message_line start from size tail source s.my_address next_node t id p)
          s).1).1.received_messages_queue
      ≡ s.received_messages_queue ++ p ∷ p ∷ []
deliver_twice start from size tail source next_node t id p s l sendable bytes alive connected
      fresh =
    let text = get_header_str (ack_packet s.my_address source (pos id)) in
    let raw = message_line start from size tail source s.my_address next_node t id p in
    let first =
      deliver start from size tail source next_node t id p s l sendable bytes alive connected
        fresh in
    let once : Node = delivered p (with_neighbor from s) in
    let s' : Node = queues_of (send_header text once).1 once in
    let after_first : (process_incoming raw s).1 ≡ s' =
      ap (λ (x : Result (Unit {0}) × Node). x.1) first ∙ send-untouched text once in
    let second =
      deliver start from size tail source next_node t id p s' l sendable bytes alive connected
        (received-neighbor from s.routing_table ∙ fresh) in
    ap (λ (x : Node). (process_incoming raw x).1.received_messages_queue) after_first
    ∙ ap (λ (x : Result (Unit {0}) × Node). x.1.received_messages_queue) second
    ∙ ap (λ (x : Node). x.received_messages_queue)
        (send-untouched text (delivered p (with_neighbor from s')))
    ∙ append_assoc s.received_messages_queue (p ∷ []) (p ∷ [])
