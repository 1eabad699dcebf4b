-- ===== src/LocalNetwork/Message.antt =====
-- A message between two whole nodes over the local network: from the protocol of one through both
-- networks to the protocol of the other, and its acknowledgement back.
use lora_multihop.Prelude.{
  ℕ, ◌+◌, ◌&&◌, Text, codes, true, false, List, [], ◌∷◌, ◌++◌, pos, some, ok, ◌≡◌, All, length,
  refl, ◌∙◌,
}
use lora_multihop.Variables.{lora_module_delimiter}
use lora_multihop.Python.Split.{Lacks}
use lora_multihop.Python.Find.{occurs}
use lora_multihop.Python.Base64.{IsByte}
use lora_multihop.Header.{get_header_str}
use lora_multihop.Header.Sendable.{IsSendable}
use lora_multihop.Node.{Node}
use lora_multihop.SerialConnection.Answer.{Line, str_to_bytes}
use lora_multihop.SerialConnection.Confirmed.{entries_of}
use lora_multihop.Protocol.Receive.{process_incoming}
use lora_multihop.Protocol.Send.{send_along}
use lora_multihop.Protocol.Delivery.{message_packet, ack_packet, delivered, with_neighbor}
use lora_multihop.Protocol.Silence.{transmission, confirmations}
use lora_multihop.Protocol.Unanswered.{message_text}
use lora_multihop.Protocol.Pending.{is_pending}
use lora_multihop.Protocol.Answered.{sent_once}
use lora_multihop.Network.Exchange.{framed, exchange}
use lora_multihop.LocalNetwork.{LocalNetwork, line_of, start_sending, start_receiving}
use lora_multihop.LocalNetwork.Link.{local_frame, header-over_local, frame-IsProper}

-- The threads run, and the address is one of a module.
pub record IsRunning (s : LocalNetwork) : Type 0 where
  pub sends : s.sending_alive ≡ true
  pub runs : s.tcp_communication_running ≡ true
  pub receives : s.receiving_alive ≡ true
  pub four : length s.module_address ≡ 4
  pub lacks : Lacks lora_module_delimiter s.module_address

-- The network of the node that sent a header, and that of a node that received it.
abbrev pub sender : Text → Line → LocalNetwork → LocalNetwork
sender text bytes s = record s {
  writing_q = [];
  status_q = s.status_q ++ confirmations (text ∷ []) [];
  sent = s.sent ++ bytes ∷ [];
}

abbrev pub receiver : Text → LocalNetwork → LocalNetwork → LocalNetwork
receiver text from s = record s {
  response_q = s.response_q ++ framed (local_frame from.module_address) text ∷ [];
}

-- A header that the protocol hands over on one side comes out on the other.
abbrev pub Carries : Text → Line → LocalNetwork → LocalNetwork → Type 0
Carries text bytes from to =
    (start_sending (record from { writing_q = entries_of (transmission (text ∷ [])) })
      ≡ sender text bytes from)
    × (start_receiving bytes to ≡ receiver text from to)

-- A text that this network sends, as these bytes.
pub record IsCarried (text : Text) (bytes : Line) (from : LocalNetwork) : Type 0 where
  pub plain : occurs (codes "AT") text ≡ false
  pub encoded : str_to_bytes (line_of from.module_address text) ≡ ok bytes

receiving-runs :
    (s : LocalNetwork) → IsRunning s → (s.receiving_alive && s.tcp_communication_running) ≡ true
receiving-runs s running = rw (running.receives, running.runs) refl

carried-Carries :
    (text : Text) (bytes : Line) (from to : LocalNetwork)
    → IsCarried text bytes from
    → IsRunning from
    → IsRunning to
    → Carries text bytes from to
carried-Carries text bytes from to carried a b =
    let (sending, receiving, proper) =
      header-over_local text bytes from to carried.plain carried.encoded a.sends a.runs
        (receiving-runs to b) a.four a.lacks in
    (sending, receiving)

carried-runs :
    (s t : LocalNetwork)
    → IsRunning s
    → t.sending_alive ≡ s.sending_alive
    → t.tcp_communication_running ≡ s.tcp_communication_running
    → t.receiving_alive ≡ s.receiving_alive
    → t.module_address ≡ s.module_address
    → IsRunning t
carried-runs s t running sends runs receives address = record {
  sends = sends ∙ running.sends;
  runs = runs ∙ running.runs;
  receives = receives ∙ running.receives;
  four = rw address running.four;
  lacks = rw address running.lacks;
}

-- The text of the next message of the node `a` to `b`, and that of the acknowledgement for it.
abbrev pub next_text : Text → List ℕ → Node → Node → Text
next_text next_node p a b =
    message_text a.my_address b.my_address next_node (a.message_counter + 1) p

abbrev pub ack_text : Node → Node → Text
ack_text a b = get_header_str (ack_packet b.my_address a.my_address (pos (a.message_counter + 1)))

-- What the nodes need for a message to be delivered and acknowledged.
pub record CanTalk (next_node : Text) (p : List ℕ) (a b : Node) : Type 0 where
  pub sendable :
      IsSendable (message_packet a.my_address b.my_address next_node 5 (a.message_counter + 1) p)
  pub acknowledged : IsSendable (ack_packet b.my_address a.my_address (pos (a.message_counter + 1)))
  pub are_bytes : All IsByte p
  pub connected : b.connected_node ≡ some a.my_address
  pub fresh : b.routing_table.received_messages ≡ []
  pub receiving : a.receiving ≡ true
  pub new : is_pending (pos (a.message_counter + 1)) a.messages_acknowledgment ≡ false

-- Two nodes on the local network whose threads run, the second connected with the first and recording
-- no message as received; the format can carry the message and its acknowledgement, the local network
-- can encode both and finds no AT in them, the payload is bytes and the id is new. The commands of
-- the message reach the second node's responses as one line, of which its protocol puts the payload
-- into its queue, exactly as it was sent, and hands the acknowledgement to its own connection. This
-- comes back in the same way as a line, and with it in the first half second the first node has sent
-- its message once and waits for nothing. The answers that the two protocols read are those that the
-- local network gives.
pub message-over_local :
    (next_node : Text) (p : List ℕ) (a b : Node) (net_a net_b : LocalNetwork)
    (bytes ack_bytes : Line) (more : List (List Text))
    → CanTalk next_node p a b
    → IsRunning net_a
    → IsRunning net_b
    → IsCarried (next_text next_node p a b) bytes net_a
    → IsCarried (ack_text a b) ack_bytes net_b
    → Carries (next_text next_node p a b) bytes net_a net_b
      × (process_incoming
            (framed (local_frame net_a.module_address) (next_text next_node p a b))
            (record b { status_q = confirmations (ack_text a b ∷ []) [] })
          ≡ (
            ok tt,
            record (delivered p (with_neighbor net_a.module_address b)) {
              writing_q = b.writing_q ++ transmission (ack_text a b ∷ []);
              status_q = [];
            },
          ))
      × Carries
          (ack_text a b)
          ack_bytes
          (receiver (next_text next_node p a b) net_a net_b)
          (sender (next_text next_node p a b) bytes net_a)
      × (send_along b.my_address p next_node (record a {
        status_q = confirmations (next_text next_node p a b ∷ []) [];
        arrivals = (framed (local_frame net_b.module_address) (ack_text a b) ∷ []) ∷ more;
      })
          ≡ (
            ok tt,
            with_neighbor net_b.module_address (
                sent_once
                  (codes "LR")
                  net_b.module_address
                  (codes "10")
                  []
                  b.my_address
                  next_node
                  p
                  a
                  []
                  more),
          ))
message-over_local next_node p a b net_a net_b bytes ack_bytes more talk running_a running_b carried
      ack_carried =
    let text = next_text next_node p a b in
    let (heard, answered) =
      exchange (local_frame net_a.module_address) (local_frame net_b.module_address) next_node p a b
        more (frame-IsProper net_a.module_address running_a.four running_a.lacks)
        (frame-IsProper net_b.module_address running_b.four running_b.lacks) talk.sendable
        talk.acknowledged talk.are_bytes talk.connected talk.fresh talk.receiving talk.new in
    (
      carried-Carries text bytes net_a net_b carried running_a running_b,
      heard,
      carried-Carries (ack_text a b) ack_bytes (receiver text net_a net_b) (sender text bytes net_a)
          (record { plain = ack_carried.plain; encoded = ack_carried.encoded })
          (carried-runs net_b (receiver text net_a net_b) running_b refl refl refl refl)
          (carried-runs net_a (sender text bytes net_a) running_a refl refl refl refl),
      answered,
    )
