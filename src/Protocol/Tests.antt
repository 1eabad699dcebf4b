-- ===== src/Protocol/Tests.antt =====
-- A node with the address 0131 receives lines.
mod Calls
mod Registration
mod Routing
use lora_multihop.Prelude.{
  ℕ, Text, codes, text_eq, true, List, [], ◌∷◌, ◌++◌, pos, some, ok, ◌≡◌, refl, arith, any,
}
use lora_multihop.Variables.{available_nodes}
use lora_multihop.Python.Base64.{value}
use lora_multihop.Header.{get_header_str}
use lora_multihop.Header.Parse.{is_available, create_header_obj_from_raw_message}
use lora_multihop.Header.Sendable.{IsSendable, line}
use lora_multihop.Header.RoundTrip.{IsFrame, parse-print}
use lora_multihop.RoutingTable.{contains}
use lora_multihop.Node.{Node, Command, start}
use lora_multihop.Protocol.Transmit.{send_header, remove_id}
use lora_multihop.Protocol.Delivery.{
  IsLine, message_packet, ack_packet, ack_with, delivered, with_neighbor, deliver, acknowledge,
}
use lora_multihop.Protocol.Receive.{process_incoming}
use lora_multihop.Protocol.Receive.Emission.{Allowed, process_incoming-Emits}
use lora_multihop.Protocol.Emission.{Emission}
use lora_multihop.Protocol.Answered.{send-answered, ack_line, sent_once}
use lora_multihop.Protocol.Send.{send_along}
use lora_multihop.Protocol.Copies.{deliver_twice, message_line}
use lora_multihop.Python.Number.{str_ℕ, str_ℤ}

abbrev me : Text
me = codes "0131"

abbrev peer : Text
peer = codes "0135"

abbrev hello : List ℕ
hello = 104 ∷ 105 ∷ []

-- a node that is connected with 0135 and whose modem confirms three commands
abbrev node : Node
node = record (start me (true ∷ true ∷ true ∷ []) []) { connected_node = some peer }

-- the line end that the module leaves
abbrev line_end : Text
line_end = codes "\r"

sample-IsFrame : IsFrame (codes "LR") (codes "0136") (codes "2C")
sample-IsFrame = record {
  start_lacks = ground arith;
  from_lacks = ground arith;
  size_lacks = ground arith;
  from_addr = refl;
}

sample-IsLine : IsLine (codes "LR") (codes "0136") (codes "2C") line_end
unfolding value
sample-IsLine = record {
  frame = sample-IsFrame;
  tail_lacks = ground arith;
  tail_skipped = ((omega arith, refl), tt);
}

hello-IsSendable : IsSendable (message_packet peer me me 5 1 hello)
unfolding is_available available_nodes contains text_eq any
hello-IsSendable = record {
  source_addr = (refl, ground arith);
  fits = ((refl, ground arith), (refl, ground arith), omega arith, omega arith, refl);
}

ack-IsSendable : (t : ℕ) → IsSendable (ack_with peer me t (pos 1))
unfolding is_available available_nodes contains text_eq any str_ℤ str_ℕ
ack-IsSendable t = record {
  source_addr = (refl, ground arith);
  fits = (ground arith, refl, ground arith);
}

deliver_example :
    process_incoming
      (line
        (codes "LR")
        (codes "0136")
        (codes "2C")
        (get_header_str (message_packet peer me me 5 1 hello) ++ line_end))
      node
    ≡ send_header
        (get_header_str (ack_packet me peer (pos 1)))
        (delivered hello (with_neighbor (codes "0136") node))
deliver_example =
    deliver (codes "LR") (codes "0136") (codes "2C") line_end peer me 5 1 hello node sample-IsLine
      hello-IsSendable (omega arith, (omega arith, tt)) (omega arith) refl refl

deliver_twice_example :
    (process_incoming
      (message_line (codes "LR") (codes "0136") (codes "2C") line_end peer me me 5 1 hello)
      (process_incoming
        (message_line (codes "LR") (codes "0136") (codes "2C") line_end peer me me 5 1 hello)
        node).1).1.received_messages_queue
    ≡ hello ∷ hello ∷ []
deliver_twice_example =
    deliver_twice (codes "LR") (codes "0136") (codes "2C") line_end peer me 5 1 hello node
      sample-IsLine hello-IsSendable (omega arith, (omega arith, tt)) (omega arith) refl refl

-- a node that waits for two acknowledgements
abbrev waiting : Node
waiting = record node { messages_acknowledgment = pos 1 ∷ pos 2 ∷ [] }

-- an acknowledgement that two nodes have passed on
acknowledge_example :
    process_incoming
      (line
        (codes "LR")
        (codes "0136")
        (codes "2C")
        (get_header_str (ack_with peer me 3 (pos 1)) ++ line_end))
      waiting
    ≡ (
      ok tt,
      record (with_neighbor (codes "0136") waiting) {
        messages_acknowledgment = remove_id (pos 1) (pos 1 ∷ pos 2 ∷ []);
      },
    )
acknowledge_example =
    acknowledge (codes "LR") (codes "0136") (codes "2C") line_end peer 3 (pos 1) waiting
      sample-IsLine (ack-IsSendable 3) (omega arith)

parse-print_example :
    create_header_obj_from_raw_message (
      line
        (codes "LR")
        (codes "0136")
        (codes "2C")
        (get_header_str (message_packet peer me me 5 1 hello)))
    ≡ ok (record { received_from = codes "0136"; packet = message_packet peer me me 5 1 hello })
parse-print_example =
    parse-print (codes "LR") (codes "0136") (codes "2C") (message_packet peer me me 5 1 hello)
      sample-IsFrame hello-IsSendable

-- a route request and a line of another module
abbrev lines : List Text
lines = codes "LR,0136,10,|0137|3|8|4|0138|" ∷ codes "LR,FFFF,0A,hello" ∷ []

process_incoming-Emits_example :
    (commands : List Command) × Emission
      (Allowed me (create_header_obj_from_raw_message (codes "LR,0136,10,|0137|3|8|4|0138|")))
      commands
    × ((process_incoming (codes "LR,0136,10,|0137|3|8|4|0138|") node).1.writing_q ≡ [] ++ commands)
process_incoming-Emits_example = process_incoming-Emits (codes "LR,0136,10,|0137|3|8|4|0138|") node

send-answered_example :
    send_along peer hello peer (record node {
      status_q = true ∷ true ∷ [];
      arrivals =
          (ack_line (codes "LR") (codes "0136") (codes "2C") line_end peer peer hello node [] []
            ∷ [])
          ∷ [];
    })
    ≡ (
      ok tt,
      with_neighbor
          (codes "0136")
          (sent_once (codes "LR") (codes "0136") (codes "2C") line_end peer peer hello node [] []),
    )
unfolding any
send-answered_example =
    send-answered (codes "LR") (codes "0136") (codes "2C") line_end peer peer hello node [] []
      sample-IsLine (ack-IsSendable 5) refl refl
