-- ===== src/LocalNetwork/Tests.antt =====
-- Two nodes, 0131 and 0132, over the local network.
use lora_multihop.Prelude.{
  ℕ, Text, codes, text_eq, true, List, [], ◌∷◌, ◌++◌, any, some, ok, ◌≡◌, refl, arith,
}
use lora_multihop.Python.Utf8.{encode, encode_text, is_scalar, char_bytes}
use lora_multihop.Python.Find.{occurs, starts_with}
use lora_multihop.SerialConnection.Answer.{Line, str_to_bytes}
use lora_multihop.SerialConnection.Confirmed.{entries_of}
use lora_multihop.Protocol.Silence.{transmission, confirmations}
use lora_multihop.Protocol.Unanswered.{message_text}
use lora_multihop.Network.Exchange.{framed}
use lora_multihop.LocalNetwork.{LocalNetwork, start_sending, stop_local_consumer_producer}
use lora_multihop.LocalNetwork.Link.{local_frame}
use lora_multihop.Header.{get_header_str, create_header_str}
use lora_multihop.Python.Base64.{b64encode}
use lora_multihop.Variables.{available_nodes}
use lora_multihop.Header.Parse.{is_available}
use lora_multihop.RoutingTable.{contains}
use lora_multihop.Python.Number.{str_ℤ, str_ℕ, format_06d}
use lora_multihop.Node.{Node, start}
use lora_multihop.Protocol.Receive.{process_incoming}
use lora_multihop.Protocol.Send.{send_along}
use lora_multihop.Protocol.Delivery.{delivered, with_neighbor}
use lora_multihop.Protocol.Answered.{sent_once}
use lora_multihop.LocalNetwork.Message.{
  CanTalk, IsRunning, IsCarried, Carries, sender, receiver, next_text, ack_text, message-over_local,
}
use lora_multihop.LocalNetwork.Swallowed.{message-swallowed}

abbrev started : Text → LocalNetwork
started module_address = record {
  module_address = module_address;
  writing_q = [];
  status_q = [];
  response_q = [];
  sent = [];
  tcp_communication_running = true;
  sending_alive = true;
  receiving_alive = true;
}

abbrev a : LocalNetwork
a = started (codes "0131")

abbrev b : LocalNetwork
b = started (codes "0132")

abbrev request : Text
request = codes "|0131|3|5|0|0132|"

abbrev alice : Node
alice = start (codes "0131") [] []

abbrev bob : Node
bob = record (start (codes "0132") [] []) { connected_node = some (codes "0131") }

abbrev hi : List ℕ
hi = codes "hi"

abbrev hi_line : Line
hi_line = codes "LR,0131,10,|0131|1|5|0132|0132|000001|aGk=|"

abbrev ack_line : Line
ack_line = codes "LR,0132,10,|0132|2|5|0131|1|"

hi-CanTalk : CanTalk (codes "0132") hi alice bob
unfolding is_available available_nodes contains text_eq any str_ℤ str_ℕ
hi-CanTalk = record {
  sendable = record {
    source_addr = (refl, ground arith);
    fits = ((refl, ground arith), (refl, ground arith), omega arith, omega arith, refl);
  };
  acknowledged = record {
    source_addr = (refl, ground arith);
    fits = (ground arith, refl, ground arith);
  };
  are_bytes = (omega arith, (omega arith, tt));
  connected = refl;
  fresh = refl;
  receiving = refl;
  new = refl;
}

a-IsRunning : IsRunning a
a-IsRunning = record {
  sends = refl;
  runs = refl;
  receives = refl;
  four = refl;
  lacks = ground arith;
}

b-IsRunning : IsRunning b
b-IsRunning = record {
  sends = refl;
  runs = refl;
  receives = refl;
  four = refl;
  lacks = ground arith;
}

hi-IsCarried : IsCarried (next_text (codes "0132") hi alice bob) hi_line a
unfolding str_to_bytes encode encode_text is_scalar char_bytes occurs starts_with get_header_str
    create_header_str str_ℕ str_ℤ format_06d b64encode
hi-IsCarried = record { plain = refl; encoded = refl }

ack-IsCarried : IsCarried (ack_text alice bob) ack_line b
unfolding str_to_bytes encode encode_text is_scalar char_bytes occurs starts_with get_header_str
    create_header_str str_ℕ str_ℤ
ack-IsCarried = record { plain = refl; encoded = refl }

message-over_local_example :
    Carries (next_text (codes "0132") hi alice bob) hi_line a b
    × (process_incoming
          (framed (local_frame (codes "0131")) (next_text (codes "0132") hi alice bob))
          (record bob { status_q = confirmations (ack_text alice bob ∷ []) [] })
        ≡ (
          ok tt,
          record (delivered hi (with_neighbor (codes "0131") bob)) {
            writing_q = [] ++ transmission (ack_text alice bob ∷ []);
            status_q = [];
          },
        ))
    × Carries
        (ack_text alice bob)
        ack_line
        (receiver (next_text (codes "0132") hi alice bob) a b)
        (sender (next_text (codes "0132") hi alice bob) hi_line a)
    × (send_along (codes "0132") hi (codes "0132") (record alice {
      status_q = confirmations (next_text (codes "0132") hi alice bob ∷ []) [];
      arrivals = (framed (local_frame (codes "0132")) (ack_text alice bob) ∷ []) ∷ [];
    })
        ≡ (
          ok tt,
          with_neighbor (codes "0132") (
              sent_once
                (codes "LR")
                (codes "0132")
                (codes "10")
                []
                (codes "0132")
                (codes "0132")
                hi
                alice
                []
                []),
        ))
message-over_local_example =
    message-over_local (codes "0132") hi alice bob a b hi_line ack_line [] hi-CanTalk a-IsRunning
      b-IsRunning hi-IsCarried ack-IsCarried

-- the payload 01 30
message-swallowed_example :
    start_sending (record a {
      writing_q = entries_of (
          transmission
            (message_text (codes "0131") (codes "0132") (codes "0132") 1 (1 ∷ 48 ∷ []) ∷ []));
    })
    ≡ record a {
      writing_q = [];
      status_q =
          []
          ++ confirmations
              (message_text (codes "0131") (codes "0132") (codes "0132") 1 (1 ∷ 48 ∷ []) ∷ [])
              [];
    }
message-swallowed_example =
    message-swallowed (codes "0131") (codes "0132") (codes "0132") 1 48 [] a (omega arith)
      (omega arith) refl refl

-- a stopped network sends nothing
stopped :
    start_sending (
      stop_local_consumer_producer
        (record a { writing_q = entries_of (transmission (request ∷ [])) }))
    ≡ stop_local_consumer_producer
        (record a { writing_q = entries_of (transmission (request ∷ [])) })
unfolding start_sending stop_local_consumer_producer
stopped = refl
