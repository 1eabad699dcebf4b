-- ===== src/Node.antt =====
-- The state of one running node: the attributes of `Protocol` (src/lora_multihop/protocol.py), the
-- queues of src/lora_multihop/serial_connection.py that it uses, and what it reads from outside.
pub mod Action
use lora_multihop.Prelude.{ℕ, Text, Bool, true, false, List, [], Option, none, ℤ}
use lora_multihop.RoutingTable
use lora_multihop.RoutingTable.{RoutingTable}

-- An entry of `writing_q`: a text for the modem and the answers that confirm it.
pub record Command : Type 0 where
  pub text : Text
  pub verify_list : List Text

-- `status_q` holds the results that the writing thread will put, in order: `get` with a timeout
-- raises `queue.Empty` where there is none. `arrivals` holds, for each sleep to come, the lines that
-- the receiving thread processes meanwhile. `receiving` says that this thread still runs.
-- `my_address` is `variables.MY_ADDRESS`, and `now` the clock, in microseconds.
pub record Node : Type 0 where
  pub my_address : Text
  pub routing_table : RoutingTable
  pub received_messages_queue : List (List ℕ)
  pub sending_queue : List Text
  pub connected_node : Option Text
  pub message_counter : ℕ
  pub received_own_registration_message : Bool
  pub messages_acknowledgment : List ℤ
  pub writing_q : List Command
  pub status_q : List Bool
  pub now : ℕ
  pub receiving : Bool
  pub arrivals : List (List Text)

-- `Protocol()` on a node with this address, with what the modem and the network will answer.
abbrev pub start : Text → List Bool → List (List Text) → Node
start my_address status_q arrivals = record {
  my_address = my_address;
  routing_table = RoutingTable.empty;
  received_messages_queue = [];
  sending_queue = [];
  connected_node = none;
  message_counter = 0;
  received_own_registration_message = false;
  messages_acknowledgment = [];
  writing_q = [];
  status_q = status_q;
  now = 0;
  receiving = true;
  arrivals = arrivals;
}
