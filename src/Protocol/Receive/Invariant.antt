-- ===== src/Protocol/Receive/Invariant.antt =====
-- The order of the tables is kept by each method that changes them, so by all the lines that a node
-- processes.
use lora_multihop.Prelude.{ℕ, Text, List}
use lora_multihop.RoutingTable.{RoutingTable, add_connect_request}
use lora_multihop.Node.{Node}
use lora_multihop.Protocol.Receive.{process_incoming_message}
use lora_multihop.Protocol.Receive.Stable.{
  IsStable, TableMethod, add, neighbor, unsupported, delete, join, leave, request, registered,
  connect, Preserves, Preserves-IsStable,
}
use lora_multihop.Protocol.Receive.Handled.{lines-Keeps}
use lora_multihop.Protocol.Receive.Orderly.{
  IsOrderly, add-IsOrderly, neighbor-IsOrderly, unsupported-IsOrderly, delete-IsOrderly,
  add_peer-IsOrderly, delete_peer-IsOrderly, request-IsOrderly, registration-IsOrderly,
}

connect-IsOrderly :
    (now : ℕ) (a b : Text) (t : RoutingTable)
    → IsOrderly t
    → IsOrderly (add_connect_request now a b t)
unfolding add_connect_request
connect-IsOrderly now a b t o = record {
  routes = o.routes;
  peers = o.peers;
  none_received = o.none_received;
}

-- Every method keeps the tables orderly.
IsOrderly-method :
    (f : RoutingTable → RoutingTable) (t : RoutingTable)
    → TableMethod f
    → IsOrderly t
    → IsOrderly (f t)
IsOrderly-method _ t (add d n hops) o = add-IsOrderly d n hops t o
IsOrderly-method _ t (neighbor a) o = neighbor-IsOrderly a t o
IsOrderly-method _ t (unsupported a) o = unsupported-IsOrderly a t o
IsOrderly-method _ t (delete a) o = delete-IsOrderly a t o
IsOrderly-method _ t (join p a) o = add_peer-IsOrderly p a t o
IsOrderly-method _ t (leave p a) o = delete_peer-IsOrderly p a t o
IsOrderly-method _ t (request now a) o = request-IsOrderly now a t o
IsOrderly-method _ t (registered now a) o = registration-IsOrderly now a t o
IsOrderly-method _ t (connect now a b) o = connect-IsOrderly now a b t o

pub IsOrderly-IsStable : IsStable (Preserves IsOrderly)
IsOrderly-IsStable = Preserves-IsStable IsOrderly-method

-- Whatever lines arrive, valid or not, and whatever the modem answers: from orderly tables the
-- receiving thread leaves orderly tables, in which no route and no peer is entered twice and no
-- message is recorded as received.
process_all-IsOrderly :
    (lines : List Text) (s : Node)
    → IsOrderly s.routing_table
    → IsOrderly (process_incoming_message lines s).routing_table
process_all-IsOrderly lines s o = lines-Keeps IsOrderly-IsStable lines s o
