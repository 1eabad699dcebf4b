-- ===== src/Protocol/Calls.antt =====
-- The methods of the protocol in any order, as its users and its receiving thread call them.
use lora_multihop.Prelude.{ℕ, ◌+◌, Text, Bool, List, [], ◌∷◌}
use lora_multihop.Node.{Node}
use lora_multihop.Protocol.Receive.{process_incoming_message}
use lora_multihop.Protocol.Receive.Stable.{IsStable}
use lora_multihop.Protocol.Receive.Handled.{lines-Keeps}
use lora_multihop.Protocol.Receive.Orderly.{IsOrderly}
use lora_multihop.Protocol.Receive.Invariant.{IsOrderly-IsStable}
use lora_multihop.Protocol.Send.{
  send_message, send_registration_message, send_connect_request_header,
  send_disconnect_request_header,
}
use lora_multihop.Protocol.Send.Stable.{
  send_message-Keeps, send_registration-Keeps, send_connect-Keeps, send_disconnect-Keeps,
}

-- A call of a method, or time that passes between two calls.
pub data Call : Type 0 where
  incoming : List Text → Call
  send : List ℕ → Call
  register : Bool → Text → Call
  connect : Text → Text → Text → Call
  disconnect : Text → Text → Call
  elapse : ℕ → Call

-- The node after the call, whether it returned or raised.
unfoldable pub called : Call → Node → Node
called (incoming lines) s = process_incoming_message lines s
called (send payload) s = (send_message payload s).1
called (register subscribe peer_id) s = (send_registration_message subscribe peer_id s).1
called (connect source target timeout) s = (send_connect_request_header source target timeout s).1
called (disconnect source target) s = (send_disconnect_request_header source target s).1
called (elapse time) s = record s { now = s.now + time }

unfoldable pub called_all : List Call → Node → Node
called_all [] s = s
called_all (call ∷ rest) s = called_all rest (called call s)

module _ {R : Node → Node → Type 0} (stable : IsStable R) where
  called-Keeps : (call : Call) (s : Node) → R s (called call s)
  unfolding called
  called-Keeps (incoming lines) s = lines-Keeps stable lines s
  called-Keeps (send payload) s = (send_message-Keeps stable payload).afterwards s
  called-Keeps (register subscribe peer_id) s =
      (send_registration-Keeps stable subscribe peer_id).afterwards s
  called-Keeps (connect source target timeout) s =
      (send_connect-Keeps stable source target timeout).afterwards s
  called-Keeps (disconnect source target) s =
      (send_disconnect-Keeps stable source target).afterwards s
  called-Keeps (elapse time) s = stable.passes s (s.now + time) s.arrivals

  pub called_all-Keeps : (calls : List Call) (s : Node) → R s (called_all calls s)
  unfolding called_all
  called_all-Keeps [] s = stable.order.reflexive s
  called_all-Keeps (call ∷ rest) s =
      stable.order.transitive s _ _ (called-Keeps call s) (called_all-Keeps rest (called call s))

-- Whatever is sent, registered and connected, whatever lines arrive, also while a method waits, and
-- whatever the modem answers: from orderly tables every sequence of calls leaves orderly tables, in
-- which no route and no peer is entered twice and no message is recorded as received. This holds
-- whether the calls return or raise.
pub called_all-IsOrderly :
    (calls : List Call) (s : Node)
    → IsOrderly s.routing_table
    → IsOrderly (called_all calls s).routing_table
called_all-IsOrderly calls s o = called_all-Keeps IsOrderly-IsStable calls s o
