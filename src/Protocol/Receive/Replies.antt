-- ===== src/Protocol/Receive/Replies.antt =====
-- What a node may send as a consequence of a header that it received.
use lora_multihop.Prelude.{Text, Bool, ℤ, pos, ◌+ℤ◌}
use lora_multihop.Header.{
  Body, route_request, route_reply, message, route_error, message_acknowledge, registration,
  connect_request, disconnect_request, Header, get_header_str,
}
use lora_multihop.Protocol.Receive.{forwarded}

-- The same request, one hop further: only the hops of a route message and the next node change.
pub data Onward : Body → Body → Type 0 where
  request_on :
      (hops : ℤ) (end_node : Text)
      → Onward (route_request hops end_node) (route_request (hops +ℤ pos 1) end_node)
  reply_on :
      (hops : ℤ) (end_node next_node next : Text)
      → Onward (route_reply hops end_node next_node) (route_reply (hops +ℤ pos 1) end_node next)
  message_on :
      (destination next_node next : Text) (id : ℤ) (payload : Text)
      → Onward (message destination next_node id payload) (message destination next id payload)
  error_on : (broken_node : Text) → Onward (route_error broken_node) (route_error broken_node)
  acknowledge_on :
      (destination id : Text)
      → Onward (message_acknowledge destination id) (message_acknowledge destination id)
  registration_on :
      (subscribe : Bool) (peer_id : Text)
      → Onward (registration subscribe peer_id) (registration subscribe peer_id)
  connect_on :
      (end_node next_node next source target timeout : Text)
      → Onward
          (connect_request end_node next_node source target timeout)
          (connect_request end_node next source target timeout)
  disconnect_on :
      (end_node next_node next source target : Text)
      → Onward
          (disconnect_request end_node next_node source target)
          (disconnect_request end_node next source target)

-- The two bodies that a node answers: a route request and a message.
pub data Requests : Body → Type 0 where
  requests : (hops : ℤ) (end_node : Text) → Requests (route_request hops end_node)

pub data Tells : Body → Type 0 where
  tells :
      (destination next_node : Text) (id : ℤ) (payload : Text)
      → Tells (message destination next_node id payload)

-- What the node may send on a header: the header one hop further with its ttl less one, or an answer
-- of its own to the source: a route reply to a request, an acknowledgement of a message.
pub data MaySend (me : Text) (h : Header) (body : Body) : Text → Type 0 where
  onward : (further : Body) → Onward body further → MaySend me h body (forwarded h further)
  reply :
      Requests body
      → MaySend me h body (
          get_header_str (record {
            source = me;
            ttl = pos 5;
            body = route_reply (pos 0) h.source h.received_from;
          }))
  acknowledge :
      (id : Text)
      → Tells body
      → MaySend me h body (
          get_header_str
            (record { source = me; ttl = pos 5; body = message_acknowledge h.source id }))
