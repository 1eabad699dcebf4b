-- ===== src/Application/Serving.antt =====
-- What the loop for administration does to the node.
use lora_multihop.Prelude.{
  ◌≡◌, refl, ℕ, Text, Bool, true, false, if◌then◌else◌, List, [], ◌∷◌, Result, ok, raised,
  socket_timeout, connection_reset_error,
}
use lora_multihop.Variables.{java_ipc_message_values_delimiter}
use lora_multihop.Python.Split.{split}
use lora_multihop.RoutingTable.{get_peers}
use lora_multihop.Node.{Node}
use lora_multihop.Node.Action.{Action}
use lora_multihop.Node.Action.Keeps.{Keeps}
use lora_multihop.Protocol.Receive.{stop_receiving}
use lora_multihop.Protocol.Receive.Stable.{IsStable}
use lora_multihop.Protocol.Send.Stable.{
  send_registration-Keeps, send_connect-Keeps, send_disconnect-Keeps,
}
use lora_multihop.Ipc.Socket.{Sending, bytes_sent}
use lora_multihop.Ipc.Server.{
  Server, Serving, Phase, listening, serving, over, Event, accepted, accept_timeout, received,
  closed_by_client, recv_timeout, broken_pipe, connection_reset, proceed, ◌>>=◌, idle, result, call,
  send, handle_values, handle_request, handle_message, handle_messages, handle_data, forward_queue,
  sent_as, next_send, caught, caught_outside, time_out, serve, stop_ipc_instance, registered_peers,
}

pub record Serves (R : Node → Node → Type 0) {A : Type 0} (m : Serving A) : Type 0 where
  pub afterwards : (s : Server) → R s.node (m s).1.node

module _ {R : Node → Node → Type 0} (stable : IsStable R) where
  untouched : {A : Type 0} (m : Serving A) → ((s : Server) → (m s).1.node ≡ s.node) → Serves R m
  untouched m same = record { afterwards = λ s. rw (same s) (stable.order.reflexive s.node) }

  Serves-idle : Serves R idle
  unfolding idle
  Serves-idle = untouched _ (λ s. refl)

  Serves-result : {A : Type 0} (r : Result A) → Serves R (result r)
  unfolding result
  Serves-result r = untouched _ (λ s. refl)

  Serves-call : {A : Type 0} (m : Action A) → Keeps R m → Serves R (call m)
  unfolding call
  Serves-call m keeps = record { afterwards = λ s. keeps.afterwards s.node }

  proceed-Serves :
      {A B : Type 0} (r : Result A) (rest : A → Serving B) (node : Node) (s : Server)
      → ((value : A) → Serves R (rest value))
      → R node s.node
      → R node (proceed rest (r, s)).1.node
  proceed-Serves (ok value) rest node s step h =
      stable.order.transitive node s.node _ h ((step value).afterwards s)
  proceed-Serves (raised e) rest node s step h = h

  Serves-bind :
      {A B : Type 0} (m : Serving A) (rest : A → Serving B)
      → ((value : A) → Serves R (rest value))
      → Serves R m
      → Serves R (m >>= rest)
  unfolding ◌>>=◌
  Serves-bind m rest step first = record {
    afterwards = λ s. proceed-Serves (m s).0 rest s.node (m s).1 step (first.afterwards s);
  }

  Serves-if :
      {A : Type 0} (test : Bool) (body other : Serving A)
      → Serves R other
      → Serves R body
      → Serves R (if test then body else other)
  Serves-if true body other otherwise then_case = then_case
  Serves-if false body other otherwise then_case = otherwise

  ruleset serving_rules = (Serves-idle, Serves-result, Serves-call, Serves-bind, Serves-if)

  sent-Serves : (r : Result (List ℕ)) → Serves R (sent_as r)
  sent-Serves (ok bytes) = untouched _ (λ s. refl)
  sent-Serves (raised e) = untouched _ (λ s. refl)

  next-node :
      (queue : List Sending) (bytes : List ℕ) (s : Server)
      → R s.node (next_send queue bytes s).1.node
  next-node [] bytes s = (sent-Serves (ok bytes)).afterwards s
  next-node (sending ∷ later) bytes s =
      (sent-Serves (bytes_sent sending bytes)).afterwards (record s { sending = later })

  next_send-Serves : (bytes : List ℕ) → Serves R (λ s. next_send s.sending bytes s)
  next_send-Serves bytes = record { afterwards = λ s. next-node s.sending bytes s }

  send-Serves : (text : Text) → Serves R (send text)
  unfolding send
  send-Serves text = search (serving_rules, next_send-Serves)

  values-Serves : (kind : Text) (values : List Text) → Serves R (handle_values kind values)
  unfolding handle_values
  values-Serves kind values =
      search
        (
          serving_rules,
          send_registration-Keeps stable,
          send_connect-Keeps stable,
          send_disconnect-Keeps stable,
        )
        depth 16

  request-Serves : (values : List Text) → Serves R (handle_request values)
  unfolding handle_request
  request-Serves values = search (serving_rules, values-Serves) depth 10

  peers-Serves : Serves R (λ s. send (registered_peers (get_peers s.node.routing_table)) s)
  peers-Serves = record {
    afterwards =
        λ s. (send-Serves (registered_peers (get_peers s.node.routing_table))).afterwards s;
  }

  message-Serves : (message : Text) → Serves R (handle_message message)
  unfolding handle_message
  message-Serves [] = Serves-idle
  message-Serves (c ∷ message) =
      Serves-if _ _ _ (request-Serves (split java_ipc_message_values_delimiter (c ∷ message)))
        peers-Serves

  messages-Serves : (messages : List Text) → Serves R (handle_messages messages)
  unfolding handle_messages
  messages-Serves [] = Serves-idle
  messages-Serves (message ∷ later) =
      Serves-bind _ _ (λ _. messages-Serves later) (message-Serves message)

  data-Serves : (bytes : List ℕ) → Serves R (handle_data bytes)
  unfolding handle_data
  data-Serves bytes = search (serving_rules, messages-Serves) depth 10

  next-Serves :
      (payload : Text) (later : List Text)
      → Serves R (λ s. send payload (record s { node = record s.node { sending_queue = later } }))
  next-Serves payload later = record {
    afterwards = λ s.
        stable.order.transitive s.node (record s.node { sending_queue = later }) _
          (stable.forwards s.node later)
          ((send-Serves payload).afterwards
            (record s { node = record s.node { sending_queue = later } }));
  }

  queue-Serves : (queue : List Text) → Serves R (forward_queue queue)
  unfolding forward_queue
  queue-Serves [] = Serves-idle
  queue-Serves (payload ∷ later) =
      Serves-bind _ _ (λ _. queue-Serves later) (next-Serves payload later)

  outside-Serves :
      (node : Node) (r : Result (Unit {0})) (s : Server)
      → R node s.node
      → R node (caught_outside (r, s)).node
  outside-Serves node (ok a) s h = h
  outside-Serves node (raised socket_timeout) s h = h
  outside-Serves node (raised connection_reset_error) s h = h
  outside-Serves node (raised _) s h = h

  time_out-Serves : (s : Server) → R s.node (time_out s).node
  unfolding time_out
  time_out-Serves s =
      outside-Serves s.node (forward_queue s.node.sending_queue s).0
        (forward_queue s.node.sending_queue s).1 ((queue-Serves s.node.sending_queue).afterwards s)

  caught-Serves :
      (node : Node) (r : Result (Unit {0})) (s : Server)
      → R node s.node
      → R node (caught (r, s)).node
  caught-Serves node (ok a) s h = h
  caught-Serves node (raised socket_timeout) s h =
      stable.order.transitive node s.node _ h (time_out-Serves s)
  caught-Serves node (raised _) s h = h

  -- An event at the socket for administration.
  pub serve-keeps :
      (phase : Phase) (event : Event) (s : Server) → R s.node (serve phase event s).node
  unfolding serve
  serve-keeps listening accepted s = stable.order.reflexive s.node
  serve-keeps serving (received bytes) s =
      caught-Serves s.node (handle_data bytes s).0 (handle_data bytes s).1
        ((data-Serves bytes).afterwards s)
  serve-keeps serving closed_by_client s = stable.order.reflexive s.node
  serve-keeps serving recv_timeout s = time_out-Serves s
  serve-keeps serving broken_pipe s = stable.order.reflexive s.node
  serve-keeps serving connection_reset s = stable.order.reflexive s.node
  serve-keeps listening (received bytes) s = stable.order.reflexive s.node
  serve-keeps listening accept_timeout s = stable.order.reflexive s.node
  serve-keeps listening closed_by_client s = stable.order.reflexive s.node
  serve-keeps listening recv_timeout s = stable.order.reflexive s.node
  serve-keeps listening broken_pipe s = stable.order.reflexive s.node
  serve-keeps listening connection_reset s = stable.order.reflexive s.node
  serve-keeps serving accepted s = stable.order.reflexive s.node
  serve-keeps serving accept_timeout s = stable.order.reflexive s.node
  serve-keeps over event s = stable.order.reflexive s.node

  pub stop-keeps : (s : Server) → R s.node (stop_ipc_instance s).node
  unfolding stop_ipc_instance stop_receiving
  stop-keeps s = stable.stops s.node
