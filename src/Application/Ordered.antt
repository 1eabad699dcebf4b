-- ===== src/Application/Ordered.antt =====
-- The data that the application receives.
use lora_multihop.Prelude.{
  All, ℕ, Bool, true, false, if◌then◌else◌, List, [], ◌∷◌, ◌++◌, append_assoc, append-nil, subst,
  Result, ok, raised, ◌≡◌, refl, sym, ap, ◌∙◌,
}
use lora_multihop.Node.{Node}
use lora_multihop.Protocol.Receive.Stable.{IsStable}
use lora_multihop.Protocol.Receive.Handled.{lines-Keeps}
use lora_multihop.Protocol.Send.{send_message}
use lora_multihop.Protocol.Send.Stable.{send_message-Keeps}
use lora_multihop.Ipc.Socket.{takes_all}
use lora_multihop.Ipc.Transfer.{
  Transfer, Arrival, bytes_from, socket_error, transfer_round, pass_on, first_message, after_send,
}
use lora_multihop.Application.{
  Application, Happening, administration, exchange, lines, elapse, stop, happens, run, transfer_of,
  exchanged,
}
use lora_multihop.Application.Serving.{serve-keeps, stop-keeps}

-- A list that goes on where another ends.
abbrev pub Extends : List (List ℕ) → List (List ℕ) → Type 0
Extends l longer = (more : List (List ℕ)) × (longer ≡ l ++ more)

Extends-refl : (l : List (List ℕ)) → Extends l l
Extends-refl l = ([], sym (append-nil l))

Extends-trans : (a b c : List (List ℕ)) → Extends a b → Extends b c → Extends a c
Extends-trans a b c (m, p) (n, q) = (m ++ n, q ∙ ap (λ l. l ++ n) p ∙ append_assoc a m n)

Extends-append : (a b c : List (List ℕ)) → Extends b c → Extends (a ++ b) (a ++ c)
Extends-append a b c (m, p) = (m, ap (◌++◌ a) p ∙ sym (append_assoc a b m))

-- The node has appended to the data that it received.
abbrev pub Appends : Node → Node → Type 0
Appends s t = Extends s.received_messages_queue t.received_messages_queue

pub Appends-IsStable : IsStable Appends
Appends-IsStable = record {
  order = record {
    reflexive = λ s. Extends-refl s.received_messages_queue;
    transitive = λ s t u.
        Extends-trans s.received_messages_queue t.received_messages_queue u.received_messages_queue;
  };
  table = λ f s method. Extends-refl s.received_messages_queue;
  writes = λ s q. Extends-refl s.received_messages_queue;
  reads_status = λ s q. Extends-refl s.received_messages_queue;
  receives = λ s bytes. (bytes ∷ [], refl);
  acknowledges = λ s ids. Extends-refl s.received_messages_queue;
  hears = λ s b. Extends-refl s.received_messages_queue;
  connects = λ s node text. Extends-refl s.received_messages_queue;
  forwards = λ s q. Extends-refl s.received_messages_queue;
  counts = λ s. Extends-refl s.received_messages_queue;
  passes = λ s time more. Extends-refl s.received_messages_queue;
  stops = λ s. Extends-refl s.received_messages_queue;
}

-- What was sent to the application, and then what waits for it.
abbrev delivery : List (List ℕ) → Node → List (List ℕ)
delivery sent node = sent ++ node.received_messages_queue

-- Passing a message on moves it, and nothing else.
first-delivery :
    (queue : List (List ℕ)) (t : Transfer)
    → queue ≡ t.node.received_messages_queue
    → delivery (first_message takes_all queue t).sent (first_message takes_all queue t).node
      ≡ delivery t.sent t.node
first-delivery [] t same = refl
first-delivery (message ∷ later) t same =
    append_assoc t.sent (message ∷ []) later ∙ ap (◌++◌ t.sent) same

pass_on-delivery :
    (t : Transfer)
    → delivery (pass_on takes_all t).sent (pass_on takes_all t).node ≡ delivery t.sent t.node
unfolding pass_on
pass_on-delivery t = first-delivery t.node.received_messages_queue t refl

after_send-delivery :
    (r : Result (Unit {0})) (node : Node) (t : Transfer)
    → Appends t.node node
    → Extends
        (delivery t.sent t.node)
        (delivery (after_send takes_all t (r, node)).sent (after_send takes_all t (r, node)).node)
after_send-delivery (ok a) node t h =
    subst (Extends (delivery t.sent t.node)) (sym (pass_on-delivery (record t { node = node })))
      (Extends-append t.sent t.node.received_messages_queue node.received_messages_queue h)
after_send-delivery (raised e) node t h =
    Extends-append t.sent t.node.received_messages_queue node.received_messages_queue h

round-delivery :
    (arrival : Arrival) (t : Transfer)
    → Extends (delivery t.sent t.node) (
        delivery
          (transfer_round arrival takes_all t).sent
          (transfer_round arrival takes_all t).node)
unfolding transfer_round
round-delivery (bytes_from []) t = Extends-refl _
round-delivery (bytes_from (b ∷ bytes)) t =
    after_send-delivery (send_message (b ∷ bytes) t.node).0 (send_message (b ∷ bytes) t.node).1 t
      ((send_message-Keeps Appends-IsStable (b ∷ bytes)).afterwards t.node)
round-delivery socket_error t =
    subst (Extends (delivery t.sent t.node)) (sym (pass_on-delivery t)) (Extends-refl _)

abbrev delivered : Application → List (List ℕ)
delivered a = delivery a.sent a.server.node

exchange-delivery :
    (running : Bool) (arrival : Arrival) (a : Application)
    → Extends (delivered a) (
        delivered
          (if running then exchanged (transfer_round arrival takes_all (transfer_of a)) a else a))
exchange-delivery false arrival a = Extends-refl _
exchange-delivery true arrival a = round-delivery arrival (transfer_of a)

-- At the socket for data all bytes of a message are taken.
abbrev pub TakesAll : Happening → Type 0
TakesAll (exchange arrival sending) = sending ≡ takes_all
TakesAll (administration event) = Unit
TakesAll (lines texts) = Unit
TakesAll (elapse time) = Unit
TakesAll stop = Unit

happens-delivery :
    (happening : Happening) (a : Application)
    → TakesAll happening
    → Extends (delivered a) (delivered (happens happening a))
unfolding happens
happens-delivery (administration event) a h =
    Extends-append a.sent _ _ (serve-keeps Appends-IsStable a.server.phase event a.server)
happens-delivery (exchange arrival sending) a h =
    subst (λ k. Extends (delivered a) (delivered (happens (exchange arrival k) a))) (sym h)
      (exchange-delivery a.running arrival a)
happens-delivery (lines texts) a h =
    Extends-append a.sent _ _ (lines-Keeps Appends-IsStable texts a.server.node)
happens-delivery (elapse time) a h = Extends-refl _
happens-delivery stop a h = Extends-append a.sent _ _ (stop-keeps Appends-IsStable a.server)

first-sent :
    (queue : List (List ℕ)) (t : Transfer) → Extends t.sent (first_message takes_all queue t).sent
first-sent [] t = Extends-refl t.sent
first-sent (message ∷ later) t = (message ∷ [], refl)

after_send-sent :
    (r : Result (Unit {0})) (node : Node) (t : Transfer)
    → Extends t.sent (after_send takes_all t (r, node)).sent
unfolding pass_on
after_send-sent (ok a) node t = first-sent node.received_messages_queue (record t { node = node })
after_send-sent (raised e) node t = Extends-refl t.sent

round-sent :
    (arrival : Arrival) (t : Transfer) → Extends t.sent (transfer_round arrival takes_all t).sent
unfolding transfer_round pass_on
round-sent (bytes_from []) t = Extends-refl t.sent
round-sent (bytes_from (b ∷ bytes)) t =
    after_send-sent (send_message (b ∷ bytes) t.node).0 (send_message (b ∷ bytes) t.node).1 t
round-sent socket_error t = first-sent t.node.received_messages_queue t

exchange-sent :
    (running : Bool) (arrival : Arrival) (a : Application)
    → Extends a.sent
        (if running then exchanged (transfer_round arrival takes_all (transfer_of a)) a else a).sent
exchange-sent false arrival a = Extends-refl a.sent
exchange-sent true arrival a = round-sent arrival (transfer_of a)

happens-sent :
    (happening : Happening) (a : Application)
    → TakesAll happening
    → Extends a.sent (happens happening a).sent
unfolding happens
happens-sent (administration event) a h = Extends-refl a.sent
happens-sent (exchange arrival sending) a h =
    subst (λ k. Extends a.sent (happens (exchange arrival k) a).sent) (sym h)
      (exchange-sent a.running arrival a)
happens-sent (lines texts) a h = Extends-refl a.sent
happens-sent (elapse time) a h = Extends-refl a.sent
happens-sent stop a h = Extends-refl a.sent

run-sent :
    (happenings : List Happening) (a : Application)
    → All TakesAll happenings
    → Extends a.sent (run happenings a).sent
unfolding run
run-sent [] a h = Extends-refl a.sent
run-sent (happening ∷ later) a h =
    Extends-trans a.sent (happens happening a).sent (run later (happens happening a)).sent
      (happens-sent happening a h.0) (run-sent later (happens happening a) h.1)

run-delivery :
    (happenings : List Happening) (a : Application)
    → All TakesAll happenings
    → Extends (delivered a) (delivered (run happenings a))
unfolding run
run-delivery [] a h = Extends-refl _
run-delivery (happening ∷ later) a h =
    Extends-trans (delivered a) (delivered (happens happening a))
      (delivered (run later (happens happening a))) (happens-delivery happening a h.0)
      (run-delivery later (happens happening a) h.1)

-- Whatever happens at the two sockets, as long as every send of data to the application takes all of
-- its bytes, whatever lines arrive meanwhile and whether the methods of the protocol return or raise:
-- what was sent to the application only grows at its end, and so does what was sent to it followed by
-- what still waits for it. So data that a node has received is sent to the application in the order in
-- which it was queued, each message once, and none that waits is lost or overtaken.
pub run-ordered :
    (happenings : List Happening) (a : Application)
    → All TakesAll happenings
    → ((more : List (List ℕ)) × ((run happenings a).sent ≡ a.sent ++ more))
      × ((more : List (List ℕ)) × ((run happenings a).sent
              ++ (run happenings a).server.node.received_messages_queue
            ≡ (a.sent ++ a.server.node.received_messages_queue) ++ more))
run-ordered happenings a h = (run-sent happenings a h, run-delivery happenings a h)
