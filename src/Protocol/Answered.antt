-- ===== src/Protocol/Answered.antt =====
-- A message whose acknowledgement arrives during the first sleep.
use lora_multihop.Prelude.{
  ℕ, suc, ◌+◌, Text, Bool, true, false, not, List, [], ◌∷◌, ◌++◌, ℤ, pos, Result, ok, ◌≡◌, refl,
  arith, if◌then◌else◌, ◌∙◌, ap,
}
use lora_multihop.Header.{get_header_str}
use lora_multihop.Header.Sendable.{IsSendable, line}
use lora_multihop.Node.{Node}
use lora_multihop.Node.Action.{◌>>=◌}
use lora_multihop.Protocol.Transmit.{add_message_to_waiting_acknowledgement_list}
use lora_multihop.Protocol.Receive.{
  process_incoming, process_incoming_message, process_line, survived,
}
use lora_multihop.Protocol.Delivery.{IsLine, ack_packet, with_neighbor, acknowledge}
use lora_multihop.Protocol.Silence.{transmission, send-confirmed}
use lora_multihop.Protocol.Unanswered.{message_text}
use lora_multihop.Protocol.Pending.{is_pending, pending-append, remove_id-append}
use lora_multihop.Protocol.Send.{wait_for, sleep_half, attempts, message_round, send_along}

-- One line that is processed without an exception while the thread runs.
pub process-one :
    (raw : Text) (s t : Node)
    → s.receiving ≡ true
    → process_incoming raw s ≡ (ok tt, t)
    → process_incoming_message (raw ∷ []) s ≡ t
unfolding process_incoming_message
process-one raw s t running e =
    ap (λ (b : Bool). if b then process_line raw s else s) running
    ∙ unfold process_line in ap (λ (r : Result (Unit {0}) × Node). survived r.0 r.1) e

-- The first look fails, the sleep brings the line, and the second look succeeds.
pub wait_for-line :
    (test : Node → Bool) (tries : ℕ) (raw : Text) (more : List (List Text)) (s t : Node)
    → test (record s { arrivals = (raw ∷ []) ∷ more }) ≡ false
    → s.receiving ≡ true
    → process_incoming raw (record s { now = s.now + 500000; arrivals = more }) ≡ (ok tt, t)
    → test t ≡ true
    → wait_for test (suc (suc tries)) (record s { arrivals = (raw ∷ []) ∷ more }) ≡ (ok true, t)
unfolding wait_for ◌>>=◌ sleep_half
wait_for-line test tries raw more s t before running e found =
    rw
      (
        before,
        process-one raw (record s { now = s.now + 500000; arrivals = more }) t running e,
        found,
      )
      refl

module _ (start from size tail destination next_node : Text) (payload : List ℕ) (s : Node)
    (later : List Bool) (more : List (List Text)) where
  -- the line with the acknowledgement of the next message
  abbrev pub ack_line : Text
  ack_line =
      line start from size
        (get_header_str (ack_packet destination s.my_address (pos (s.message_counter + 1))) ++ tail)

  abbrev pub sent_once : Node
  sent_once = record s {
    message_counter = s.message_counter + 1;
    writing_q =
        s.writing_q
        ++ transmission
            (message_text s.my_address destination next_node (s.message_counter + 1) payload ∷ []);
    status_q = later;
    now = s.now + 500000;
    arrivals = more;
  }

  -- Along a known next node, with a new id, a running receiving thread, a modem that confirms the
  -- next two commands and the acknowledgement arriving in the first half second: the message is sent
  -- once, its id is taken from the list again, and no route is deleted: the routes are those that
  -- stay when the last hop of the acknowledgement is entered as a neighbour.
  pub send-answered :
      IsLine start from size tail
      → IsSendable (ack_packet destination s.my_address (pos (s.message_counter + 1)))
      → s.receiving ≡ true
      → is_pending (pos (s.message_counter + 1)) s.messages_acknowledgment ≡ false
      → send_along destination payload next_node
          (record s { status_q = true ∷ true ∷ later; arrivals = (ack_line ∷ []) ∷ more })
        ≡ (ok tt, with_neighbor from sent_once)
  unfolding send_along add_message_to_waiting_acknowledgement_list attempts message_round ◌>>=◌
  send-answered l sendable running new =
      let id = pos (s.message_counter + 1) in
      let text = message_text s.my_address destination next_node (s.message_counter + 1) payload in
      let waiting : Node = record s {
        message_counter = s.message_counter + 1;
        messages_acknowledgment = s.messages_acknowledgment ++ id ∷ [];
        arrivals = (ack_line ∷ []) ∷ more;
      } in
      let sent : Node = record waiting {
        writing_q = s.writing_q ++ transmission (text ∷ []);
        status_q = later;
      } in
      let asleep : Node = record sent { now = s.now + 500000; arrivals = more } in
      let acked : process_incoming ack_line asleep ≡ (ok tt, with_neighbor from sent_once) =
        acknowledge start from size tail destination 5 id asleep l sendable (omega arith)
        ∙ ap
            (λ (ids : List ℤ).
              let r : Result (Unit {0}) × Node =
                (ok tt, record (with_neighbor from asleep) { messages_acknowledgment = ids }) in
              r)
            (remove_id-append id s.messages_acknowledgment new) in
      rw (send-confirmed text waiting later) (
        rw
          (wait_for-line (λ t. not (is_pending id t.messages_acknowledgment)) 8 ack_line more sent
            (with_neighbor from sent_once)
            (ground (arith, pending-append id s.messages_acknowledgment)) running acked
            (ground arith))
          refl)
