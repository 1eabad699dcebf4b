-- ===== src/Protocol/Unanswered.antt =====
-- A message that nobody acknowledges.
use lora_multihop.Prelude.{
  ℕ, ◌+◌, ◌*◌, Text, Bool, true, false, List, [], ◌∷◌, ◌++◌, append_assoc, pos, Result, ok, raised,
  queue_empty, ◌≡◌, refl, ap,
}
use lora_multihop.Python.Number.RoundTrip.{int-str_ℤ}
use lora_multihop.Python.Base64.{b64encode}
use lora_multihop.Header.{message, route_error, get_header_str}
use lora_multihop.RoutingTable.{delete_all_entries_of_destination}
use lora_multihop.Node.{Node, Command}
use lora_multihop.Node.Action.{◌>>=◌, update_table}
use lora_multihop.Protocol.Transmit.{
  delete_from_ack_list, add_message_to_waiting_acknowledgement_list,
}
use lora_multihop.Protocol.Send.{give_up, send_along}
use lora_multihop.Protocol.Silence.{transmission, send-confirmed}
use lora_multihop.Protocol.Pending.{
  is_pending, pending-append, remove_id-append, three-pending, cut_off, cut-second, cut-third,
}

-- The text of the message with this id, and of the error that follows when it is given up.
abbrev pub message_text : Text → Text → Text → ℕ → List ℕ → Text
message_text me destination next_node id payload = get_header_str (record {
  source = me;
  ttl = pos 5;
  body = message destination next_node (pos id) (b64encode payload);
})

abbrev pub error_text : Text → Text → Text
error_text me destination =
    get_header_str (record { source = me; ttl = pos 5; body = route_error destination })

-- The message of the node is entered as pending under its id.
abbrev pub counted : Node → Node
counted s = record s {
  message_counter = s.message_counter + 1;
  messages_acknowledgment = s.messages_acknowledgment ++ pos (s.message_counter + 1) ∷ [];
}

send-given_up :
    (destination next_node : Text) (payload : List ℕ) (s : Node) (later : List Bool)
    → is_pending (pos (s.message_counter + 1)) s.messages_acknowledgment ≡ false
    → send_along destination payload next_node (record s {
      status_q = true ∷ true ∷ true ∷ true ∷ true ∷ true ∷ true ∷ true ∷ later;
      arrivals = [];
    })
      ≡ (
        ok tt,
        record s {
          message_counter = s.message_counter + 1;
          routing_table = delete_all_entries_of_destination destination s.routing_table;
          writing_q =
              s.writing_q
              ++ transmission (
                  message_text s.my_address destination next_node (s.message_counter + 1) payload
                  ∷ message_text s.my_address destination next_node (s.message_counter + 1) payload
                  ∷ message_text s.my_address destination next_node (s.message_counter + 1) payload
                  ∷ error_text s.my_address destination
                  ∷ []);
          status_q = later;
          now = s.now + 30 * 500000;
          arrivals = [];
        },
      )
unfolding send_along give_up add_message_to_waiting_acknowledgement_list delete_from_ack_list ◌>>=◌
    update_table
send-given_up destination next_node payload s later new =
    let id = pos (s.message_counter + 1) in
    let text = message_text s.my_address destination next_node (s.message_counter + 1) payload in
    let thrice = transmission (text ∷ text ∷ text ∷ []) in
    let waiting : Node = record s {
      message_counter = s.message_counter + 1;
      messages_acknowledgment = s.messages_acknowledgment ++ id ∷ [];
    } in
    let given_up : Node = record s {
      message_counter = s.message_counter + 1;
      routing_table = delete_all_entries_of_destination destination s.routing_table;
      writing_q = s.writing_q ++ thrice;
      now = s.now + 30 * 500000;
      arrivals = [];
    } in
    rw
      (three-pending text id waiting (true ∷ true ∷ later)
        (pending-append id s.messages_acknowledgment))
      (rw (int-str_ℤ id, remove_id-append id s.messages_acknowledgment new)
        (rw (send-confirmed (error_text s.my_address destination) given_up later) (
          ap
            (λ (queue : List Command).
              let r : Result (Unit {0}) × Node =
                (ok tt, record given_up { writing_q = queue; status_q = later }) in
              r)
            (append_assoc s.writing_q thrice
              (transmission (error_text s.my_address destination ∷ []))))))

send-cut_second :
    (destination next_node : Text) (payload : List ℕ) (s : Node)
    → send_along destination payload next_node
        (record s { status_q = true ∷ true ∷ []; arrivals = [] })
      ≡ (
        raised queue_empty,
        cut_off 10
            (message_text s.my_address destination next_node (s.message_counter + 1) payload ∷ [])
            (message_text s.my_address destination next_node (s.message_counter + 1) payload)
            (counted s),
      )
unfolding send_along add_message_to_waiting_acknowledgement_list ◌>>=◌
send-cut_second destination next_node payload s =
    rw
      (cut-second (message_text s.my_address destination next_node (s.message_counter + 1) payload)
        (pos (s.message_counter + 1)) (counted s)
        (pending-append (pos (s.message_counter + 1)) s.messages_acknowledgment))
      refl

send-cut_third :
    (destination next_node : Text) (payload : List ℕ) (s : Node)
    → send_along destination payload next_node
        (record s { status_q = true ∷ true ∷ true ∷ true ∷ []; arrivals = [] })
      ≡ (
        raised queue_empty,
        cut_off 20
            (message_text s.my_address destination next_node (s.message_counter + 1) payload
              ∷ message_text s.my_address destination next_node (s.message_counter + 1) payload
              ∷ [])
            (message_text s.my_address destination next_node (s.message_counter + 1) payload)
            (counted s),
      )
unfolding send_along add_message_to_waiting_acknowledgement_list ◌>>=◌
send-cut_third destination next_node payload s =
    rw
      (cut-third (message_text s.my_address destination next_node (s.message_counter + 1) payload)
        (pos (s.message_counter + 1)) (counted s)
        (pending-append (pos (s.message_counter + 1)) s.messages_acknowledgment))
      refl

-- A message along a known next node that nobody acknowledges, with a new id and no line arriving. With
-- a modem that confirms the next eight commands the message is sent three times, then every route to
-- or through the destination is deleted, the id is taken from the list again and a route error for the
-- destination is sent, fifteen seconds after the start; the counter has gone up by one. The attempts
-- are five seconds apart: with a modem that confirms two commands and is silent then, the size of the
-- second attempt is put five seconds after the start, and with one that confirms four, that of the
-- third ten seconds after the start; the call ends with `queue.Empty` over it.
pub send-unanswered :
    (destination next_node : Text) (payload : List ℕ) (s : Node) (later : List Bool)
    → is_pending (pos (s.message_counter + 1)) s.messages_acknowledgment ≡ false
    → (send_along destination payload next_node (record s {
      status_q = true ∷ true ∷ true ∷ true ∷ true ∷ true ∷ true ∷ true ∷ later;
      arrivals = [];
    })
        ≡ (
          ok tt,
          record s {
            message_counter = s.message_counter + 1;
            routing_table = delete_all_entries_of_destination destination s.routing_table;
            writing_q =
                s.writing_q
                ++ transmission (
                    message_text s.my_address destination next_node (s.message_counter + 1) payload
                    ∷ message_text s.my_address destination next_node
                        (s.message_counter + 1)
                        payload
                    ∷ message_text s.my_address destination next_node
                        (s.message_counter + 1)
                        payload
                    ∷ error_text s.my_address destination
                    ∷ []);
            status_q = later;
            now = s.now + 30 * 500000;
            arrivals = [];
          },
        ))
      × (send_along destination payload next_node
            (record s { status_q = true ∷ true ∷ []; arrivals = [] })
          ≡ (
            raised queue_empty,
            cut_off 10
                (message_text s.my_address destination next_node (s.message_counter + 1) payload
                  ∷ [])
                (message_text s.my_address destination next_node (s.message_counter + 1) payload)
                (counted s),
          ))
      × (send_along destination payload next_node
            (record s { status_q = true ∷ true ∷ true ∷ true ∷ []; arrivals = [] })
          ≡ (
            raised queue_empty,
            cut_off 20
                (message_text s.my_address destination next_node (s.message_counter + 1) payload
                  ∷ message_text s.my_address destination next_node (s.message_counter + 1) payload
                  ∷ [])
                (message_text s.my_address destination next_node (s.message_counter + 1) payload)
                (counted s),
          ))
send-unanswered destination next_node payload s later new = (
  send-given_up destination next_node payload s later new,
  send-cut_second destination next_node payload s,
  send-cut_third destination next_node payload s,
)
