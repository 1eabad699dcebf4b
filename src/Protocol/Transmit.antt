-- ===== src/Protocol/Transmit.antt =====
-- src/lora_multihop/protocol.py: `send_header`, and the list of messages to be acknowledged.
use lora_multihop.Prelude.{
  Text, codes, if◌then◌else◌, Bool, List, [], ◌∷◌, ◌++◌, ℤ, eq_ℤ, Result, ok, raised, queue_empty,
  length,
}
use lora_multihop.Python.Number.{int, str_ℕ}
use lora_multihop.Node.{Node}
use lora_multihop.Node.Action.{Action, pure, modify, when, ◌>>=◌, ◌>>◌}

-- `serial_connection.writing_q.put((text, verify_list))`
unfoldable pub put_command : Text → List Text → Action (Unit {0})
unfolding modify
put_command text verify_list = modify (λ s. record s {
  writing_q = s.writing_q ++ record { text = text; verify_list = verify_list } ∷ [];
})

abbrev pub next_status : List Bool → Node → Result Bool × Node
next_status [] s = (raised queue_empty, s)
next_status (status ∷ later) s = (ok status, record s { status_q = later })

-- `serial_connection.status_q.get(timeout=self.VERIFICATION_TIMEOUT)`
unfoldable pub get_status : Action Bool
get_status s = next_status s.status_q s

abbrev pub send_verify_list : List Text
send_verify_list = codes "AT,SENDING" ∷ codes "AT,SENDED" ∷ []

unfoldable pub send_header : Text → Action (Unit {0})
send_header header_str = do
  put_command (codes "AT+SEND=" ++ str_ℕ (length header_str)) (codes "AT,OK" ∷ [])
  ready ← get_status
  when ready (do put_command header_str send_verify_list; sent ← get_status; pure tt)

-- `list.remove`, and nothing where the value is not in the list: the `ValueError` is caught
unfoldable pub remove_id : ℤ → List ℤ → List ℤ
remove_id z [] = []
remove_id z (x ∷ xs) = let rest = remove_id z xs in if eq_ℤ x z then xs else x ∷ rest

-- `int(ack_id)` may raise the same `ValueError`.
abbrev pub without_ack : Result ℤ → List ℤ → List ℤ
without_ack (ok z) ids = remove_id z ids
without_ack (raised _) ids = ids

unfoldable pub delete_from_ack_list : Text → Action (Unit {0})
unfolding modify
delete_from_ack_list ack_id =
    modify (λ s. record s {
      messages_acknowledgment = without_ack (int ack_id) s.messages_acknowledgment;
    })

unfoldable pub add_message_to_waiting_acknowledgement_list : ℤ → Action (Unit {0})
unfolding modify
add_message_to_waiting_acknowledgement_list message_id =
    modify
      (λ s. record s { messages_acknowledgment = s.messages_acknowledgment ++ message_id ∷ [] })
