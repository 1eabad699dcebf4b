-- ===== src/Protocol/Untouched.antt =====
-- The attributes of a node around `send_header`.
use lora_multihop.Prelude.{Text, Bool, true, false, List, [], ◌∷◌, ◌≡◌, refl}
use lora_multihop.Node.{Node}
use lora_multihop.Node.Action.{◌>>=◌}
use lora_multihop.Protocol.Transmit.{send_header, put_command, get_status}

abbrev pub queues_of : Node → Node → Node
queues_of t s = record s { writing_q = t.writing_q; status_q = t.status_q }

send_with :
    (text : Text) (s : Node) (answers : List Bool)
    → (send_header text (record s { status_q = answers })).1
      ≡ queues_of (send_header text (record s { status_q = answers })).1 s
unfolding send_header ◌>>=◌ put_command get_status
send_with text s [] = refl
send_with text s (false ∷ later) = refl
send_with text s (true ∷ []) = refl
send_with text s (true ∷ b ∷ later) = refl

pub send-untouched :
    (text : Text) (s : Node)
    → (send_header text s).1 ≡ record s {
      writing_q = (send_header text s).1.writing_q;
      status_q = (send_header text s).1.status_q;
    }
send-untouched text s = send_with text s s.status_q
