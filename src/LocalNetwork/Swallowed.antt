-- ===== src/LocalNetwork/Swallowed.antt =====
-- Headers that the local network takes for commands.
use lora_multihop.Prelude.{
  ℕ, ◌/◌, ◌≤◌, ◌<◌, Text, codes, Bool, true, List, [], ◌∷◌, ◌++◌, pos, ◌≡◌, refl, ap, ◌∙◌, arith,
}
use lora_multihop.Variables.{header_delimiter}
use lora_multihop.Python.Find.{occurs, starts_with}
use lora_multihop.Python.Number.{str_ℕ, str_ℤ, format_06d}
use lora_multihop.Python.Base64.{b64encode, letter}
use lora_multihop.Header.{get_header_str, create_header_str}
use lora_multihop.SerialConnection.Confirmed.{entries_of, entry_of}
use lora_multihop.Protocol.Emission.{header_command}
use lora_multihop.Protocol.Silence.{transmission, confirmations}
use lora_multihop.Protocol.Unanswered.{message_text}
use lora_multihop.LocalNetwork.{LocalNetwork, start_sending, send_entries}
use lora_multihop.LocalNetwork.Link.{size-entry, sending-runs, two_true}

-- Letters that occur at some place occur in the whole text.
occurs-append : (part xs ys : Text) → occurs part ys ≡ true → occurs part (xs ++ ys) ≡ true
unfolding occurs
occurs-append part [] ys h = h
occurs-append part (x ∷ xs) ys h = ground (arith, occurs-append part xs ys h)

occurs-field :
    (part value rest : Text)
    → occurs part rest ≡ true
    → occurs part (value ++ header_delimiter ∷ rest) ≡ true
occurs-field part value rest h =
    occurs-append part value (header_delimiter ∷ rest)
      (occurs-append part (header_delimiter ∷ []) rest h)

-- Two bytes whose code starts with the letters.
encoded-at :
    (b : ℕ) (rest : List ℕ) (tail : Text)
    → 48 ≤ b
    → b < 64
    → occurs (codes "AT") (b64encode (1 ∷ b ∷ rest) ++ tail) ≡ true
unfolding occurs starts_with b64encode letter
encoded-at b [] tail low high = let e : b / 16 ≡ 3 = omega arith in rw e refl
encoded-at b (c ∷ rest) tail low high = let e : b / 16 ≡ 3 = omega arith in rw e refl

message-at :
    (me destination next_node : Text) (id b : ℕ) (rest : List ℕ)
    → 48 ≤ b
    → b < 64
    → occurs (codes "AT") (message_text me destination next_node id (1 ∷ b ∷ rest)) ≡ true
unfolding get_header_str create_header_str
message-at me destination next_node id b rest low high =
    let part = codes "AT" in
    occurs-append part (header_delimiter ∷ []) _ (
      occurs-field part me _ (
        occurs-field part (str_ℕ 1) _ (
          occurs-field part (str_ℤ (pos 5)) _ (
            occurs-field part destination _ (
              occurs-field part next_node _ (
                occurs-field part (format_06d (pos id)) _
                  (encoded-at b rest (header_delimiter ∷ []) low high)))))))

swallowed-entry :
    (text : Text) (s : LocalNetwork)
    → s.sending_alive ≡ true
    → occurs (codes "AT") text ≡ true
    → send_entries (entry_of (header_command text) ∷ []) s
      ≡ record s { writing_q = []; status_q = s.status_q ++ true ∷ [] }
unfolding send_entries
swallowed-entry text s on at = rw (at, on) refl

-- A message whose payload starts with a byte 1 and then one of the digits and signs from 48 to 63: the
-- letters AT stand in its header, so that the local network confirms it and sends nothing to anybody.
pub message-swallowed :
    (me destination next_node : Text) (id b : ℕ) (rest : List ℕ) (s : LocalNetwork)
    → 48 ≤ b
    → b < 64
    → s.sending_alive ≡ true
    → s.tcp_communication_running ≡ true
    → start_sending (record s {
      writing_q =
          entries_of (transmission (message_text me destination next_node id (1 ∷ b ∷ rest) ∷ []));
    })
      ≡ record s {
        writing_q = [];
        status_q =
            s.status_q
            ++ confirmations (message_text me destination next_node id (1 ∷ b ∷ rest) ∷ []) [];
      }
message-swallowed me destination next_node id b rest s low high alive runs =
    let text = message_text me destination next_node id (1 ∷ b ∷ rest) in
    let queue = entries_of (transmission (text ∷ [])) in
    sending-runs (record s { writing_q = queue }) alive runs
    ∙ size-entry text (entry_of (header_command text) ∷ []) (record s { writing_q = queue }) alive
    ∙ swallowed-entry text
        (record s {
          writing_q = entry_of (header_command text) ∷ [];
          status_q = s.status_q ++ true ∷ [];
        })
        alive (message-at me destination next_node id b rest low high)
    ∙ ap (λ (statuses : List Bool). record s { writing_q = []; status_q = statuses })
        (two_true s.status_q)
