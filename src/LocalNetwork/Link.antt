-- ===== src/LocalNetwork/Link.antt =====
-- A header from one node to another over the local network.
use lora_multihop.Prelude.{
  ℕ, if◌then◌else◌, Text, codes, Bool, true, false, ◌&&◌, List, [], ◌∷◌, ◌++◌, append_assoc,
  append-nil, ok, ◌≡◌, refl, ap, ◌∙◌, sym, length, arith,
}
use lora_multihop.Variables.{lora_module_delimiter}
use lora_multihop.Python.Split.{Lacks}
use lora_multihop.Python.Find.{occurs, starts_with}
use lora_multihop.Python.Utf8.{decode, decode_bytes, decode-encode}
use lora_multihop.SerialConnection.{Entry}
use lora_multihop.SerialConnection.Answer.{Line, str_to_bytes, bytes_to_str}
use lora_multihop.SerialConnection.Confirmed.{entries_of, entry_of}
use lora_multihop.Protocol.Emission.{size_command, header_command}
use lora_multihop.Protocol.Silence.{transmission, confirmations}
use lora_multihop.Network.Exchange.{Frame, framed, IsProper}
use lora_multihop.LocalNetwork.{
  LocalNetwork, line_of, start_sending, send_entries, start_receiving, received,
}

-- The frame that the local network puts around a header of the node with this address.
abbrev pub local_frame : Text → Frame
local_frame address = record { start = codes "LR"; from = address; size = codes "10"; tail = [] }

line_of-framed : (address text : Text) → line_of address text ≡ framed (local_frame address) text
line_of-framed address text =
    ap (λ t. codes "LR," ++ (address ++ (codes ",10," ++ t))) (sym (append-nil text))

size-skipped : (text : Text) → occurs (codes "AT") (size_command text).text ≡ true
unfolding occurs starts_with
size-skipped text = refl

pub sending-runs :
    (s : LocalNetwork)
    → s.sending_alive ≡ true
    → s.tcp_communication_running ≡ true
    → start_sending s ≡ send_entries s.writing_q s
unfolding start_sending
sending-runs s alive runs =
    ap (λ (b : Bool). if b then send_entries s.writing_q s else s)
      (ap (λ (b : Bool). b && s.tcp_communication_running) alive ∙ runs)

-- The size of a header is for the modem, and is confirmed without being sent.
pub size-entry :
    (text : Text) (later : List Entry) (s : LocalNetwork)
    → s.sending_alive ≡ true
    → send_entries (entry_of (size_command text) ∷ later) s
      ≡ send_entries later (record s { writing_q = later; status_q = s.status_q ++ true ∷ [] })
unfolding send_entries
size-entry text later s on = rw (size-skipped text, on) refl

header-entry :
    (text : Text) (bytes : Line) (s : LocalNetwork)
    → s.sending_alive ≡ true
    → occurs (codes "AT") text ≡ false
    → str_to_bytes (line_of s.module_address text) ≡ ok bytes
    → send_entries (entry_of (header_command text) ∷ []) s
      ≡ record s { writing_q = []; status_q = s.status_q ++ true ∷ []; sent = s.sent ++ bytes ∷ [] }
unfolding send_entries
header-entry text bytes s on plain encoded = rw (plain, encoded, on) refl

received-text :
    (bytes : List ℕ) (c : ℕ) (text : Text) (s : LocalNetwork)
    → bytes_to_str bytes ≡ ok (c ∷ text)
    → received bytes s ≡ record s { response_q = s.response_q ++ (c ∷ text) ∷ [] }
received-text [] c text s h = absurd (unfold bytes_to_str decode decode_bytes in cc)
received-text (b ∷ bytes) c text s h = rw h refl

receive-round :
    (bytes : List ℕ) (c : ℕ) (text : Text) (s : LocalNetwork)
    → (s.receiving_alive && s.tcp_communication_running) ≡ true
    → str_to_bytes (c ∷ text) ≡ ok bytes
    → start_receiving bytes s ≡ record s { response_q = s.response_q ++ (c ∷ text) ∷ [] }
unfolding start_receiving
receive-round bytes c text s on encoded = rw on (
    received-text bytes c text s
      (unfold bytes_to_str str_to_bytes in decode-encode (c ∷ text) bytes encoded))

pub two_true :
    (statuses : List Bool) → (statuses ++ true ∷ []) ++ true ∷ [] ≡ statuses ++ true ∷ true ∷ []
two_true statuses = append_assoc statuses (true ∷ []) (true ∷ [])

pub frame-IsProper :
    (address : Text)
    → length address ≡ 4
    → Lacks lora_module_delimiter address
    → IsProper (local_frame address)
frame-IsProper address four lacks = record {
  frame = record {
    start_lacks = ground arith;
    from_lacks = lacks;
    size_lacks = ground arith;
    from_addr = four;
  };
  tail_lacks = tt;
  tail_skipped = tt;
}

-- A header without the letters AT in it that one node of the local network hands to the connection: if
-- its line can be encoded and the threads of both nodes run, one round of the sending thread confirms
-- the size and the header, in the way that `send_header` waits for, and sends one line; and a node that
-- receives its bytes finds the header among its responses, in the frame of the sender. If the address
-- of the sender has four characters and no comma, the frame is one that the protocol accepts.
pub header-over_local :
    (text : Text) (bytes : Line) (a b : LocalNetwork)
    → occurs (codes "AT") text ≡ false
    → str_to_bytes (line_of a.module_address text) ≡ ok bytes
    → a.sending_alive ≡ true
    → a.tcp_communication_running ≡ true
    → (b.receiving_alive && b.tcp_communication_running) ≡ true
    → length a.module_address ≡ 4
    → Lacks lora_module_delimiter a.module_address
    → (start_sending (record a { writing_q = entries_of (transmission (text ∷ [])) }) ≡ record a {
      writing_q = [];
      status_q = a.status_q ++ confirmations (text ∷ []) [];
      sent = a.sent ++ bytes ∷ [];
    })
      × (start_receiving bytes b ≡ record b {
        response_q = b.response_q ++ framed (local_frame a.module_address) text ∷ [];
      })
      × IsProper (local_frame a.module_address)
header-over_local text bytes a b plain encoded alive runs receives four lacks =
    let queue = entries_of (transmission (text ∷ [])) in
    (
      sending-runs (record a { writing_q = queue }) alive runs
          ∙ size-entry text (entry_of (header_command text) ∷ []) (record a { writing_q = queue })
              alive
          ∙ header-entry text bytes
              (record a {
                writing_q = entry_of (header_command text) ∷ [];
                status_q = a.status_q ++ true ∷ [];
              })
              alive plain encoded
          ∙ ap
              (λ (statuses : List Bool). record a {
                writing_q = [];
                status_q = statuses;
                sent = a.sent ++ bytes ∷ [];
              })
              (two_true a.status_q),
      receive-round bytes _ _ b receives encoded
          ∙ ap (λ t. record b { response_q = b.response_q ++ t ∷ [] })
              (line_of-framed a.module_address text),
      frame-IsProper a.module_address four lacks,
    )
