-- ===== src/Ipc/Requests.antt =====
-- The requests of the connected application, one message and one event at a time.
use lora_multihop.Prelude.{
  ℕ, Text, codes, text_eq, false, List, [], ◌∷◌, ◌++◌, Result, ok, raised, value_error, ◌≡◌, ◌≢◌,
  refl, ap, ◌∙◌, arith,
}
use lora_multihop.Variables.{header_delimiter}
use lora_multihop.Python.Split.{Lacks, split, split-append, split_last}
use lora_multihop.Python.Find.{lower}
use lora_multihop.Python.Utf8.{decode}
use lora_multihop.RoutingTable.{check_peer_is_already_registered}
use lora_multihop.Protocol.Send.{
  send_registration_message, send_connect_request_header, send_disconnect_request_header,
}
use lora_multihop.Protocol.Connections.{send_connect-unknown}
use lora_multihop.Ipc.Message.{create_connect_request_message, create_disconnect_request_message}
use lora_multihop.Ipc.Server.{
  Server, over, serving, Event, received, call, result, proceed, after_call, handle_values,
  handle_request, handle_message, handle_messages, handle_data, serve, caught, start_tcp_server,
  ◌>>=◌,
}

-- A message with this first value is handled by its values.
handle-values :
    (message : Text) (first : Text) (values : List Text) (s : Server)
    → text_eq message (codes "registeredPeers?") ≡ false
    → split b',' message ≡ first ∷ values
    → message ≢ []
    → handle_message message s ≡ handle_values first (first ∷ values) s
unfolding handle_message handle_request result ◌>>=◌
handle-values [] first values s other cut some_text = absurd (some_text refl)
handle-values (c ∷ message) first values s other cut some_text = rw (other, cut) refl

split-three :
    (a b c : Text)
    → Lacks b',' a
    → Lacks b',' b
    → Lacks b',' c
    → split b',' (a ++ b',' ∷ (b ++ b',' ∷ c)) ≡ a ∷ b ∷ c ∷ []
split-three a b c ha hb hc =
    rw (split-append b',' a (b ++ b',' ∷ c) ha, split-append b',' b c hb, split_last b',' c hc) refl

-- A registration as the application writes it.
abbrev pub registration_message : Text → Text → Text
registration_message peer_id subscribe = codes "Registration," ++ (peer_id ++ b',' ∷ subscribe)

module _ (a b c : Text) (ha : Lacks b',' a) (hb : Lacks b',' b) (s : Server) where
  connect-handled :
      Lacks b',' c
      → handle_message (create_connect_request_message a b c) s
        ≡ call (send_connect_request_header a b c) s
  unfolding create_connect_request_message handle_values result ◌>>=◌ text_eq
  connect-handled hc =
      handle-values (codes "ConnectRequest," ++ (a ++ b',' ∷ (b ++ b',' ∷ c)))
        (codes "ConnectRequest") (a ∷ b ∷ c ∷ []) s refl
        (split-append b',' (codes "ConnectRequest") _ (ground arith)
          ∙ ap (◌∷◌ (codes "ConnectRequest")) (split-three a b c ha hb hc))
        (λ e. cc)

  disconnect-handled :
      handle_message (create_disconnect_request_message a b) s
      ≡ call (send_disconnect_request_header a b) s
  unfolding create_disconnect_request_message handle_values result ◌>>=◌ text_eq
  disconnect-handled =
      handle-values (codes "DisconnectRequest," ++ (a ++ b',' ∷ b)) (codes "DisconnectRequest")
        (a ∷ b ∷ []) s refl
        (split-append b',' (codes "DisconnectRequest") _ (ground arith)
          ∙ ap (◌∷◌ (codes "DisconnectRequest"))
              (split-append b',' a b ha ∙ ap (◌∷◌ a) (split_last b',' b hb)))
        (λ e. cc)

  registration-handled :
      handle_message (registration_message a b) s
      ≡ call (send_registration_message (text_eq (lower b) (codes "true")) a) s
  unfolding handle_values result ◌>>=◌ text_eq
  registration-handled =
      handle-values (registration_message a b) (codes "Registration") (a ∷ b ∷ []) s refl
        (split-append b',' (codes "Registration") _ (ground arith)
          ∙ ap (◌∷◌ (codes "Registration"))
              (split-append b',' a b ha ∙ ap (◌∷◌ a) (split_last b',' b hb)))
        (λ e. cc)

-- The requests that a node passes on to its application are requests that the application may send
-- itself: for peers and a timeout without commas, handling the text of a connect or a disconnect
-- request sends that request for the same peers, and a registration registers its peer exactly if
-- its last value is `true` in any case.
pub requests-handled :
    (a b c : Text) (s : Server)
    → Lacks b',' a
    → Lacks b',' b
    → Lacks b',' c
    → (handle_message (create_connect_request_message a b c) s
        ≡ call (send_connect_request_header a b c) s)
      × (handle_message (create_disconnect_request_message a b) s
          ≡ call (send_disconnect_request_header a b) s)
      × (handle_message (registration_message a b) s
          ≡ call (send_registration_message (text_eq (lower b) (codes "true")) a) s)
requests-handled a b c s ha hb hc = (
  connect-handled a b c ha hb s hc,
  disconnect-handled a b c ha hb s,
  registration-handled a b c ha hb s,
)

-- A loop that is over handles nothing.
over-stays :
    (events : List Event) (s : Server)
    → start_tcp_server events (record s { phase = over }) ≡ record s { phase = over }
unfolding start_tcp_server serve
over-stays [] s = refl
over-stays (event ∷ later) s = over-stays later s

-- What an exception in the first message of the data comes to.
data-raises :
    (bytes : List ℕ) (message rest : Text) (s : Server)
    → Lacks header_delimiter message
    → decode bytes ≡ ok (message ++ header_delimiter ∷ rest)
    → handle_message message s ≡ (raised value_error, s)
    → handle_data bytes s ≡ (raised value_error, s)
unfolding handle_data handle_messages result ◌>>=◌
data-raises bytes message rest s whole text raises =
    rw (text, split-append header_delimiter message rest whole)
      (ap (proceed (λ _. handle_messages (split header_delimiter rest))) raises)

-- A connect request for a source that is not registered ends the socket for administration, where the
-- three values have no comma and the request has no delimiter: the `ValueError` of the check is not
-- caught, nothing is sent, and no later event is handled.
pub unknown_peer-ends :
    (bytes : List ℕ) (a b c rest : Text) (later : List Event) (s : Server)
    → Lacks b',' a
    → Lacks b',' b
    → Lacks b',' c
    → Lacks header_delimiter (create_connect_request_message a b c)
    → decode bytes ≡ ok (create_connect_request_message a b c ++ header_delimiter ∷ rest)
    → check_peer_is_already_registered a s.node.routing_table ≡ false
    → start_tcp_server (received bytes ∷ later) (record s { phase = serving })
      ≡ record s { phase = over }
unfolding start_tcp_server serve call
unknown_peer-ends bytes a b c rest later s ha hb hc whole text unknown =
    let here : Server = record s { phase = serving } in
    let raises : handle_message (create_connect_request_message a b c) here
        ≡ (raised value_error, here) =
      connect-handled a b c ha hb here hc
      ∙ ap (after_call here) (send_connect-unknown a b c s.node unknown) in
    ap (λ (r : Result (Unit {0}) × Server). start_tcp_server later (caught r))
      (data-raises bytes (create_connect_request_message a b c) rest here whole text raises)
    ∙ over-stays later s
