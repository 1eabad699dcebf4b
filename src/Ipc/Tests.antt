-- ===== src/Ipc/Tests.antt =====
-- The node 0131 with an application that knows the peer alice.
use lora_multihop.Prelude.{codes, text_eq, [], ◌∷◌, ◌≡◌, refl, arith, any}
use lora_multihop.Python.Find.{lower}
use lora_multihop.Python.Utf8.{is_scalar, decode, decode_bytes}
use lora_multihop.RoutingTable
use lora_multihop.RoutingTable.{Peer, check_peer_is_already_registered}
use lora_multihop.Node.{Node, start}
use lora_multihop.Protocol.Send.{
  send_registration_message, send_connect_request_header, send_disconnect_request_header,
}
use lora_multihop.Ipc.Message.{create_connect_request_message, create_disconnect_request_message}
use lora_multihop.Ipc.Server.{
  Server, serving, over, received, call, handle_message, start_tcp_server,
}
use lora_multihop.Ipc.Requests.{requests-handled, unknown_peer-ends, registration_message}

abbrev node : Node
node = record (start (codes "0131") [] []) {
  routing_table = record RoutingTable.empty {
    available_peers =
        record { peer_id = codes "alice"; address = codes "0131" }
        ∷ record { peer_id = codes "carol"; address = codes "0135" }
        ∷ [];
  };
}

abbrev server : Server
server = record { node = node; phase = serving; sent = []; sending = [] }

requests-handled_example :
    (handle_message
        (create_connect_request_message (codes "alice") (codes "true") (codes "60"))
        server
      ≡ call (send_connect_request_header (codes "alice") (codes "true") (codes "60")) server)
    × (handle_message (create_disconnect_request_message (codes "alice") (codes "true")) server
        ≡ call (send_disconnect_request_header (codes "alice") (codes "true")) server)
    × (handle_message (registration_message (codes "alice") (codes "true")) server
        ≡ call
            (send_registration_message
              (text_eq (lower (codes "true")) (codes "true"))
              (codes "alice"))
            server)
requests-handled_example =
    requests-handled (codes "alice") (codes "true") (codes "60") server (ground arith)
      (ground arith) (ground arith)

-- bob is not registered, and a registration follows
unknown_peer-ends_example :
    start_tcp_server
      (received (codes "ConnectRequest,bob,carol,60|")
        ∷ received (codes "Registration,bob,true|")
        ∷ [])
      (record server { phase = serving })
    ≡ record server { phase = over }
unfolding decode decode_bytes is_scalar create_connect_request_message
    check_peer_is_already_registered any text_eq
unknown_peer-ends_example =
    unknown_peer-ends (codes "ConnectRequest,bob,carol,60|") (codes "bob") (codes "carol")
      (codes "60") [] (received (codes "Registration,bob,true|") ∷ []) server (ground arith)
      (ground arith) (ground arith) (ground arith) refl refl
