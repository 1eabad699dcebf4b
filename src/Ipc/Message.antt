-- ===== src/Ipc/Message.antt =====
-- src/lora_multihop/ipc.py: the requests that are passed on to the connected application.
use lora_multihop.Prelude.{Text, codes, ◌∷◌, ◌++◌}

unfoldable pub create_connect_request_message : Text → Text → Text → Text
create_connect_request_message source_peer_id target_peer_id timeout =
    codes "ConnectRequest," ++ (source_peer_id ++ b',' ∷ (target_peer_id ++ b',' ∷ timeout))

unfoldable pub create_disconnect_request_message : Text → Text → Text
create_disconnect_request_message source_peer_id target_peer_id =
    codes "DisconnectRequest," ++ (source_peer_id ++ b',' ∷ target_peer_id)
