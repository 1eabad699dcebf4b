-- ===== src/Protocol/Registration.antt =====
-- The registration of a peer of this node, which is repeated until a neighbour passes it on.
pub mod Unheard
pub mod Heard
use lora_multihop.Prelude.{
  ℕ, Text, Bool, true, false, List, ◌++◌, pos, ok, ◌≡◌, refl, if◌then◌else◌,
}
use lora_multihop.Header.{registration, Packet, get_header_str}
use lora_multihop.RoutingTable.{RoutingTable, add_peer, delete_peer}
use lora_multihop.Node.{Node}
use lora_multihop.Node.Action.{update_table}
use lora_multihop.Protocol.Silence.{transmission}

abbrev pub registration_packet : Text → ℕ → Bool → Text → Packet
registration_packet me ttl subscribe peer_id = record {
  source = me;
  ttl = pos ttl;
  body = registration subscribe peer_id;
}

module _ (subscribe : Bool) (peer_id : Text) where
  -- The table once the peer is entered or deleted here.
  abbrev pub announced : Node → RoutingTable
  announced s =
      if subscribe
      then add_peer peer_id s.my_address s.routing_table
      else delete_peer peer_id s.my_address s.routing_table

  abbrev pub registration_text : Text → Text
  registration_text me = get_header_str (registration_packet me 5 subscribe peer_id)

  -- The node with these transmissions of the registration, this time and these lines to come.
  abbrev pub registered : Node → List Text → List Bool → ℕ → List (List Text) → Node
  registered s texts later time more = record s {
    routing_table = announced s;
    received_own_registration_message = false;
    writing_q = s.writing_q ++ transmission texts;
    status_q = later;
    now = time;
    arrivals = more;
  }

pub announced-update :
    (subscribe : Bool) (peer_id : Text) (s : Node)
    → (if subscribe
          then update_table (add_peer peer_id s.my_address)
          else update_table (delete_peer peer_id s.my_address))
        s
      ≡ (ok tt, record s { routing_table = announced subscribe peer_id s })
unfolding update_table
announced-update true peer_id s = refl
announced-update false peer_id s = refl
