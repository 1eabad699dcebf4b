-- ===== src/Protocol/Receive/Stable.antt =====
-- What every handler does to the node, in terms of the changes that it makes.
use lora_multihop.Prelude.{ℕ, ◌+◌, Text, Bool, false, List, [], ◌∷◌, ◌++◌, ℤ, some}
use lora_multihop.RoutingTable.{
  RoutingTable, add_routing_table_entry, add_neighbor_to_routing_table,
  add_neighbor_with_unsupported_protocol, delete_all_entries_of_destination, add_peer, delete_peer,
  add_address_to_processed_requests_list, add_address_to_processed_registration_messages_list,
  add_connect_request,
}
use lora_multihop.Node.{Node, Command}
use lora_multihop.Node.Action.{update_table}
use lora_multihop.Node.Action.Keeps.{IsPreorder, Keeps, Keeps-modify, Keeps-update, keeps_rules}
use lora_multihop.Protocol.Transmit.{send_header, put_command, get_status, next_status}

-- The methods that change the table.
pub data TableMethod : (RoutingTable → RoutingTable) → Type 0 where
  add : (d n : Text) (hops : ℤ) → TableMethod (add_routing_table_entry d n hops)
  neighbor : (a : Text) → TableMethod (add_neighbor_to_routing_table a)
  unsupported : (a : Text) → TableMethod (add_neighbor_with_unsupported_protocol a)
  delete : (a : Text) → TableMethod (delete_all_entries_of_destination a)
  join : (p a : Text) → TableMethod (add_peer p a)
  leave : (p a : Text) → TableMethod (delete_peer p a)
  request : (now : ℕ) (a : Text) → TableMethod (add_address_to_processed_requests_list now a)
  registered :
      (now : ℕ) (a : Text) → TableMethod (add_address_to_processed_registration_messages_list now a)
  connect : (now : ℕ) (a b : Text) → TableMethod (add_connect_request now a b)

-- The changes that the methods make, one by one, lead to related nodes.
pub record IsStable (R : Node → Node → Type 0) : Type 0 where
  pub order : IsPreorder R
  pub table :
      (f : RoutingTable → RoutingTable) (s : Node)
      → TableMethod f
      → R s (record s { routing_table = f s.routing_table })
  pub writes : (s : Node) (q : List Command) → R s (record s { writing_q = q })
  pub reads_status : (s : Node) (q : List Bool) → R s (record s { status_q = q })
  pub receives :
      (s : Node) (bytes : List ℕ)
      → R s (record s { received_messages_queue = s.received_messages_queue ++ bytes ∷ [] })
  pub acknowledges : (s : Node) (ids : List ℤ) → R s (record s { messages_acknowledgment = ids })
  pub hears : (s : Node) (b : Bool) → R s (record s { received_own_registration_message = b })
  pub connects :
      (s : Node) (node text : Text)
      → R s (record s { connected_node = some node; sending_queue = s.sending_queue ++ text ∷ [] })
  pub forwards : (s : Node) (q : List Text) → R s (record s { sending_queue = q })
  pub counts : (s : Node) → R s (record s { message_counter = s.message_counter + 1 })
  pub passes :
      (s : Node) (time : ℕ) (more : List (List Text))
      → R s (record s { now = time; arrivals = more })
  pub stops : (s : Node) → R s (record s { receiving = false })

module _ {R : Node → Node → Type 0} (stable : IsStable R) where
  pub IsStable-IsPreorder : IsPreorder R
  IsStable-IsPreorder = stable.order

  updated-Keeps : (f : RoutingTable → RoutingTable) → TableMethod f → Keeps R (update_table f)
  updated-Keeps f method = Keeps-update f (λ s. stable.table f s method)

  pub add-Keeps :
      (d n : Text) (hops : ℤ) → Keeps R (update_table (add_routing_table_entry d n hops))
  add-Keeps d n hops = updated-Keeps _ (add d n hops)

  pub neighbor-Keeps : (a : Text) → Keeps R (update_table (add_neighbor_to_routing_table a))
  neighbor-Keeps a = updated-Keeps _ (neighbor a)

  pub unsupported-Keeps :
      (a : Text) → Keeps R (update_table (add_neighbor_with_unsupported_protocol a))
  unsupported-Keeps a = updated-Keeps _ (unsupported a)

  pub delete-Keeps : (a : Text) → Keeps R (update_table (delete_all_entries_of_destination a))
  delete-Keeps a = updated-Keeps _ (delete a)

  pub join-Keeps : (p a : Text) → Keeps R (update_table (add_peer p a))
  join-Keeps p a = updated-Keeps _ (join p a)

  pub leave-Keeps : (p a : Text) → Keeps R (update_table (delete_peer p a))
  leave-Keeps p a = updated-Keeps _ (leave p a)

  pub request-Keeps :
      (now : ℕ) (a : Text) → Keeps R (update_table (add_address_to_processed_requests_list now a))
  request-Keeps now a = updated-Keeps _ (request now a)

  pub registered-Keeps :
      (now : ℕ) (a : Text)
      → Keeps R (update_table (add_address_to_processed_registration_messages_list now a))
  registered-Keeps now a = updated-Keeps _ (registered now a)

  pub connect-Keeps : (now : ℕ) (a b : Text) → Keeps R (update_table (add_connect_request now a b))
  connect-Keeps now a b = updated-Keeps _ (connect now a b)

  put_command-Keeps :
      (text : Text) (verify_list : List Text) → Keeps R (put_command text verify_list)
  unfolding put_command
  put_command-Keeps text verify_list = Keeps-modify _ (λ s. stable.writes s _)

  next_status-Keeps : (q : List Bool) (s : Node) → R s (next_status q s).1
  next_status-Keeps [] s = stable.order.reflexive s
  next_status-Keeps (status ∷ q) s = stable.reads_status s q

  get_status-Keeps : Keeps R get_status
  unfolding get_status
  get_status-Keeps = record { afterwards = λ s. next_status-Keeps s.status_q s }

  pub send_header-Keeps : (text : Text) → Keeps R (send_header text)
  unfolding send_header
  send_header-Keeps text =
      search (keeps_rules, IsStable-IsPreorder, put_command-Keeps, get_status-Keeps) depth 10

  pub ruleset table_rules = (
    keeps_rules, IsStable-IsPreorder, send_header-Keeps, add-Keeps, neighbor-Keeps,
    unsupported-Keeps, delete-Keeps, join-Keeps, leave-Keeps, request-Keeps, registered-Keeps,
    connect-Keeps,
  )

-- A predicate on the tables that every method keeps gives such a relation.
abbrev pub Preserves : (RoutingTable → Type 0) → Node → Node → Type 0
Preserves P s t = P s.routing_table → P t.routing_table

pub Preserves-IsStable :
    {P : RoutingTable → Type 0}
    → ((f : RoutingTable → RoutingTable) (t : RoutingTable) → TableMethod f → P t → P (f t))
    → IsStable (Preserves P)
Preserves-IsStable kept = record {
  order = record { reflexive = λ s h. h; transitive = λ s t u first second h. second (first h) };
  table = λ f s method h. kept f s.routing_table method h;
  writes = λ s q h. h;
  reads_status = λ s q h. h;
  receives = λ s bytes h. h;
  acknowledges = λ s ids h. h;
  hears = λ s b h. h;
  connects = λ s node text h. h;
  forwards = λ s q h. h;
  counts = λ s h. h;
  passes = λ s time more h. h;
  stops = λ s h. h;
}
