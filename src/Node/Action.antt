-- ===== src/Node/Action.antt =====
-- Methods that change the node and may raise. What was changed before an exception stays changed.
pub mod Keeps
use lora_multihop.Prelude.{
  Text, Bool, true, false, Option, none, some, Result, ok, raised, value_error, index_error,
  key_error, queue_empty, type_error, attribute_error, socket_timeout, broken_pipe_error,
  connection_reset_error, if◌then◌else◌,
}
use lora_multihop.RoutingTable.{RoutingTable, Route, get_best_route_for_destination}
use lora_multihop.Node.{Node}

abbrev pub Action : Type 0 → Type 0
Action A = Node → Result A × Node

unfoldable pub pure : {A : Type 0} → A → Action A
pure a s = (ok a, s)

unfoldable pub lift : {A : Type 0} → Result A → Action A
lift r s = (r, s)

unfoldable pub gets : {A : Type 0} → (Node → A) → Action A
gets f s = (ok (f s), s)

unfoldable pub modify : (Node → Node) → Action (Unit {0})
modify f s = (ok tt, f s)

abbrev pub continue : {A B : Type 0} → Result A → (A → Action B) → Action B
continue (ok a) f s = f a s
continue (raised e) f s = (raised e, s)

infixl 10 ◌>>=◌ ◌>>◌
-- Opening this opens `pure`, `lift`, `gets` and `modify` too.
unfoldable pub ◌>>=◌ : {A B : Type 0} → Action A → (A → Action B) → Action B
unfolding pure lift gets modify
◌>>=◌ m f s = let (r, s') = m s in continue r f s'

abbrev pub ◌>>◌ : {A B : Type 0} → Action A → Action B → Action B
m >> n = m >>= λ _. n

-- `if test: action`
abbrev pub when : Bool → Action (Unit {0}) → Action (Unit {0})
when test action = if test then action else pure tt

abbrev pub is_none : {A : Type 0} → Option A → Bool
is_none none = true
is_none (some _) = false

-- Goes on with the next node of a route, if there is a route.
unfoldable pub along : Option Route → (Text → Action (Unit {0})) → Action (Unit {0})
along none forward = pure tt
along (some route) forward = forward route.next_node

unfoldable pub update_table : (RoutingTable → RoutingTable) → Action (Unit {0})
unfolding modify
update_table f = modify (λ s. record s { routing_table = f s.routing_table })

unfoldable pub best_route : Text → Action (Option Route)
best_route destination s = (get_best_route_for_destination destination s.routing_table, s)

abbrev pub handled : Result (Unit {0}) → Action (Unit {0}) → Action (Unit {0})
handled (ok a) handler s = (ok a, s)
handled (raised value_error) handler s = handler s
handled (raised index_error) handler s = (raised index_error, s)
handled (raised key_error) handler s = (raised key_error, s)
handled (raised queue_empty) handler s = (raised queue_empty, s)
handled (raised type_error) handler s = (raised type_error, s)
handled (raised attribute_error) handler s = (raised attribute_error, s)
handled (raised socket_timeout) handler s = (raised socket_timeout, s)
handled (raised broken_pipe_error) handler s = (raised broken_pipe_error, s)
handled (raised connection_reset_error) handler s = (raised connection_reset_error, s)

-- `except ValueError: handler`
unfoldable pub except_value_error : Action (Unit {0}) → Action (Unit {0}) → Action (Unit {0})
except_value_error m handler s = let (r, s') = m s in handled r handler s'
