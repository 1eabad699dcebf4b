-- ===== src/Node/Action/Keeps.antt =====
-- What an action does to the node, as a relation between the node before and after: one rule for each
-- way to build an action.
use lora_multihop.Prelude.{
  Text, Bool, true, false, Option, none, some, Result, ok, raised, value_error, if◌then◌else◌,
}
use lora_multihop.RoutingTable.{RoutingTable, Route, get_best_route_for_destination}
use lora_multihop.Node.{Node}
use lora_multihop.Node.Action.{
  Action, pure, lift, gets, modify, continue, when, along, update_table, best_route,
  except_value_error, handled, ◌>>=◌,
}

pub record IsPreorder (R : Node → Node → Type 0) : Type 0 where
  pub reflexive : (s : Node) → R s s
  pub transitive : (s t u : Node) → R s t → R t u → R s u

-- Whether it returns or raises, the action leads to a node that is related to the one it found.
pub record Keeps (R : Node → Node → Type 0) {A : Type 0} (m : Action A) : Type 0 where
  pub afterwards : (s : Node) → R s (m s).1

module _ {R : Node → Node → Type 0} (order : IsPreorder R) where
  -- what only looks at the node
  reading : {A : Type 0} (look : Node → Result A) → Keeps R (λ node. (look node, node))
  reading look = record { afterwards = λ node. order.reflexive node }

  pub Keeps-pure : {A : Type 0} (value : A) → Keeps R (pure value)
  unfolding pure
  Keeps-pure value = reading (λ _. ok value)

  pub Keeps-lift : {A : Type 0} (result : Result A) → Keeps R (lift result)
  unfolding lift
  Keeps-lift result = reading (λ _. result)

  pub Keeps-gets : {A : Type 0} (attribute : Node → A) → Keeps R (gets attribute)
  unfolding gets
  Keeps-gets attribute = reading (λ node. ok (attribute node))

  pub Keeps-best_route : (destination : Text) → Keeps R (best_route destination)
  unfolding best_route
  Keeps-best_route destination =
      reading (λ node. get_best_route_for_destination destination node.routing_table)

  pub Keeps-if :
      {A : Type 0} (test : Bool) (body other : Action A)
      → Keeps R other
      → Keeps R body
      → Keeps R (if test then body else other)
  Keeps-if false body other otherwise then_case = otherwise
  Keeps-if true body other otherwise then_case = then_case

  pub Keeps-when : (b : Bool) (m : Action (Unit {0})) → Keeps R m → Keeps R (when b m)
  Keeps-when b m km = Keeps-if b m (pure tt) (Keeps-pure tt) km

  pub Keeps-along :
      (route : Option Route) (k : Text → Action (Unit {0}))
      → ((next : Text) → Keeps R (k next))
      → Keeps R (along route k)
  unfolding along
  Keeps-along none k step = Keeps-pure tt
  Keeps-along (some route) k step = step route.next_node

  then_keeps :
      {A B : Type 0} (result : Result A) (rest : A → Action B) (before node : Node)
      → R before node
      → ((value : A) → Keeps R (rest value))
      → R before (continue result rest node).1
  then_keeps (raised exception) rest before node held step = held
  then_keeps (ok value) rest before node held step =
      order.transitive before node _ held ((step value).afterwards node)

  pub Keeps-bind :
      {B A : Type 0} (first : Action A) (rest : A → Action B)
      → ((value : A) → Keeps R (rest value))
      → Keeps R first
      → Keeps R (first >>= rest)
  unfolding ◌>>=◌
  Keeps-bind first rest step start = record {
    afterwards =
        λ node. then_keeps (first node).0 rest node (first node).1 (start.afterwards node) step;
  }

  handler_keeps :
      (handler : Action (Unit {0})) (r : Result (Unit {0})) (before node : Node)
      → Keeps R handler
      → R before node
      → R before (handled r handler node).1
  handler_keeps handler (ok a) before node step held = held
  handler_keeps handler (raised value_error) before node step held =
      order.transitive before node _ held (step.afterwards node)
  handler_keeps handler (raised _) before node step held = held

  pub Keeps-except :
      (m handler : Action (Unit {0}))
      → Keeps R m
      → Keeps R handler
      → Keeps R (except_value_error m handler)
  unfolding except_value_error
  Keeps-except m handler km step = record {
    afterwards = λ node. handler_keeps handler (m node).0 node (m node).1 step (km.afterwards node);
  }

-- a change of the node
pub Keeps-modify :
    {R : Node → Node → Type 0} (f : Node → Node) → ((s : Node) → R s (f s)) → Keeps R (modify f)
unfolding modify
Keeps-modify f change = record { afterwards = change }

pub Keeps-update :
    {R : Node → Node → Type 0} (f : RoutingTable → RoutingTable)
    → ((s : Node) → R s (record s { routing_table = f s.routing_table }))
    → Keeps R (update_table f)
unfolding update_table
Keeps-update f change = record { afterwards = change }

pub ruleset keeps_rules = (
  Keeps-pure, Keeps-lift, Keeps-gets, Keeps-best_route, Keeps-if, Keeps-when, Keeps-along,
  Keeps-bind, Keeps-except,
)
