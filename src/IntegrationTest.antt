-- ===== src/IntegrationTest.antt =====
-- src/integration_test_multihop.py, and src/integration_test.py, which differs in the order of its
-- imports: a node on the local network, set up from the environment.
mod Tests
pub mod Started
use lora_multihop.Prelude.{
  Text, codes, text_eq, Bool, Option, none, some, List, [], ◌∷◌, ◌++◌, ℤ, Result, ok, raised,
  type_error, attribute_error,
}
use lora_multihop.Python.Number.{int}
use lora_multihop.Python.Find.{lower}

-- `os.getenv`
abbrev pub Environment : Type 0
Environment = Text → Option Text

-- `int(os.getenv(...))`: `int(None)` raises a `TypeError`.
unfoldable pub int_of : Option Text → Result ℤ
int_of none = raised type_error
int_of (some value) = int value

-- `os.getenv('IS_SERVER').lower() == 'true'`
unfoldable pub server_flag : Option Text → Result Bool
server_flag none = raised attribute_error
server_flag (some value) = ok (text_eq (lower value) (codes "true"))

-- What the program does: it makes the network and starts its threads, makes the sockets and starts
-- theirs.
pub data Event : Type 0 where
  network : Option Text → ℤ → Option Text → Event
  network_started : Bool → Event
  sockets : ℤ → ℤ → Option Text → Event
  sockets_started : Event

-- A program that may raise, with what it has done.
abbrev pub Program : Type 0 → Type 0
Program A = List Event → Result A × List Event

abbrev pub proceed :
    {A B : Type 0} → (A → Program B) → Result A × List Event → Result B × List Event
proceed rest (ok a, events) = rest a events
proceed rest (raised e, events) = (raised e, events)

infixl 10 ◌>>=◌ ◌>>◌
unfoldable pub ◌>>=◌ : {A B : Type 0} → Program A → (A → Program B) → Program B
◌>>=◌ m rest events = proceed rest (m events)

abbrev pub ◌>>◌ : {A B : Type 0} → Program A → Program B → Program B
m >> n = m >>= λ _. n

unfoldable pub read : {A : Type 0} → Result A → Program A
read r events = (r, events)

unfoldable pub did : Event → Program (Unit {0})
did event events = (ok tt, events ++ event ∷ [])

unfoldable pub main : Environment → Program (Unit {0})
main getenv = do
  port ← read (int_of (getenv (codes "MODULE_COMMUNICATION_PORT")))
  did (network (getenv (codes "HOST")) port (getenv (codes "MODULE_ADDRESS")))
  is_server ← read (server_flag (getenv (codes "IS_SERVER")))
  did (network_started is_server)
  ipc_port ← read (int_of (getenv (codes "IPC_PORT")))
  message_port ← read (int_of (getenv (codes "MESSAGE_PORT")))
  did (sockets ipc_port message_port (getenv (codes "MODULE_ADDRESS")))
  did sockets_started
