-- ===== src/IntegrationTest/Started.antt =====
-- When the program starts, and what it leaves behind where it does not.
use lora_multihop.Prelude.{
  Text, codes, Bool, Option, List, [], ◌∷◌, ℤ, Result, ok, raised, Exception, ◌≡◌, refl, arith, ap,
  sym, ◌∙◌,
}
use lora_multihop.IntegrationTest.{
  Environment, int_of, server_flag, Event, network, network_started, sockets, sockets_started,
  ◌>>=◌, read, did, main,
}

-- `main` on what is read from the environment
abbrev on_results :
    Option Text
    → Option Text
    → Result ℤ
    → Result Bool
    → Result ℤ
    → Result ℤ
    → Result (Unit {0}) × List Event
on_results host address (raised e) flag ipc_port message_port = (raised e, [])
on_results host address (ok port) (raised e) ipc_port message_port =
    (raised e, network host port address ∷ [])
on_results host address (ok port) (ok flag) (raised e) message_port =
    (raised e, network host port address ∷ network_started flag ∷ [])
on_results host address (ok port) (ok flag) (ok ipc_port) (raised e) =
    (raised e, network host port address ∷ network_started flag ∷ [])
on_results host address (ok port) (ok flag) (ok ipc_port) (ok message_port) = (
  ok tt,
  network host port address
      ∷ network_started flag
      ∷ sockets ipc_port message_port address
      ∷ sockets_started
      ∷ [],
)

module _ (getenv : Environment) where
  abbrev pub port_read : Result ℤ
  port_read = int_of (getenv (codes "MODULE_COMMUNICATION_PORT"))

  abbrev pub flag_read : Result Bool
  flag_read = server_flag (getenv (codes "IS_SERVER"))

  abbrev pub ipc_read : Result ℤ
  ipc_read = int_of (getenv (codes "IPC_PORT"))

  abbrev pub message_read : Result ℤ
  message_read = int_of (getenv (codes "MESSAGE_PORT"))

  main-results :
      main getenv []
      ≡ on_results
          (getenv (codes "HOST"))
          (getenv (codes "MODULE_ADDRESS"))
          port_read
          flag_read
          ipc_read
          message_read
  unfolding main ◌>>=◌ read did
  main-results = ground arith

  results-late :
      (ipc_port message_port : Result ℤ) (port : ℤ) (flag : Bool) (e : Exception)
      → let r =
          on_results
            (getenv (codes "HOST"))
            (getenv (codes "MODULE_ADDRESS"))
            (ok port)
            (ok flag)
            ipc_port
            message_port in
        r.0 ≡ raised e
        → r.1
          ≡ network (getenv (codes "HOST")) port (getenv (codes "MODULE_ADDRESS"))
            ∷ network_started flag
            ∷ []
  results-late (raised e') message_port port flag e h = refl
  results-late (ok ipc_port) (raised e') port flag e h = refl
  results-late (ok ipc_port) (ok message_port) port flag e h = absurd (cc)

  -- If the port of the network is a number and `IS_SERVER` is set, then a program that ends with an
  -- exception, as with a port for a socket that is missing or no number, has made the network and
  -- started its threads, and has made no socket: the threads are left running.
  pub main-late :
      (port : ℤ) (flag : Bool) (e : Exception)
      → port_read ≡ ok port
      → flag_read ≡ ok flag
      → (main getenv []).0 ≡ raised e
      → (main getenv []).1
        ≡ network (getenv (codes "HOST")) port (getenv (codes "MODULE_ADDRESS"))
          ∷ network_started flag
          ∷ []
  main-late port flag e on_port on_flag fails =
      let same : main getenv []
          ≡ on_results (getenv (codes "HOST")) (getenv (codes "MODULE_ADDRESS")) (ok port) (ok flag)
              ipc_read message_read =
        main-results
        ∙ ap
            (λ p.
              on_results (getenv (codes "HOST")) (getenv (codes "MODULE_ADDRESS")) p flag_read
                ipc_read message_read)
            on_port
        ∙ ap
            (λ f.
              on_results (getenv (codes "HOST")) (getenv (codes "MODULE_ADDRESS")) (ok port) f
                ipc_read message_read)
            on_flag in
      ap (λ (r : Result (Unit {0}) × List Event). r.1) same
      ∙ results-late ipc_read message_read port flag e
          (sym (ap (λ (r : Result (Unit {0}) × List Event). r.0) same) ∙ fails)
