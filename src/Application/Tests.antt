-- ===== src/Application/Tests.antt =====
-- The node 0131 with its application.
use lora_multihop.Prelude.{codes, true, [], ◌∷◌, ◌++◌, List, ◌≡◌, refl, arith, ℕ}
use lora_multihop.Node.{start}
use lora_multihop.Ipc.Server.{
  serve, accepted, received, recv_timeout, time_out, forward_queue, idle,
}
use lora_multihop.Ipc.Socket.{takes_all, takes_part, times_out}
use lora_multihop.Ipc.Transfer.{socket_error, bytes_from, transfer_round, pass_on}
use lora_multihop.Ipc.Told.{silent_rounds}
use lora_multihop.Application.{
  Application, Happening, start_ipc, administration, exchange, lines, elapse, stop, happens, run,
}
use lora_multihop.Application.Ordered.{run-ordered}
use lora_multihop.Application.Passed.{Passed}
use lora_multihop.Application.Drained.{run-drains, exchanges}

-- three messages wait for the application
abbrev application : Application
application =
    start_ipc
      (record (start (codes "0131") (true ∷ true ∷ []) []) {
        received_messages_queue = codes "first" ∷ codes "second" ∷ codes "third" ∷ [];
      })
      []

-- a client connects, a route request of 0136 arrives, the clients write, and time passes
abbrev busy : List Happening
busy =
    administration accepted
    ∷ lines (codes "LR,0136,10,|0136|3|5|0|0137|" ∷ [])
    ∷ exchange socket_error takes_all
    ∷ administration (received (codes "registeredPeers?|"))
    ∷ exchange (bytes_from (codes "hello")) takes_all
    ∷ elapse 1000000
    ∷ administration recv_timeout
    ∷ stop
    ∷ []

run-ordered_example :
    ((more : List (List ℕ)) × ((run busy application).sent ≡ [] ++ more))
    × ((more : List (List ℕ)) × ((run busy application).sent
            ++ (run busy application).server.node.received_messages_queue
          ≡ (codes "first" ∷ codes "second" ∷ codes "third" ∷ []) ++ more))
run-ordered_example =
    run-ordered busy application (tt, (tt, (refl, (tt, (refl, (tt, (tt, (tt, tt))))))))

abbrev quiet : List Happening
quiet =
    administration accepted
    ∷ exchange socket_error (takes_part 3)
    ∷ elapse 1000000
    ∷ administration recv_timeout
    ∷ []

run-drains_example :
    ((run (quiet ++ exchanges (silent_rounds 2)) application).sent
      ≡ (run quiet application).sent ++ (run quiet application).server.node.received_messages_queue)
    × ((run (quiet ++ exchanges (silent_rounds 2)) application).server.node.received_messages_queue
        ≡ [])
unfolding run happens serve transfer_round pass_on time_out forward_queue idle
run-drains_example = run-drains quiet 2 application refl (omega arith)

-- the first message is cut, the send of the second raises
abbrev failing : List Happening
failing = exchange socket_error (takes_part 3) ∷ exchange socket_error times_out ∷ []

-- what is sent then, and what is left
failing_sent : (run failing application).sent ≡ codes "fir" ∷ []
unfolding run happens transfer_round pass_on
failing_sent = refl

failing_left : (run failing application).server.node.received_messages_queue ≡ codes "third" ∷ []
unfolding run happens transfer_round pass_on
failing_left = refl
