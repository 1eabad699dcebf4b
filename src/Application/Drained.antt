-- ===== src/Application/Drained.antt =====
-- What waits for the application reaches it.
use lora_multihop.Prelude.{
  ℕ, ◌≤◌, Bool, true, false, if◌then◌else◌, List, [], ◌∷◌, ◌++◌, length, ◌≡◌, refl, ap, ◌∙◌,
}
use lora_multihop.Ipc.Socket.{Sending}
use lora_multihop.Ipc.Transfer.{Transfer, Arrival, transfer, transfer_round}
use lora_multihop.Ipc.Told.{silent_rounds, transfer-drains}
use lora_multihop.Application.{
  Application, Happening, exchange, happens, run, transfer_of, exchanged,
}

-- Events of the socket for data alone.
abbrev pub exchanges : List (Arrival × Sending) → List Happening
exchanges [] = []
exchanges ((arrival, sending) ∷ later) = exchange arrival sending ∷ exchanges later

happens-exchange :
    (running : Bool) (arrival : Arrival) (sending : Sending) (a : Application)
    → (if running then exchanged (transfer_round arrival sending (transfer_of a)) a else a)
      ≡ exchanged
          (if running then transfer_round arrival sending (transfer_of a) else transfer_of a)
          a
happens-exchange false arrival sending a = refl
happens-exchange true arrival sending a = refl

-- The loop for data within the application is the loop by itself.
run-exchanges :
    (arrivals : List (Arrival × Sending)) (a : Application)
    → run (exchanges arrivals) a ≡ exchanged (transfer arrivals (transfer_of a)) a
unfolding run happens transfer
run-exchanges [] a = refl
run-exchanges ((arrival, sending) ∷ later) a =
    ap (run (exchanges later)) (happens-exchange a.running arrival sending a)
    ∙ run-exchanges later (
        exchanged
          (if a.running then transfer_round arrival sending (transfer_of a) else transfer_of a) a)

run-append :
    (before after : List Happening) (a : Application)
    → run (before ++ after) a ≡ run after (run before a)
unfolding run
run-append [] after a = refl
run-append (happening ∷ before) after a = run-append before after (happens happening a)

drains-running :
    (running : Bool) (n : ℕ) (t : Transfer)
    → running ≡ true
    → length t.node.received_messages_queue ≤ n
    → transfer (silent_rounds n) (record t { running = running }) ≡ record t {
      running = running;
      node = record t.node { received_messages_queue = [] };
      sent = t.sent ++ t.node.received_messages_queue;
    }
drains-running true n t runs enough = transfer-drains t.node.received_messages_queue n t enough
drains-running false n t runs enough = cc

drains-after :
    (n : ℕ) (a : Application)
    → a.running ≡ true
    → length a.server.node.received_messages_queue ≤ n
    → run (exchanges (silent_rounds n)) a
      ≡ exchanged
          (record (transfer_of a) {
            node = record a.server.node { received_messages_queue = [] };
            sent = a.sent ++ a.server.node.received_messages_queue;
          })
          a
drains-after n a runs enough =
    run-exchanges (silent_rounds n) a
    ∙ ap (λ (t : Transfer). exchanged t a) (drains-running a.running n (transfer_of a) runs enough)

-- Whatever has happened, sends that failed or took a part of a message among it, if the loop for data
-- still runs: as many rounds in which the application is silent and its socket takes all bytes as
-- messages wait for it are enough, and any number beyond. All that waited is sent to it, in its order,
-- and nothing waits any more.
pub run-drains :
    (happenings : List Happening) (n : ℕ) (a : Application)
    → (run happenings a).running ≡ true
    → length (run happenings a).server.node.received_messages_queue ≤ n
    → ((run (happenings ++ exchanges (silent_rounds n)) a).sent
        ≡ (run happenings a).sent ++ (run happenings a).server.node.received_messages_queue)
      × ((run (happenings ++ exchanges (silent_rounds n)) a).server.node.received_messages_queue
          ≡ [])
run-drains happenings n a runs enough =
    let after =
      run-append happenings (exchanges (silent_rounds n)) a
      ∙ drains-after n (run happenings a) runs enough in
    (
      ap (λ (b : Application). b.sent) after,
      ap (λ (b : Application). b.server.node.received_messages_queue) after,
    )
