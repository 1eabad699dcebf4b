-- ===== src/Application/Passed.antt =====
-- The data that the application receives where sends fail.
use lora_multihop.Prelude.{ℕ, List, [], ◌∷◌, ◌++◌, ◌≡◌}
use lora_multihop.Node.{Node}
use lora_multihop.Ipc.Transfer.{Transfer}
use lora_multihop.Application.{Application}

-- What the client got of the messages that were taken for it: of each a part from its start, all of it
-- among these, or nothing.
pub data Passed : List (List ℕ) → List (List ℕ) → Type 0 where
  nothing : Passed [] []
  gets :
      {taken pieces : List (List ℕ)} (message piece rest : List ℕ)
      → message ≡ piece ++ rest
      → Passed taken pieces
      → Passed (message ∷ taken) (piece ∷ pieces)
  loses :
      {taken pieces : List (List ℕ)} (message : List ℕ)
      → Passed taken pieces
      → Passed (message ∷ taken) pieces

-- From what was sent and what waits to what was sent and what waits later.
record Advances (sent : List (List ℕ)) (queue : List (List ℕ)) (sent' queue' : List (List ℕ))
    : Type 0 where
  taken : List (List ℕ)
  pieces : List (List ℕ)
  more : List (List ℕ)
  passed : Passed taken pieces
  got : sent' ≡ sent ++ pieces
  waiting : taken ++ queue' ≡ queue ++ more

abbrev Goes : Application → Application → Type 0
Goes a b =
    Advances a.sent a.server.node.received_messages_queue b.sent
      b.server.node.received_messages_queue
