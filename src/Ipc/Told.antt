-- ===== src/Ipc/Told.antt =====
-- What the connected application is told.
use lora_multihop.Prelude.{
  ℕ, zero, suc, ◌≤◌, Text, codes, true, List, [], ◌∷◌, ◌++◌, append_assoc, append-nil, length,
  Result, ok, ◌≡◌, sym, ap, ◌∙◌, arith, All,
}
use lora_multihop.Variables.{header_delimiter}
use lora_multihop.Python.Split.{Lacks, split, split-append, split_last}
use lora_multihop.Python.Utf8.{encode}
use lora_multihop.RoutingTable.{Peer}
use lora_multihop.Ipc.Server.{
  Server, serving, recv_timeout, listed, registered_peers, send, forward_queue, serve, time_out,
  caught_outside, result, idle, ◌>>=◌,
}
use lora_multihop.Ipc.Socket.{Sending, takes_all}
use lora_multihop.Ipc.Transfer.{Transfer, Arrival, socket_error, transfer, transfer_round, pass_on}

abbrev pub peer_ids : List Peer → List Text
peer_ids [] = []
peer_ids (p ∷ later) = p.peer_id ∷ peer_ids later

abbrev pub WithoutCommas : List Peer → Type 0
WithoutCommas ps = All (λ (p : Peer). Lacks b',' p.peer_id) ps

split-listed :
    (first : Text) (ps : List Peer)
    → Lacks b',' first
    → WithoutCommas ps
    → split b',' (first ++ listed ps) ≡ first ∷ peer_ids ps
unfolding listed
split-listed first [] h hs = rw (append-nil first) (split_last b',' first h)
split-listed first (p ∷ later) h hs =
    split-append b',' first (p.peer_id ++ listed later) h
    ∙ ap (◌∷◌ first) (split-listed p.peer_id later hs.0 hs.1)

-- The answer to `registeredPeers?`, cut at its commas, is its type and then the ids of all registered
-- peers in the order of the table, where no id has a comma.
pub split-registered_peers :
    (ps : List Peer)
    → WithoutCommas ps
    → split b',' (registered_peers ps) ≡ codes "RegisteredPeers" ∷ peer_ids ps
unfolding registered_peers
split-registered_peers ps h = split-listed (codes "RegisteredPeers") ps (ground arith) h

-- The lines are the encodings of the texts, each behind a delimiter.
abbrev pub AreEncoded : List Text → List (List ℕ) → Type 0
AreEncoded [] [] = Unit
AreEncoded (text ∷ texts) (bytes ∷ more) =
    (encode (text ++ header_delimiter ∷ []) ≡ ok bytes) × AreEncoded texts more
AreEncoded [] (bytes ∷ more) = ⊥
AreEncoded (text ∷ texts) [] = ⊥

forward-all :
    (queue : List Text) (lines : List (List ℕ)) (s : Server)
    → AreEncoded queue lines
    → forward_queue queue
        (record s { node = record s.node { sending_queue = queue }; sending = [] })
      ≡ (
        ok tt,
        record s {
          node = record s.node { sending_queue = [] };
          sent = s.sent ++ lines;
          sending = [];
        },
      )
unfolding forward_queue send result idle ◌>>=◌
forward-all [] [] s h =
    ap
      (λ (lines : List (List ℕ)).
        let r : Result (Unit {0}) × Server = (
          ok tt,
          record s { node = record s.node { sending_queue = [] }; sent = lines; sending = [] },
        ) in
        r)
      (sym (append-nil s.sent))
forward-all (text ∷ queue) (line ∷ lines) s h = rw h.0 (
    forward-all queue lines (record s { sent = s.sent ++ line ∷ [] }) h.1
    ∙ ap
        (λ (sent : List (List ℕ)).
          let r : Result (Unit {0}) × Server = (
            ok tt,
            record s { node = record s.node { sending_queue = [] }; sent = sent; sending = [] },
          ) in
          r)
        (append_assoc s.sent (line ∷ []) lines))
forward-all [] (line ∷ lines) s h = absurd h
forward-all (text ∷ queue) [] s h = absurd h

-- When the client is silent for a second, all requests that wait for it are sent, each once and in
-- their order, if each of them can be encoded and the socket takes all bytes, and the queue is empty.
pub timeout-forwards :
    (queue : List Text) (lines : List (List ℕ)) (s : Server)
    → AreEncoded queue lines
    → serve serving recv_timeout
        (record s { node = record s.node { sending_queue = queue }; sending = [] })
      ≡ record s {
        node = record s.node { sending_queue = [] };
        sent = s.sent ++ lines;
        sending = [];
      }
unfolding serve time_out
timeout-forwards queue lines s h = ap caught_outside (forward-all queue lines s h)

-- rounds in which the client is silent and the socket takes all bytes of a message
abbrev pub silent_rounds : ℕ → List (Arrival × Sending)
silent_rounds zero = []
silent_rounds (suc n) = (socket_error, takes_all) ∷ silent_rounds n

-- With a silent client and a socket that takes all bytes, as many rounds as messages wait are enough, and any number beyond: all messages
-- that were received are sent to the client, each once and in their order, and the queue is empty.
pub transfer-drains :
    (queue : List (List ℕ)) (n : ℕ) (s : Transfer)
    → length queue ≤ n
    → transfer
        (silent_rounds n)
        (record s { running = true; node = record s.node { received_messages_queue = queue } })
      ≡ record s {
        running = true;
        node = record s.node { received_messages_queue = [] };
        sent = s.sent ++ queue;
      }
unfolding transfer transfer_round pass_on
transfer-drains [] zero s enough =
    ap
      (λ (sent : List (List ℕ)). record s {
        running = true;
        node = record s.node { received_messages_queue = [] };
        sent = sent;
      })
      (sym (append-nil s.sent))
transfer-drains [] (suc n) s enough = transfer-drains [] n s (omega arith)
transfer-drains (message ∷ queue) zero s enough = absurd (omega arith)
transfer-drains (message ∷ queue) (suc n) s enough =
    transfer-drains queue n (record s { sent = s.sent ++ message ∷ [] }) (omega arith)
    ∙ ap
        (λ (sent : List (List ℕ)). record s {
          running = true;
          node = record s.node { received_messages_queue = [] };
          sent = sent;
        })
        (append_assoc s.sent (message ∷ []) queue)
