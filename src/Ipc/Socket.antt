-- ===== src/Ipc/Socket.antt =====
-- What a call of `conn.send` in src/lora_multihop/ipc.py comes back with.
use lora_multihop.Prelude.{
  ℕ, List, take, Result, ok, raised, socket_timeout, broken_pipe_error, connection_reset_error,
}

-- All bytes are taken, or only so many, which nothing looks at; or the call raises.
pub data Sending : Type 0 where
  takes_all : Sending
  takes_part : ℕ → Sending
  times_out broken reset : Sending

-- the bytes that the client gets
abbrev pub bytes_sent : Sending → List ℕ → Result (List ℕ)
bytes_sent takes_all bytes = ok bytes
bytes_sent (takes_part n) bytes = ok (take n bytes)
bytes_sent times_out bytes = raised socket_timeout
bytes_sent broken bytes = raised broken_pipe_error
bytes_sent reset bytes = raised connection_reset_error
