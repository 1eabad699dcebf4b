-- ===== src/Ipc.antt =====
-- src/lora_multihop/ipc.py: what the connected application asks for and is told.
mod Tests
pub mod Message
pub mod Socket
pub mod Server
pub mod Transfer
pub mod Requests
pub mod Told
