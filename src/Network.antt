-- ===== src/Network.antt =====
-- Several nodes that hear each other: what src/lora_multihop/protocol.py does on one of them as a
-- consequence of what it did on another.
mod Tests
pub mod Exchange
pub mod Found
pub mod Discovery
pub mod Spread
