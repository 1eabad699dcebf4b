-- ===== src/Protocol.antt =====
-- src/lora_multihop/protocol.py: the routing protocol of a node. Logging is left out. `send_header` stands
-- without `wait_random_time`, which sleeps for at most `MAX_SLEEP_TIME = 0` seconds.
pub mod Transmit
pub mod Wait
pub mod Emission
pub mod Delivery
mod Untouched
pub mod Requests
pub mod Connections
pub mod Answered
pub mod Attempts
pub mod Copies
pub mod Errors
pub mod Silence
pub mod Pending
pub mod Unanswered
pub mod Calls
pub mod Reconnect
pub mod Registration
pub mod Receive
pub mod Send
mod Tests
