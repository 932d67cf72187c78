-- ===== src/Gateway.antt =====
-- gateway.py: the command path and the event path of one gateway.
pub mod Command
pub mod Queue
pub mod Stats
pub mod Handler
pub mod Send
pub mod Worker
pub mod Settlement
pub mod System
pub mod Channels
pub mod Listen
pub mod Throttle
mod Tests
