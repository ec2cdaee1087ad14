-- ===== src/Realtime.antt =====
-- services/realtime/src/echoweave: the live conversation service.
pub mod Protocol
pub mod Chunking
pub mod Auth
mod Tests
