-- ===== src/Fss.antt =====
-- The FSS side: src/fss.
pub mod Payload
pub mod AckGroup
pub mod CommandAck
pub mod Client
pub mod Queue
mod Tests
