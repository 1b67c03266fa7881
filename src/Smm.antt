-- ===== src/Smm.antt =====
-- The search-management side: src/smm/.
pub mod SearchAltitude
pub mod Search
pub mod Worker
mod Tests
