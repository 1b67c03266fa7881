-- ===== src/Mav.antt =====
-- The autopilot's side: src/mav/.
pub mod Mission
pub mod Encoding
pub mod Upload
pub mod Upkeep
pub mod Receive
pub mod Link
pub mod ModeResolve
mod Tests
