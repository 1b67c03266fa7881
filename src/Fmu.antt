-- ===== src/Fmu.antt =====
-- FMUStateMachine, the priority logic of the unit: src/fmu.cpp and src/fmu.hpp.
pub mod State
pub mod Action
pub mod Handlers
pub mod Update
pub mod Run
pub mod Invariant
pub mod Settled
pub mod History
pub mod Safety
pub mod Battery
pub mod Altitude
pub mod Calls
pub mod Commands
pub mod Role
pub mod Failsafe
mod Tests
