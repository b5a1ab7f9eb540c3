-- ===== src/Tests.antt =====
-- Runs of the models at concrete inputs.
pub mod Machine
pub mod Serving
pub mod Starting
pub mod Managing
pub mod Checking
pub mod Simulated
pub mod Vectors
pub mod Passthrough
pub mod Registers
pub mod Scattered
pub mod Small
