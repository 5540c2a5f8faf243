-- ===== src/Examples.antt =====
-- Sample programs, and the theorems at concrete inputs.
pub mod Samples
pub mod Witnesses
pub mod Outputs
pub mod Compiled
pub mod Runs
pub mod Tests
