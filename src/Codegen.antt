-- ===== src/Codegen.antt =====
-- src/codegen: listings of the intermediate representation.
pub mod Pseudo
pub mod Registers
pub mod Arm64Ops
pub mod Arm64
pub mod NameSets
pub mod RegisterLaws
pub mod EmittedOps
pub mod Emission
pub mod LoweredEmission
