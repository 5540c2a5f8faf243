-- ===== src/Optimizer.antt =====
-- include/asmstudio/transforms and src/transforms: the passes over the intermediate representation
-- and the loop that runs them.
pub mod ConstantFolding
pub mod DeadCode
pub mod Jumps
pub mod Unreachable
pub mod Passes
pub mod JumpSound
pub mod JumpCaches
pub mod JumpRuns
pub mod Measure
pub mod FoldProgress
pub mod DeadCodeProgress
pub mod JumpProgress
pub mod SearchFuel
pub mod Identifiers
pub mod Targets
pub mod Swept
pub mod Reachable
pub mod Reached
pub mod Eliminated
pub mod EliminatedCaches
pub mod RegionSteps
pub mod RegionRuns
pub mod Fixpoint
pub mod ModuleRuns
pub mod LoweredRuns
pub mod FoldSound
