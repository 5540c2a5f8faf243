-- ===== src/Sim.antt =====
-- include/asmstudio/sim and src/sim/Simulator.cpp: the simulator of the intermediate representation.
pub mod Ops
pub mod State
pub mod Handlers
pub mod Step
pub mod FrameSteps
pub mod Run
pub mod SameRuns
pub mod Lookup
pub mod Slots
pub mod Coherence
pub mod CoherentSteps
pub mod Bounds
pub mod Rewinding
pub mod Trace
