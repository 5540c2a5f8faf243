-- ===== src/Machine.antt =====
-- The C++ arithmetic that src/sim/Simulator.cpp and
-- src/transforms/passes/ConstantFoldingPass.cpp write: 64-bit integers, whose undefined cases are a
-- value of the model, and the doubles, which are a parameter.
pub mod Ub
pub mod Words
pub mod Floats
