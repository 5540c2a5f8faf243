-- ===== src/Optimizer/LoweredRuns.antt =====
-- src/ir/Lowering.cpp, src/transforms/passes/JumpSimplificationPass.cpp and src/sim/Simulator.cpp
-- together.
use asm_studio.Machine.Floats.{Floats}
use asm_studio.Dsl.Builder.{Function}
