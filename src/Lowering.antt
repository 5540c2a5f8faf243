-- ===== src/Lowering.antt =====
-- include/asmstudio/ir/Lowering.hpp and src/ir/Lowering.cpp: from the DSL to the intermediate
-- representation.
pub mod Context
pub mod Expr
pub mod Stmt
pub mod Function
pub mod Invariant
pub mod Operations
pub mod Valid
pub mod ValidStmt
pub mod Total
pub mod WellFormed
pub mod Modules
pub mod Code
pub mod Instructions
pub mod Emitted
pub mod ExprMeaning
pub mod Walks
pub mod Endings
pub mod Growth
pub mod Conditions
pub mod Performs
pub mod Branching
pub mod Looping
pub mod StmtMeaning
pub mod Refines
pub mod Compound
pub mod Compiles
pub mod Covers
pub mod Declared
pub mod FirstValues
pub mod NamedSlots
pub mod Steps
pub mod RunLoop
pub mod Runs
pub mod FunctionCaches
pub mod LastStep
