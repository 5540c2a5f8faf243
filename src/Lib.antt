-- ===== src/Lib.antt =====
-- Asm Studio: a builder for small programs, their lowering to an intermediate representation, the
-- passes that optimise it, a simulator that runs it, and a parser of assembly text.
--
-- The parts and the files that model them:
--
-- Ir (include/asmstudio/ir/IRTypes.hpp): values, instructions, blocks, functions, modules and their
-- lookups. IRConstant and RegValue are one type of four kinds of value. Ir/Constants is the
-- condition under which the constant of a value may be relied on.
--
-- Machine: 64-bit arithmetic. A signed integer is a number of ℤ, an unsigned one a natural number
-- below 2 ^ 64; results wrap or are undefined as C++20 says, and Ub is the type of results that may
-- be undefined. A double is its pattern of bits, and the operations on doubles are the parameter
-- Floats.
--
-- Sim (src/sim/Simulator.cpp): Ops are the visitors, State the simulator with its caches and value
-- slots, Handlers and Step are stepOne with a function for each handler, and Run has run, step and
-- rewind. The module and the limits are a Setup, what changes is a Simulator, and each operation
-- yields the new simulator with its result. Lookup, FrameSteps, SameRuns, Slots, Coherence,
-- CoherentSteps, Bounds and Rewinding have the proofs.
--
-- Optimizer (src/transforms/Optimizer.cpp and src/transforms/passes): ConstantFolding, DeadCode,
-- Jumps and Unreachable are the passes, Passes the levels and the fixpoint loop. A pass yields the
-- new function and whether it changed. FoldSound, JumpSound, JumpCaches and JumpRuns compare passes
-- with the simulator, and LoweredRuns joins that with lowering; Measure, FoldProgress,
-- DeadCodeProgress, JumpProgress, SearchFuel, Fixpoint and ModuleRuns are about termination. A set
-- of identifiers is a list (Identifiers). Swept is about what dead code elimination removes; Targets,
-- Reachable and Reached are about the set of reachable blocks. Eliminated, EliminatedCaches, RegionSteps and
-- RegionRuns compare the removal of the others with the simulator.
--
-- Dsl (include/asmstudio/dsl and src/dsl): Syntax has variables, conditions, expressions and
-- statements, Terms the functions and operators that build expressions and conditions, Builder the
-- operations of Function. The body under construction and the ones around it are a stack. Meaning
-- is a reference semantics of expressions and statements that uses nothing of lowering: the
-- simulator's operators on the values of variables, and statements on fuel. Start has the values
-- that the variables of a function start with. Calls, and variables that are read without a value,
-- have no meaning.
--
-- Lowering (src/ir/Lowering.cpp): Context is LoweringContext as a state that a computation passes
-- on, with exceptions and reads of empty optionals as results; Expr, Stmt and Function follow the
-- functions of the file. The names of blocks come from a parameter. Invariant, Operations, Valid,
-- ValidStmt, Total, WellFormed and Modules are about well-formed results. Code to Refines compare
-- the emitted code with the meaning of the source: Code, Instructions and Walks run instructions in
-- a frame, with the simulator's handlers; Emitted and Growth say what lowering puts where;
-- ExprMeaning, Conditions, Performs, Branching, Looping, StmtMeaning, Compound and Refines go
-- through expressions, conditions, statements and lists of them; NamedSlots, Declared and
-- FirstValues are about the variables declared at the start, Covers and Compiles about whole
-- functions. Steps, RunLoop
-- and LastStep are about such runs as steps of the whole simulator and of its loop, FunctionCaches
-- about the simulator's cache of lowered functions, and Runs about what `run` answers.
--
-- Parse (include/asmstudio/parse): Token, Lexer, AsmProgram and Parser. A string_view is a list of
-- character codes and the lexer keeps what is left of it; a counted array is the list of its
-- entries. Progress, Arrays, Ends and Numbers have the proofs.
--
-- Text: what the sources write to streams and strings is a list of character codes, in code points
-- where the source has bytes of UTF-8. Decimal has std::to_string and operator<< of integers; those
-- of doubles are the parameter FloatText. ReadBack reads decimal text. Text that is written is the
-- result of the function that writes it.
--
-- Codegen (src/codegen): Pseudo is PseudoEmitter.cpp; Registers, Arm64Ops and Arm64 are
-- Arm64Emitter.cpp, with the allocator passed on from instruction to instruction and the exception
-- of blockIndexMap.at as none. A std::set of names is a sorted list. NameSets and RegisterLaws are
-- about the allocator, EmittedOps, Emission and LoweredEmission about where the emitter throws.
--
-- Analysis (src/analysis): Explain has the counts and the text of Explain.cpp, Dot is CfgDot.cpp,
-- and Labels reads the labels of the graph. Sim/Trace is printTrace.
--
-- Driver (src/driver/ConsolePresenter.cpp and src/dsl/Program.cpp): Format is the template function
-- format, Console the members of the presenter, Program the facade, whose members yield an Answer,
-- and Requests its members as data and the sessions of a client. What is outside a program
-- (doubles, names of blocks, which files can be opened, fuel) is a Host, and an output stream is a
-- number. Templates, BuildCounts and Sessions have the proofs.
--
-- Support (include/asmstudio/support): enumerations and diagnostics. Prelude has Boolean tests,
-- lists and integers, and Examples the samples to which the theorems are applied.
--
-- How the parts interact: Lowering turns the functions of Dsl into Ir; Optimizer rewrites Ir
-- functions in place; Sim runs an Ir module; Codegen and Analysis write one as text. Driver/Program
-- calls them all and writes through Driver/Console. Parse stands alone.
--
-- Loops. The simulator's loop, the fixpoint loop and the loops of the parser and of the search for
-- reachable blocks take fuel, and none means that it ran out. For the simulator, two more than its
-- step limit are enough, since each round counts a step; for the fixpoint loop, more than the
-- measure of the function, which weighs instructions by what can still become of them and counts
-- blocks; the parser takes two more than the length of the source, since a token takes a character;
-- the search takes one more than the jump targets of the function, since a target enters the
-- worklist once. Decimal digits take as much fuel as the number.
--
-- Not modelled: the demo, compile-time parsing, which only passes a string literal to the parser,
-- and the compatibility layer of stand-ins for the standard library. A client that changes the
-- diagnostics of a program through its reference is not among the sessions. Identifiers and
-- counters of std::uint32_t and std::size_t are plain natural numbers, except where the source's
-- arithmetic is on values of the simulated program or on the digits of a register: no theorem
-- covers a program of 2 ^ 32 values. Memory allocation always succeeds. Integer overflow, division
-- by zero and conversions out of range that C++ leaves undefined are results without a value.
pub mod Prelude
pub mod Support
pub mod Ir
pub mod Text
pub mod Machine
pub mod Sim
pub mod Optimizer
pub mod Dsl
pub mod Lowering
pub mod Parse
pub mod Analysis
pub mod Codegen
pub mod Driver
pub mod Examples
