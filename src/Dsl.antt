-- ===== src/Dsl.antt =====
-- include/asmstudio/dsl and src/dsl: the programs that a client builds.
pub mod Syntax
pub mod Terms
pub mod Builder
pub mod Meaning
pub mod Start
