-- ===== src/Parse.antt =====
-- include/asmstudio/parse: the assembly syntax.
pub mod Token
pub mod Lexer
pub mod AsmProgram
pub mod Parser
pub mod Numbers
pub mod Progress
pub mod Arrays
pub mod Ends
