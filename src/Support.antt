-- ===== src/Support.antt =====
-- include/asmstudio/support: the shared enumerations, and diagnostics.
pub mod Types
pub mod Diagnostic
