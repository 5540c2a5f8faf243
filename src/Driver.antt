-- ===== src/Driver.antt =====
-- src/driver/ConsolePresenter.cpp and src/dsl/Program.cpp: what the user calls and sees.
pub mod Format
pub mod Console
pub mod Program
pub mod Requests
pub mod Templates
pub mod BuildCounts
pub mod Sessions
