-- ===== src/Cli.antt =====
-- The shell of kernel/src/cli.rs: its commands, and the line that is typed.
pub mod Text
pub mod Output
pub mod Calc
pub mod Commands
pub mod Line
mod Tests
