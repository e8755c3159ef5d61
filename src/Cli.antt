-- ===== src/Cli.antt =====
-- The command line: cpptools/cli.
pub mod Sequence
pub mod Arguments
pub mod Input
pub mod Menu
pub mod TextMap
pub mod Shell
mod Tests
