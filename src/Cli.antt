-- ===== src/Cli.antt =====
-- The command line of crates/cli/src: the configuration, the commands and the checks.
pub mod Config
pub mod Commands
pub mod Doctor
pub mod Clip
mod Tests
