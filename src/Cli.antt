-- ===== src/Cli.antt =====
-- internal/cli: the publication of the outputs and the exit codes.
pub mod Disk
pub mod Publish
pub mod Session
pub mod Exit
mod Tests
