-- ===== src/Cli.antt =====
-- internal/cmd: what the command line is turned into before a verb runs.
pub mod Domains
pub mod WebrootMap
pub mod Sources
mod Tests
