-- ===== src/Cli.antt =====
-- src/cli.rs
pub mod Interval
