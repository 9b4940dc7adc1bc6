-- ===== src/Proc.antt =====
-- src/proc: processes, their options and their recovery.
pub mod Options
pub mod Info
pub mod Stat
pub mod Query
pub mod Recovery
pub mod Monitor
pub mod Status
pub mod Reset
