-- ===== src/Checkpoint.antt =====
-- internal/checkpoint/checkpoint.go: snapshots of files that a rollback restores.
pub mod Disk
pub mod Save
pub mod Restore
mod Tests
