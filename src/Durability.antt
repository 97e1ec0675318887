-- ===== src/Durability.antt =====
-- The writer and the recovery together: what `writeBatch` of cache/wal.go leaves in the directory, as
-- `recoverLog` of cache/recovery.go finds it.
pub mod Segments
pub mod Left
pub mod Rounds
pub mod Reopened
mod Runs
