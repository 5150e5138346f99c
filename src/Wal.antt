-- ===== src/Wal.antt =====
-- internal/storage/wal: the write-ahead log.
pub mod Record
pub mod Replay
mod Runs
