-- ===== src/Wal.antt =====
-- The write-ahead log, src/storage/wal.c.
pub mod Entry
pub mod Parse
pub mod Log
pub mod Replay
pub mod Contents
pub mod Append
pub mod Recovery
