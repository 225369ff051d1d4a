-- ===== src/Compaction.antt =====
-- pkg/compaction: which deletions a compaction keeps.
pub mod Tombstones
pub mod Garbage
mod Tests
