-- ===== src/Wal.antt =====
-- pkg/wal: the write-ahead log, its reader, its batches and its replay.
pub mod Types
pub mod Exec
pub mod Device
pub mod Batch
pub mod Codec
pub mod Write
pub mod Log
pub mod Parse
pub mod Reader
pub mod Replay
pub mod Frames
pub mod Writing
pub mod Parsing
pub mod Reading
pub mod Appending
pub mod Delivery
pub mod Durability
pub mod TornWrite
pub mod BatchLoss
pub mod Batches
pub mod Guards
pub mod Sanity
pub mod Keeping
pub mod Progress
mod Tests
