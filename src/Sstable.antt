-- ===== src/Sstable.antt =====
-- pkg/sstable: the footer of a table's file.
pub mod Footer
pub mod FooterCodec
pub mod Block
pub mod BlockReader
pub mod BlockSeek
pub mod BlockSkips
pub mod BlockCodec
pub mod BlockWalk
pub mod BlockRoundTrip
pub mod BlockFinish
pub mod BlockOpen
pub mod BlockReading
mod BlockTests
mod Tests
