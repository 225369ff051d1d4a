-- ===== src/Bloom.antt =====
-- pkg/bloom_filter: the filter, its bits, and its file.
pub mod Filter
pub mod Bits
pub mod Membership
pub mod Files
mod Tests
