-- ===== src/Memtable.antt =====
-- pkg/memtable: the skip list, the tables over it, and recovery.
pub mod SkipList
pub mod Entries
pub mod Chains
pub mod Descent
pub mod Layout
pub mod Linking
pub mod Lookup
pub mod Table
pub mod Newest
pub mod Views
pub mod Writes
pub mod Recovery
pub mod Pool
pub mod Pools
pub mod PoolGet
pub mod Rebuilding
pub mod Durability
pub mod Iterator
pub mod Walking
mod Tests
