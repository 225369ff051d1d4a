-- ===== src/Transaction.antt =====
-- pkg/transaction: the buffer of a transaction's writes.
pub mod Buffer
pub mod BufferIterator
pub mod Writes
pub mod Lifecycle
pub mod Commit
pub mod Accounting
pub mod Releases
pub mod Beginning
pub mod Isolation
pub mod Stages
pub mod Interleaving
mod Wholes
pub mod Batches
pub mod Atomicity
pub mod RollingBack
mod Sorting
mod Sessions
mod Tests
