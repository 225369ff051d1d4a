-- ===== src/Locks.antt =====
-- pkg/locks: the detection of deadlocks and the tables of the locks.
pub mod Deadlocks
pub mod Cycles
pub mod Victims
pub mod Maps
pub mod Table
pub mod Consistency
pub mod Releasing
pub mod Exclusion
pub mod Holding
pub mod TimeOut
mod Tests
mod TableTests
