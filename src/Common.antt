-- ===== src/Common.antt =====
-- pkg/common: the retry loop, and iterators with bounds.
pub mod Retry
pub mod Exhaustion
pub mod Iterators
pub mod Bounds
pub mod Hierarchical
pub mod Sources
pub mod Choosing
pub mod Standing
pub mod Merging
mod Tests
mod BoundsTests
mod MergeTests
