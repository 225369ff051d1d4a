-- ===== src/Replication.antt =====
-- pkg/replication: the states of a replica.
pub mod State
pub mod Protocol
pub mod History
mod Tests
