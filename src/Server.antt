-- ===== src/Server.antt =====
-- The server (server/src): its limiters, and the stores that its statements read and write.
pub mod Attempts
pub mod Rate
pub mod Store
pub mod Retention
pub mod Remove
pub mod Collector
pub mod Holdings
pub mod Quota
pub mod Ancestry
pub mod Refusal
pub mod Tx
pub mod Replica
pub mod Propagate
pub mod Material
pub mod Nodes
pub mod Delta
pub mod History
mod Tests
mod StoreTests
mod WriteTests
mod PassTests
mod DeltaTests
mod HistoryTests
