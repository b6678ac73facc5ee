-- ===== src/Crdt.antt =====
-- crates/storage/src/crdt.rs: the replicated data types of the regional memory.
pub mod OperationId
pub mod VersionVector
pub mod GCounter
pub mod LwwRegister
pub mod OrSet
pub mod Graph
pub mod AntiEntropy
mod Tests
