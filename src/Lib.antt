-- ===== src/Lib.antt =====
-- Verification of Lite-Vision: the replicated data types of its store, the partitions of the store,
-- the canonical byte encoding and the deterministic generator; of the truth layer, the staking of
-- validators, the consensus round, the settlement, the ledger, the messages between partitions,
-- pruning, governance and state sync; of the intelligence layer, jobs and disputes.
--
-- The parts and the files. Each operation keeps the name it has in Rust, in the module of its part; a
-- method with `&mut self` takes the state last and returns the new one, beside its answer where it
-- may fail (Prelude/Results).
-- - crates/storage/src/crdt.rs is Crdt: OperationId, VersionVector, GCounter (with PNCounter),
--   LwwRegister, OrSet, Graph (CRDTGraph) and AntiEntropy (with merge_or_map). The sets and the graph
--   stand on operation numbers and ordered maps, anti-entropy on the version vector.
-- - crates/storage/src/partition_manager.rs is Partition: Signatures (verify_signatures and
--   MigrationProof::verify) and Manager (PartitionManager), whose creation asks Signatures.
-- - crates/truth/src/validator_set.rs is ValidatorSet: the records, and Operations (the methods of
--   its ValidatorSet: registration, unbonding, jail, slashing, delegation, quorum).
-- - crates/truth/src/consensus.rs is Consensus: votes, certificates and the state, and Engine (the
--   methods of ConsensusEngine). It takes its validators from crates/truth/src/validator.rs,
--   the Validator of which is in Validator, and the ValidatorSet in Validator/Set.
-- - crates/truth/src/settlement.rs is Settlement: Escrow, Registry (operators and the index of
--   stakes), Receipts (receipts, artifacts, slashing conditions) and State (SettlementState, which
--   holds them all). Its errors are of crates/truth/src/state.rs.
-- - crates/truth/src/state.rs and transaction.rs are Ledger: the State (LedgerState), which holds the
--   SettlementState; Transaction (the types, the checks and the `new_` functions); and Apply
--   (apply_transaction, its handlers, which call the operations of Settlement, and
--   apply_block_transactions).
-- - crates/truth/src/cross_partition.rs is CrossPartition: the roots, the messages and their proofs
--   and both registries; and Manager (its PartitionManager, another than that of the store). Calls are
--   values in Replay.
-- - crates/truth/src/block.rs is Block, and crates/truth/src/sync.rs is Sync (StateSync, LightState).
-- - crates/truth/src/pruning.rs is Pruning (StatePruner), and crates/truth/src/governance.rs is
--   Governance, where `none` is a panic.
-- - crates/core/src/canonical.rs is Codec: ByteWriter and ByteReader.
-- - crates/core/src/deterministic.rs is Deterministic: DeterministicRng, where `none` is a panic, and
--   LogicalTime.
-- - crates/intelligence/src/dispute.rs is Dispute: the records, and Engine (DisputeEngine). Calls has
--   the calls as values and the moves of the life cycle that each may make.
-- - crates/intelligence/src/job.rs is Job: tickets, budgets and the life of one job; and Executor
--   (JobExecutor with JobExecutorInner; JobExecutor::submit_job is submit_ticket), with the Receipt of
--   crates/intelligence/src/receipts.rs.
-- - Prelude has the names that all share, Ord an order as an interface, and OrdMap the maps. Other
--   children of a part hold proofs and are named for what they prove; each Tests has test cases of
--   the sources and the theorems at concrete states.
--
-- Readings. Integers are natural numbers; u64 and u32 wrap around where the release build does, by
-- add_u64 and its like in Prelude/Words, and `saturating_sub` stops at 0. Arrays `[u8; 32]`, ids and
-- hashes, are numbers, big-endian where their bytes matter. BTreeMap and BTreeSet are lists in
-- ascending order of the keys (OrdMap), and so is each HashMap; no theorem depends on the order in
-- which a HashMap is iterated. A lock that a method holds is a state that it takes and returns;
-- receive_prevote and receive_precommit read the height and the round under earlier locks, and their
-- `_at` forms take those states apart. The loops of write_varint and read_varint have a fuel of ten
-- rounds, which is enough for 64 bits in groups of 7; all others recur on a list. Parameters stand for
-- the crates blake3, bincode and ed25519-dalek, the system clock, the equality and order of elements,
-- and the agent that a caller hands to a synchronisation. Hypotheses on hashes (ids of disputes of
-- different jobs differ, no two pairs have one hash) stand among the binders of the theorems that use
-- them.
--
-- Left out: bincode encodings of whole values and what hashes them (Block::hash is a parameter of
-- Sync), floating-point numbers (uptime, slash factors, commissions, rates of verification), texts
-- of errors, plain getters; of consensus.rs, propose_block and finalize_block; of validator.rs,
-- rewards and the hash of its set; of job.rs, the kernel executor, the kernel registry and the
-- verification engine; of canonical.rs, signed integers. Nor are modelled: routing, verification
-- of results; input and output (network, RPC, storage, SDK, command line), logging and metrics,
-- rendering and scene files.
pub mod Prelude
pub mod Ord
pub mod OrdMap
pub mod Crdt
pub mod ValidatorSet
pub mod Settlement
pub mod Validator
pub mod Consensus
pub mod Partition
pub mod Ledger
pub mod Block
pub mod Sync
pub mod Codec
pub mod Dispute
pub mod Job
pub mod Deterministic
pub mod CrossPartition
pub mod Pruning
pub mod Governance
