-- ===== src/Partition.antt =====
-- crates/storage/src/partition_manager.rs: partitions and the requests to change them. Arrays
-- `[u8; 32]` are numbers; the hash blake3 and the signatures of ed25519-dalek are parameters.
pub mod Signatures
pub mod Manager
pub mod Status
pub mod History
pub mod Quorum
mod Tests
use lite_vision.Prelude.{ℕ, Bool, true, false, Option, none, some, List, []}
use lite_vision.OrdMap.{Map}

pub data PartitionStatus : Type 0 where
  pending active migrating frozen deleted : PartitionStatus

pub record Partition : Type 0 where
  pub partition_id : ℕ
  pub state_root : ℕ
  pub validator_subset : Option (List ℕ)
  pub regional_memory_root : Option ℕ
  pub status : PartitionStatus
  pub created_at : ℕ
  pub epoch : ℕ

unfoldable pub partition_new : ℕ → ℕ → Partition
partition_new partition_id created_at = record {
  partition_id = partition_id;
  state_root = 0;
  validator_subset = none;
  regional_memory_root = none;
  status = pending;
  created_at = created_at;
  epoch = 0;
}

unfoldable pub activate : ℕ → Partition → Partition
activate epoch self = record self { status = active; epoch = epoch }

unfoldable pub freeze : Partition → Partition
freeze self = record self { status = frozen }

unfoldable pub mark_migrating : Partition → Partition
mark_migrating self = record self { status = migrating }

unfoldable pub delete : Partition → Partition
delete self = record self { status = deleted }

pub record PartitionCreate : Type 0 where
  pub new_partition_id : ℕ
  pub initial_state_root : ℕ
  pub configuration_hash : ℕ
  pub governance_proposal_id : ℕ
  pub signatures : List (ℕ × List ℕ)

pub record MigrationProof : Type 0 where
  pub source_state_root : ℕ
  pub target_state_root : ℕ
  pub migration_merkle_root : ℕ
  pub validator_signatures : List (ℕ × List ℕ)

pub record PartitionMigration : Type 0 where
  pub source_partition_id : ℕ
  pub target_partition_id : ℕ
  pub migration_key : ℕ
  pub keys : List ℕ
  pub proof : MigrationProof
  pub epoch : ℕ

pub record PartitionDelete : Type 0 where
  pub partition_id : ℕ
  pub final_state_root : ℕ
  pub tombstone_root : ℕ
  pub governance_proposal_id : ℕ
  pub epoch : ℕ

pub data RebalanceReason : Type 0 where
  load locality cost validator_change governance : RebalanceReason

pub record PartitionRebalance : Type 0 where
  pub partition_id : ℕ
  pub new_validator_subset : List ℕ
  pub reason : RebalanceReason
  pub epoch : ℕ

pub data PartitionOperation : Type 0 where
  create_op : PartitionCreate → PartitionOperation
  migrate_op : PartitionMigration → PartitionOperation
  delete_op : PartitionDelete → PartitionOperation
  rebalance_op : PartitionRebalance → PartitionOperation

pub record PartitionManager : Type 0 where
  pub partitions : Map ℕ Partition
  pub pending_operations : List PartitionOperation
  pub global_state_root : ℕ
  pub current_epoch : ℕ

pub data PartitionError : Type 0 where
  partition_exists partition_not_found invalid_state_transition : PartitionError
  insufficient_signatures migration_in_progress data_loss : PartitionError

-- `==` of statuses
abbrev pub same_status : PartitionStatus → PartitionStatus → Bool
same_status pending pending = true
same_status active active = true
same_status migrating migrating = true
same_status frozen frozen = true
same_status deleted deleted = true
same_status _ _ = false
