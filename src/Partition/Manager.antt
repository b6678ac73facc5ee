-- ===== src/Partition/Manager.antt =====
-- crates/storage/src/partition_manager.rs: the operations of PartitionManager. One that may fail
-- returns the manager beside its answer.
use lite_vision.Prelude.{
  ℕ, not, ◌&&◌, Option, none, some, List, [], ◌∷◌, ◌++◌, length, if◌then◌else◌, le_bytes, bytes32,
  Result, ok, err,
}
use lite_vision.Ord.{nat_ord}
use lite_vision.OrdMap.{Map, lookup, insert, contains_key}
use lite_vision.Partition.{
  Partition, PartitionStatus, pending, active, migrating, frozen, deleted, PartitionManager,
  PartitionError, partition_exists, partition_not_found, invalid_state_transition,
  insufficient_signatures, PartitionCreate, PartitionMigration, PartitionDelete, PartitionRebalance,
  create_op, migrate_op, delete_op, rebalance_op, partition_new, activate, freeze, mark_migrating,
  delete, same_status,
}
use lite_vision.Partition.Signatures.{Ed25519, verify_signatures}

abbrev pub Outcome : Type 0 → Type 0
Outcome A = PartitionManager × Result PartitionError A

unfoldable pub new : PartitionManager
new = record { partitions = []; pending_operations = []; global_state_root = 0; current_epoch = 0 }

-- the bytes that update_global_state_root feeds to the hasher
unfoldable pub root_bytes : Map ℕ Partition → List ℕ
root_bytes [] = []
root_bytes ((id, p) ∷ m) =
    let rest = root_bytes m in
    if not (same_status p.status deleted)
    then le_bytes 4 id ++ bytes32 p.state_root ++ rest
    else rest

-- `if let Some(target) = self.partitions.get_mut(&target_id) { ... }`
abbrev pub adopt : ℕ → ℕ → Option Partition → Map ℕ Partition → Map ℕ Partition
adopt target_id root none m = m
adopt target_id root (some target) m =
    if same_status target.status active
    then insert target_id (record target { state_root = root }) m
    else m

unfoldable pub migrate_partition :
    ℕ → ℕ → PartitionMigration → PartitionManager → Outcome (Unit {0})
migrate_partition source_id target_id migration self = elim (lookup source_id self.partitions) [
  | none ↦ (self, err partition_not_found)
  | some source ↦
      if not (same_status source.status active)
      then (self, err invalid_state_transition)
      else let marked = insert source_id (mark_migrating source) self.partitions in
        (
          record self {
            partitions =
                adopt target_id migration.proof.target_state_root (lookup target_id marked) marked;
            pending_operations = self.pending_operations ++ migrate_op migration ∷ [];
          },
          ok tt,
        )
]

unfoldable pub rebalance_partition : PartitionRebalance → PartitionManager → Outcome (Unit {0})
rebalance_partition rebalance self = elim (lookup rebalance.partition_id self.partitions) [
  | none ↦ (self, err partition_not_found)
  | some partition ↦
      if not (same_status partition.status active) then (self, err invalid_state_transition) else (
        record self {
          partitions =
              insert rebalance.partition_id
                (record partition {
                  validator_subset = some rebalance.new_validator_subset;
                  epoch = rebalance.epoch;
                })
                self.partitions;
          pending_operations = self.pending_operations ++ rebalance_op rebalance ∷ [];
        },
        ok tt,
      )
]

unfoldable pub filter_status : PartitionStatus → Map ℕ Partition → List Partition
filter_status status [] = []
filter_status status ((id, p) ∷ m) =
    let rest = filter_status status m in if same_status p.status status then p ∷ rest else rest

unfoldable pub get_partition : ℕ → PartitionManager → Option Partition
get_partition id self = lookup id self.partitions

unfoldable pub get_active_partitions : PartitionManager → List Partition
get_active_partitions self = filter_status active self.partitions

unfoldable pub get_partitions_by_status : PartitionStatus → PartitionManager → List Partition
get_partitions_by_status status self = filter_status status self.partitions

unfoldable pub get_partition_count : PartitionManager → ℕ
get_partition_count self = length self.partitions

unfoldable pub get_active_count : PartitionManager → ℕ
get_active_count self = length (get_active_partitions self)

unfoldable pub advance_epoch : ℕ → PartitionManager → PartitionManager
advance_epoch new_epoch self = record self { current_epoch = new_epoch }

module _ (blake3 : List ℕ → ℕ) where
  unfoldable pub update_global_state_root : PartitionManager → PartitionManager
  update_global_state_root self = record self {
    global_state_root = blake3 (root_bytes self.partitions);
  }

  unfoldable pub activate_partition : ℕ → ℕ → PartitionManager → Outcome (Unit {0})
  activate_partition id epoch self = elim (lookup id self.partitions) [
    | none ↦ (self, err partition_not_found)
    | some partition ↦
        if not (same_status partition.status pending)
        then (self, err invalid_state_transition)
        else (
          update_global_state_root (record self {
            partitions = insert id (activate epoch partition) self.partitions;
            current_epoch = epoch;
          }),
          ok tt,
        )
  ]

  unfoldable pub complete_migration : ℕ → ℕ → PartitionManager → Outcome (Unit {0})
  complete_migration id epoch self = elim (lookup id self.partitions) [
    | none ↦ (self, err partition_not_found)
    | some partition ↦
        if not (same_status partition.status migrating)
        then (self, err invalid_state_transition)
        else (
          update_global_state_root (record self {
            partitions = insert id (activate epoch partition) self.partitions;
            current_epoch = epoch;
          }),
          ok tt,
        )
  ]

  unfoldable pub delete_partition : PartitionDelete → PartitionManager → Outcome (Unit {0})
  delete_partition request self = elim (lookup request.partition_id self.partitions) [
    | none ↦ (self, err partition_not_found)
    | some partition ↦
        if not (same_status partition.status frozen) && not (same_status partition.status active)
        then (self, err invalid_state_transition)
        else (
          update_global_state_root (record self {
            partitions = insert request.partition_id (delete partition) self.partitions;
            pending_operations = self.pending_operations ++ delete_op request ∷ [];
          }),
          ok tt,
        )
  ]

  unfoldable pub freeze_partition : ℕ → PartitionManager → Outcome (Unit {0})
  freeze_partition id self = elim (lookup id self.partitions) [
    | none ↦ (self, err partition_not_found)
    | some partition ↦
        if not (same_status partition.status active)
        then (self, err invalid_state_transition)
        else (
          update_global_state_root
              (record self { partitions = insert id (freeze partition) self.partitions }),
          ok tt,
        )
  ]

  unfoldable pub create_partition :
      Ed25519 → PartitionCreate → List ℕ → PartitionManager → Outcome Partition
  create_partition e create validators self =
      let partition = partition_new create.new_partition_id self.current_epoch in
      if contains_key create.new_partition_id self.partitions
      then (self, err partition_exists)
      else if not (verify_signatures e blake3 validators create)
      then (self, err insufficient_signatures)
      else (
        record self {
          partitions = insert create.new_partition_id partition self.partitions;
          pending_operations = self.pending_operations ++ create_op create ∷ [];
        },
        ok partition,
      )
