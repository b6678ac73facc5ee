-- ===== src/CrossPartition/Manager.antt =====
-- crates/truth/src/cross_partition.rs: PartitionManager. A call that may fail returns the manager
-- beside its answer.
use lite_vision.Prelude.{
  ℕ, ◌==◌, Option, none, some, List, [], ◌∷◌, ltb, if◌then◌else◌, Result, ok, err,
}
use lite_vision.Ord.{nat_ord}
use lite_vision.OrdMap.{Map, lookup, insert, remove}
use lite_vision.CrossPartition.{
  GlobalStateRoot, root_new, update_partition, CrossPartitionMessage, CrossPartitionProof,
  CrossPartitionError, message_already_consumed, source_height_too_old, verify,
  ConsumedMessageRegistry, consumed_new, mark_consumed, is_consumed, prune, ArtifactCommit,
  ReceiptEntry, ReceiptRegistry, ReceiptError, receipts_new, register_receipt,
}

pub record Partition : Type 0 where
  pub id : ℕ
  pub merkle_root : ℕ
  pub block_height : ℕ
  pub validators : List ℕ

unfoldable pub partition_new : ℕ → Partition
partition_new id = record { id = id; merkle_root = 0; block_height = 0; validators = [] }

pub record PartitionManager : Type 0 where
  pub partitions : Map ℕ Partition
  pub global_state_root : GlobalStateRoot
  pub message_registry : ConsumedMessageRegistry
  pub receipt_registry : ReceiptRegistry

unfoldable pub new : PartitionManager
new = record {
  partitions = [];
  global_state_root = root_new;
  message_registry = consumed_new;
  receipt_registry = receipts_new;
}

unfoldable pub add_partition : ℕ → PartitionManager → PartitionManager
add_partition id self = record self {
  partitions = insert id (partition_new id) self.partitions;
  global_state_root = update_partition id 0 self.global_state_root;
}

unfoldable pub remove_partition : ℕ → PartitionManager → PartitionManager × Option Partition
remove_partition id self =
    let root = self.global_state_root in
    (
      record self {
        partitions = remove id self.partitions;
        global_state_root = record root { partition_roots = remove id root.partition_roots };
      },
      lookup id self.partitions,
    )

-- `if let Some(partition) = self.partitions.get_mut(id) { partition.merkle_root = root; }`
unfoldable pub with_root : ℕ → ℕ → Map ℕ Partition → Map ℕ Partition
with_root id root m = elim (lookup id m) [
  | none ↦ m
  | some p ↦ insert id (record p { merkle_root = root }) m
]

unfoldable pub update_partition_root : ℕ → ℕ → PartitionManager → PartitionManager
update_partition_root id root self = record self {
  partitions = with_root id root self.partitions;
  global_state_root = update_partition id root self.global_state_root;
}

unfoldable pub process_cross_partition_message :
    (hash_pair : ℕ → ℕ → ℕ)
    → CrossPartitionMessage
    → CrossPartitionProof
    → PartitionManager
    → PartitionManager × Result CrossPartitionError (Unit {0})
process_cross_partition_message hash_pair message proof self =
    if is_consumed message.message_id self.message_registry
    then (self, err message_already_consumed)
    else if ltb message.source_block_height self.message_registry.min_valid_height
    then (self, err source_height_too_old)
    else elim (verify hash_pair self.global_state_root message proof) [
      | err e ↦ (self, err e)
      | ok _ ↦ (
        record self { message_registry = mark_consumed message.message_id self.message_registry },
        ok tt,
      )
    ]

unfoldable pub commit_artifact :
    ArtifactCommit → PartitionManager → PartitionManager × Result ReceiptError (Unit {0})
commit_artifact commit self =
    let done = register_receipt commit self.receipt_registry in
    (record self { receipt_registry = done.0 }, done.1)

-- `.iter().find(|((j, _), _)| j == job_id)`; which of several a HashMap yields is not determined
unfoldable pub find_of_job : ℕ → Map (ℕ × ℕ) ReceiptEntry → Option (ℕ × ℕ)
find_of_job job_id [] = none
find_of_job job_id (((j, _), entry) ∷ m) =
    let rest = find_of_job job_id m in
    if j == job_id then some (entry.output_hash, entry.operator_id) else rest

unfoldable pub verify_artifact : ℕ → PartitionManager → Option (ℕ × ℕ)
verify_artifact job_id self = find_of_job job_id self.receipt_registry.receipts

unfoldable pub prune_messages : ℕ → PartitionManager → PartitionManager
prune_messages current_height self = record self {
  message_registry = prune current_height 10000 self.message_registry;
}
