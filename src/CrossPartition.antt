-- ===== src/CrossPartition.antt =====
-- crates/truth/src/cross_partition.rs: the roots, the messages and their proofs, and the registries.
-- Partition ids are numbers; hashes are big-endian numbers, so that `<` on arrays is that of numbers.
pub mod Manager
pub mod Merkle
pub mod Receipts
pub mod Roots
pub mod Replay
mod Tests
use lite_vision.Prelude.{
  ℕ, ◌-◌, ◌==◌, Bool, true, false, not, ◌||◌, Option, none, some, List, [], ◌∷◌, ◌++◌, ltb,
  if◌then◌else◌, get_or, le_bytes, bytes32, Result, ok, err,
}
use lite_vision.Ord.{nat_ord, pair_ord}
use lite_vision.OrdMap.{Map, KeySet, lookup, insert, contains_key, member, add_key}

pub record GlobalStateRoot : Type 0 where
  pub partition_roots : Map ℕ ℕ
  pub version : ℕ

unfoldable pub root_new : GlobalStateRoot
root_new = record { partition_roots = []; version = 0 }

unfoldable pub update_partition : ℕ → ℕ → GlobalStateRoot → GlobalStateRoot
update_partition id root self = record self {
  partition_roots = insert id root self.partition_roots;
}

unfoldable pub get_partition_root : ℕ → GlobalStateRoot → Option ℕ
get_partition_root id self = lookup id self.partition_roots

-- what the loop over the sorted keys feeds to the hasher
unfoldable pub root_bytes : Map ℕ ℕ → List ℕ
root_bytes [] = []
root_bytes ((id, root) ∷ m) = le_bytes 4 id ++ bytes32 root ++ root_bytes m

-- `hash` is blake3
unfoldable pub root_hash : (hash : List ℕ → ℕ) → GlobalStateRoot → ℕ
root_hash hash self = hash (le_bytes 4 self.version ++ root_bytes self.partition_roots)

pub record CrossPartitionMessage : Type 0 where
  pub message_id : ℕ
  pub source_partition_id : ℕ
  pub target_partition_id : ℕ
  pub source_block_height : ℕ
  pub payload_hash : ℕ
  pub nonce : ℕ

unfoldable pub message_new : (hash : List ℕ → ℕ) → ℕ → ℕ → ℕ → ℕ → ℕ → CrossPartitionMessage
message_new hash source target source_height payload_hash nonce = record {
  message_id = hash (
      le_bytes 4 source
      ++ le_bytes 4 target
      ++ le_bytes 8 source_height
      ++ bytes32 payload_hash
      ++ le_bytes 8 nonce);
  source_partition_id = source;
  target_partition_id = target;
  source_block_height = source_height;
  payload_hash = payload_hash;
  nonce = nonce;
}

pub record CrossPartitionProof : Type 0 where
  pub source_block_hash : ℕ
  pub source_partition_root : ℕ
  pub merkle_proof : List ℕ
  pub partition_inclusion_proof : List ℕ
  pub qc_validator_count : ℕ
  pub qc_signatures : List (ℕ × List ℕ)

pub data CrossPartitionError : Type 0 where
  invalid_qc qc_verification_failed partition_root_mismatch partition_not_found :
      CrossPartitionError
  merkle_proof_invalid message_already_consumed source_height_too_old : CrossPartitionError

-- One round of verify_merkle_proof: the smaller hash goes first. `hash_pair a b` is blake3 of the 64
-- bytes of the two.
unfoldable pub combine : (hash_pair : ℕ → ℕ → ℕ) → ℕ → ℕ → ℕ
combine hash_pair current element =
    if ltb current element then hash_pair current element else hash_pair element current

unfoldable pub climb : (hash_pair : ℕ → ℕ → ℕ) → ℕ → List ℕ → ℕ
climb hash_pair current [] = current
climb hash_pair current (element ∷ proof) =
    climb hash_pair (combine hash_pair current element) proof

unfoldable pub verify_merkle_proof : (hash_pair : ℕ → ℕ → ℕ) → ℕ → CrossPartitionProof → Bool
verify_merkle_proof hash_pair leaf self =
    climb hash_pair leaf self.merkle_proof == self.source_partition_root

unfoldable pub verify :
    (hash_pair : ℕ → ℕ → ℕ)
    → GlobalStateRoot
    → CrossPartitionMessage
    → CrossPartitionProof
    → Result CrossPartitionError (Unit {0})
verify hash_pair roots message self = elim (get_partition_root message.source_partition_id roots) [
  | none ↦ err partition_not_found
  | some expected ↦
      if not (self.source_partition_root == expected)
      then err partition_root_mismatch
      else if not (verify_merkle_proof hash_pair message.payload_hash self)
      then err merkle_proof_invalid
      else if ltb self.qc_validator_count 2
      then err invalid_qc
      else ok tt
]

pub record ConsumedMessageRegistry : Type 0 where
  pub consumed : KeySet ℕ
  pub min_valid_height : ℕ

unfoldable pub consumed_new : ConsumedMessageRegistry
consumed_new = record { consumed = []; min_valid_height = 0 }

unfoldable pub mark_consumed : ℕ → ConsumedMessageRegistry → ConsumedMessageRegistry
mark_consumed message_id self = record self { consumed = add_key message_id self.consumed }

unfoldable pub is_consumed : ℕ → ConsumedMessageRegistry → Bool
is_consumed message_id self = member message_id self.consumed

unfoldable pub prune : ℕ → ℕ → ConsumedMessageRegistry → ConsumedMessageRegistry
prune current_height window self = record self { min_valid_height = current_height - window }

pub record ArtifactCommit : Type 0 where
  pub operator_id : ℕ
  pub job_id : ℕ
  pub input_hash : ℕ
  pub output_hash : ℕ
  pub resource_hash : ℕ
  pub receipt_signature : List ℕ
  pub execution_nonce : ℕ
  pub block_height : ℕ

unfoldable pub commit_new : ℕ → ℕ → ℕ → ℕ → ℕ → ℕ → ArtifactCommit
commit_new operator_id job_id input_hash output_hash resource_hash execution_nonce = record {
  operator_id = operator_id;
  job_id = job_id;
  input_hash = input_hash;
  output_hash = output_hash;
  resource_hash = resource_hash;
  receipt_signature = [];
  execution_nonce = execution_nonce;
  block_height = 0;
}

pub record ReceiptEntry : Type 0 where
  pub output_hash : ℕ
  pub operator_id : ℕ
  pub block_height : ℕ

pub record ReceiptRegistry : Type 0 where
  pub receipts : Map (ℕ × ℕ) ReceiptEntry
  pub execution_nonces : Map (ℕ × ℕ) (KeySet ℕ)

pub data ReceiptError : Type 0 where
  duplicate_receipt nonce_reused job_closed : ReceiptError

unfoldable pub receipts_new : ReceiptRegistry
receipts_new = record { receipts = []; execution_nonces = [] }

-- A set of nonces that was not there is made before the nonce is looked for.
unfoldable pub register_receipt :
    ArtifactCommit → ReceiptRegistry → ReceiptRegistry × Result ReceiptError (Unit {0})
register_receipt commit self =
    let key : ℕ × ℕ = (commit.job_id, commit.operator_id) in
    let nonces = get_or (lookup key self.execution_nonces) [] in
    let entry : ReceiptEntry = record {
      output_hash = commit.output_hash;
      operator_id = commit.operator_id;
      block_height = commit.block_height;
    } in
    if contains_key key self.receipts
    then (self, err duplicate_receipt)
    else if member commit.execution_nonce nonces
    then (
      record self { execution_nonces = insert key nonces self.execution_nonces },
      err nonce_reused,
    )
    else (
      record {
        receipts = insert key entry self.receipts;
        execution_nonces = insert key (add_key commit.execution_nonce nonces) self.execution_nonces;
      },
      ok tt,
    )

unfoldable pub get_receipt : ℕ → ℕ → ReceiptRegistry → Option ReceiptEntry
get_receipt job_id operator_id self = lookup (job_id, operator_id) self.receipts

-- `.keys().any(|(j, _)| j == job_id)`
unfoldable pub any_of_job : ℕ → Map (ℕ × ℕ) ReceiptEntry → Bool
any_of_job job_id [] = false
any_of_job job_id (((j, _), _) ∷ m) = (j == job_id) || any_of_job job_id m

unfoldable pub has_receipt_for_job : ℕ → ReceiptRegistry → Bool
has_receipt_for_job job_id self = any_of_job job_id self.receipts
