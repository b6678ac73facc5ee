-- ===== src/Partition/Tests.antt =====
-- crates/storage/src/partition_manager.rs: the theorems at concrete managers.
use lite_vision.Prelude.{ℕ, ◌≡◌, some, List, [], ◌∷◌, length, leb}
use lite_vision.Ord.{nat_ord}
use lite_vision.Partition.{PartitionManager, PartitionCreate, partition_new, deleted}
use lite_vision.Partition.Signatures.{Ed25519, contains, count_verified, verify_signatures}
use lite_vision.Partition.Manager.{new, activate_partition}
use lite_vision.Partition.Status.{IsMoved}
use lite_vision.Partition.History.{Step-IsMoved}
use lite_vision.Partition.History.Step.{activated}
use lite_vision.Partition.Quorum.{verify_signatures_iff}

-- a toy scheme: a signature is the key, padded to two numbers
abbrev scheme : Ed25519
scheme = record {
  Signature = List ℕ;
  VerifyingKey = ℕ;
  signature_length = 2;
  from_slice = some;
  from_bytes = some;
  is_verified = λ key _ signature. contains key signature;
}

abbrev hash : List ℕ → ℕ
hash bytes = length bytes

abbrev request : List (ℕ × List ℕ) → PartitionCreate
request signatures = record {
  new_partition_id = 1;
  initial_state_root = 0;
  configuration_hash = 0;
  governance_proposal_id = 0;
  signatures = signatures;
}

abbrev validators : List ℕ
validators = 11 ∷ 12 ∷ 13 ∷ 14 ∷ 15 ∷ 16 ∷ []

verify_signatures_iff_example : verify_signatures scheme hash validators (request []) ≡ leb 4 0
unfolding count_verified
verify_signatures_iff_example = verify_signatures_iff scheme hash (request []) validators

abbrev alive : PartitionManager
alive = record new { partitions = (1, partition_new 1 0) ∷ [] }

Step-IsMoved_example : IsMoved alive (activate_partition hash 1 3 alive).0
Step-IsMoved_example = Step-IsMoved hash (activated 1 3 alive)

abbrev gone : PartitionManager
gone = record new { partitions = (1, record (partition_new 1 0) { status = deleted }) ∷ [] }
