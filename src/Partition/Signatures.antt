-- ===== src/Partition/Signatures.antt =====
-- crates/storage/src/partition_manager.rs: PartitionCreate::verify_signatures and
-- MigrationProof::verify. The crate ed25519-dalek is a parameter: the length of a signature, the
-- two parsers and the check of a signature. So is blake3, on the bytes it is fed in order.
use lite_vision.Prelude.{
  ℕ, suc, ◌*◌, ◌/◌, Bool, true, false, not, ◌||◌, Option, none, some, List, [], ◌∷◌, ◌++◌, length,
  leb, ltb, ◌==◌, if◌then◌else◌, le_bytes, bytes32,
}
use lite_vision.Partition.{PartitionCreate, MigrationProof}

-- ed25519-dalek, as the code calls it
pub record Ed25519 : Type 1 where
  pub Signature : Type 0
  pub VerifyingKey : Type 0
  pub signature_length : ℕ
  pub from_slice : List ℕ → Option Signature
  pub from_bytes : ℕ → Option VerifyingKey
  pub is_verified : VerifyingKey → ℕ → Signature → Bool

abbrev pub contains : ℕ → List ℕ → Bool
contains k [] = false
contains k (j ∷ ks) = j == k || contains k ks

module _ (e : Ed25519) where
  abbrev pub verify_parsed : ℕ → Option e.Signature → Option e.VerifyingKey → Bool
  verify_parsed message none key = false
  verify_parsed message (some signature) none = false
  verify_parsed message (some signature) (some key) = e.is_verified key message signature

  -- the checks that both loops make of a signature, from its length on
  unfoldable pub verify_one : ℕ → ℕ → List ℕ → Bool
  verify_one message key signature =
      if not (length signature == e.signature_length)
      then false
      else verify_parsed message (e.from_slice signature) (e.from_bytes key)

  -- `verified_count` after the loop
  unfoldable pub count_verified : ℕ → List ℕ → List (ℕ × List ℕ) → ℕ
  count_verified message validators [] = 0
  count_verified message validators ((key, signature) ∷ rest) =
      let count = count_verified message validators rest in
      if not (contains key validators)
      then count
      else if verify_one message key signature
      then suc count
      else count

  unfoldable pub all_verified : ℕ → List (ℕ × List ℕ) → Bool
  all_verified message [] = true
  all_verified message ((key, signature) ∷ rest) =
      let others = all_verified message rest in
      if verify_one message key signature then others else false

  module _ (blake3 : List ℕ → ℕ) where
    unfoldable pub message_to_sign : PartitionCreate → ℕ
    message_to_sign self = blake3 (
        le_bytes 4 self.new_partition_id
        ++ bytes32 self.initial_state_root
        ++ bytes32 self.configuration_hash
        ++ bytes32 self.governance_proposal_id)

    unfoldable pub verify_signatures : List ℕ → PartitionCreate → Bool
    verify_signatures validators self =
        let quorum_required = length validators * 2 / 3 in
        if ltb (length self.signatures) quorum_required
        then false
        else leb quorum_required (count_verified (message_to_sign self) validators self.signatures)

    unfoldable pub migration_message : MigrationProof → ℕ
    migration_message self = blake3 (
        bytes32 self.source_state_root
        ++ bytes32 self.target_state_root
        ++ bytes32 self.migration_merkle_root)

    unfoldable pub verify : MigrationProof → Bool
    verify self = elim self.validator_signatures [
      | [] ↦ false
      | ◌∷◌ _ _ ↦ all_verified (migration_message self) self.validator_signatures
    ]
