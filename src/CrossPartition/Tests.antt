-- ===== src/CrossPartition/Tests.antt =====
-- Runs of crates/truth/src/cross_partition.rs.
use lite_vision.Prelude.{
  ℕ, suc, ◌+◌, ◌-◌, ◌*◌, ◌∙◌, ◌≤◌, ◌<◌, ◌≡◌, ◌≢◌, refl, ap, true, some, [], ◌∷◌, arith, ok, err,
}
use lite_vision.Ord.{nat_ord, pair_ord}
use lite_vision.OrdMap.{lookup, insert}
use lite_vision.CrossPartition.{
  GlobalStateRoot, get_partition_root, update_partition, root_new, CrossPartitionMessage,
  CrossPartitionProof, message_already_consumed, merkle_proof_invalid, nonce_reused, ReceiptEntry,
  ArtifactCommit, commit_new, get_receipt, receipts_new, combine, climb, verify,
  verify_merkle_proof, register_receipt,
}
use lite_vision.CrossPartition.Manager.{
  PartitionManager, new, add_partition, update_partition_root, process_cross_partition_message,
}
use lite_vision.CrossPartition.Merkle.{
  Tree, leaf, node, root_of, here, left, verify_accepts, IsInjective, verify_merkle_proof_binds,
}
use lite_vision.CrossPartition.Replay.{adds, prunes, run, processed_once}
use lite_vision.CrossPartition.Receipts.{register_all, register_receipt_final}

-- an injective function of two numbers, in the place of the hash
abbrev pair : ℕ → ℕ → ℕ
pair a b = (a + b) * (a + b) + a

larger_square : (s k a c : ℕ) → a ≤ s → s * s + a ≡ (s + suc k) * (s + suc k) + c → ⊥
larger_square s k a c h e = omega arith

pair_sum : (a b c d : ℕ) → a + b < c + d → pair a b ≡ pair c d → ⊥
pair_sum a b c d h e =
    let k = c + d - suc (a + b) in
    let sum : c + d ≡ a + b + suc k = omega arith in
    larger_square (a + b) k a c (omega arith) (e ∙ ap (λ (t : ℕ). t * t + c) sum)

same_sum : (a b c d : ℕ) → pair a b ≡ pair c d → a + b ≡ c + d
same_sum a b c d e = ground (arith, pair_sum a b c d, pair_sum c d a b)

pair-IsInjective : IsInjective pair
pair-IsInjective a b c d e =
    let sum = same_sum a b c d e in
    let square : (a + b) * (a + b) ≡ (c + d) * (c + d) = ap (λ (t : ℕ). t * t) sum in
    (omega arith, omega arith)

abbrev tree : Tree
tree = node (leaf 5) (leaf 9)

abbrev message : CrossPartitionMessage
message = record {
  message_id = 1;
  source_partition_id = 4;
  target_partition_id = 6;
  source_block_height = 30;
  payload_hash = 5;
  nonce = 0;
}

abbrev proof : CrossPartitionProof
proof = record {
  source_block_hash = 0;
  source_partition_root = root_of pair tree;
  merkle_proof = 9 ∷ [];
  partition_inclusion_proof = [];
  qc_validator_count = 2;
  qc_signatures = [];
}

abbrev roots : GlobalStateRoot
roots = update_partition 4 (root_of pair tree) root_new

verify_accepts_example : verify pair roots message proof ≡ ok tt
unfolding get_partition_root update_partition root_new lookup insert lite_vision.Ord.eqb
verify_accepts_example =
    verify_accepts pair tree roots message proof (left (leaf 5) (leaf 9) 5 [] (here 5)) refl refl
      (omega arith)

climbs : verify_merkle_proof pair 5 proof ≡ true
unfolding verify_merkle_proof climb combine
climbs = refl

verify_merkle_proof_binds_example : ◌≡◌ {A = ℕ} 5 5
verify_merkle_proof_binds_example =
    verify_merkle_proof_binds pair 5 5 proof pair-IsInjective climbs climbs

abbrev manager : PartitionManager
manager = update_partition_root 4 (root_of pair tree) (add_partition 4 new)

first_accepted : (process_cross_partition_message pair message proof manager).1 ≡ ok tt
unfolding process_cross_partition_message lite_vision.CrossPartition.is_consumed
    lite_vision.OrdMap.member lookup update_partition_root add_partition new
    lite_vision.CrossPartition.consumed_new verify get_partition_root update_partition insert
    root_new lite_vision.Ord.eqb combine verify_merkle_proof climb
first_accepted = refl

processed_once_example :
    process_cross_partition_message pair message proof (
      run pair
        (prunes 90000 ∷ (adds 7 ∷ []))
        (process_cross_partition_message pair message proof manager).0)
    ≡ (
      run pair
          (prunes 90000 ∷ (adds 7 ∷ []))
          (process_cross_partition_message pair message proof manager).0,
      err message_already_consumed,
    )
processed_once_example =
    processed_once pair message message proof proof (prunes 90000 ∷ (adds 7 ∷ [])) manager
      first_accepted refl

abbrev commit : ArtifactCommit
commit = commit_new 1 2 3 4 5 6

abbrev entry : ReceiptEntry
entry = record { output_hash = 4; operator_id = 1; block_height = 0 }

commit_registered : get_receipt 2 1 (register_all (commit ∷ []) receipts_new) ≡ some entry
unfolding get_receipt register_receipt lookup lite_vision.OrdMap.contains_key receipts_new
    lite_vision.OrdMap.member insert lite_vision.Ord.eqb commit_new
commit_registered = refl

register_receipt_final_example :
    (get_receipt 2 1 (register_all (commit ∷ []) (register_all (commit ∷ []) receipts_new))
      ≡ some entry)
    × ((register_receipt commit (register_all (commit ∷ []) receipts_new)).1 ≢ err nonce_reused)
register_receipt_final_example =
    register_receipt_final (commit ∷ []) (commit ∷ []) commit 2 1 entry commit_registered
