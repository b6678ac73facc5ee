-- ===== src/Settlement/Receipts.antt =====
-- crates/truth/src/settlement.rs: ReceiptAnchor, ArtifactCommitment and SlashingConditions. The
-- hash blake3 is a parameter, a function from bytes to the number that its 32 bytes spell.
use lite_vision.Prelude.{
  ℕ, ◌*◌, ◌/◌, ◌≤◌, ◌≡◌, ◌↔◌, Bool, true, false, Option, none, some, List, ◌++◌, length, add_u64,
  mul_u64, leb, ◌==◌, arith, bytes32, le_bytes,
}

pub data ReceiptStatus : Type 0 where
  submitted pending_verification verified challenged disputed settled rejected : ReceiptStatus

pub record ReceiptAnchor : Type 0 where
  pub receipt_id : ℕ
  pub job_id : ℕ
  pub operator_id : ℕ
  pub output_hash : ℕ
  pub input_hash : ℕ
  pub compute_used : ℕ
  pub status : ReceiptStatus
  pub created_at_block : ℕ
  pub settled_at_block : Option ℕ
  pub challenger_id : Option ℕ

-- the verifier and the block are not used
unfoldable pub verify : ReceiptAnchor → ReceiptAnchor
verify self = record self { status = verified }

unfoldable pub challenge : ℕ → ReceiptAnchor → ReceiptAnchor
challenge challenger_id self = record self {
  status = challenged;
  challenger_id = some challenger_id;
}

unfoldable pub escalate : ReceiptAnchor → ReceiptAnchor
escalate self = record self { status = disputed }

unfoldable pub settle : ℕ → ReceiptAnchor → ReceiptAnchor
settle current_block self = record self { status = settled; settled_at_block = some current_block }

unfoldable pub is_within_challenge_window : ℕ → ℕ → ReceiptAnchor → Bool
is_within_challenge_window current_block window self =
    leb current_block (add_u64 self.created_at_block window)

pub record ArtifactCommitment : Type 0 where
  pub artifact_id : ℕ
  pub content_hash : ℕ
  pub size_bytes : ℕ
  pub creator : ℕ
  pub commitment_block : ℕ
  pub sealed : Bool

unfoldable pub seal : ArtifactCommitment → ArtifactCommitment
seal self = record self { sealed = true }

module _ (blake3 : List ℕ → ℕ) where
  unfoldable pub receipt_new : ℕ → ℕ → ℕ → ℕ → ℕ → ℕ → ReceiptAnchor
  receipt_new job_id operator_id output_hash input_hash compute_used current_block = record {
    receipt_id = blake3 (
        bytes32 job_id
        ++ (bytes32 operator_id ++ (bytes32 output_hash ++ le_bytes 8 current_block)));
    job_id = job_id;
    operator_id = operator_id;
    output_hash = output_hash;
    input_hash = input_hash;
    compute_used = compute_used;
    status = submitted;
    created_at_block = current_block;
    settled_at_block = none;
    challenger_id = none;
  }

  unfoldable pub artifact_new : List ℕ → ℕ → ℕ → ArtifactCommitment
  artifact_new content creator current_block =
      let content_hash = blake3 content in
      record {
        artifact_id = blake3 (bytes32 content_hash ++ le_bytes 8 current_block);
        content_hash = content_hash;
        size_bytes = length content;
        creator = creator;
        commitment_block = current_block;
        sealed = false;
      }

  unfoldable pub artifact_verify : List ℕ → ArtifactCommitment → Bool
  artifact_verify content self = blake3 content == self.content_hash

  -- A commitment, sealed or not, accepts a content exactly if it hashes as the committed one does:
  -- it accepts the committed content itself.
  pub artifact_verify-new :
      (content other : List ℕ) (creator block : ℕ)
      → let c = artifact_new content creator block in
        (artifact_verify content c ≡ true)
        × (artifact_verify content (seal c) ≡ true)
        × ((artifact_verify other c ≡ true) ↔ (blake3 other ≡ blake3 content))
  unfolding artifact_new artifact_verify seal
  artifact_verify-new content other creator block =
      (ground arith, ground arith, (λ h. ground arith, λ h. ground arith))

pub record SlashingConditions : Type 0 where
  pub min_stake : ℕ
  pub slash_percentage : ℕ
  pub challenge_window_blocks : ℕ
  pub double_signing_window_blocks : ℕ
  pub max_challenges_before_slash : ℕ

abbrev pub default_conditions : SlashingConditions
default_conditions = record {
  min_stake = 1000;
  slash_percentage = 5000;
  challenge_window_blocks = 100;
  double_signing_window_blocks = 10;
  max_challenges_before_slash = 3;
}

unfoldable pub calculate_slash_amount : ℕ → SlashingConditions → ℕ
calculate_slash_amount stake self = mul_u64 stake self.slash_percentage / 10000

unfoldable pub should_slash : ℕ → SlashingConditions → Bool
should_slash challenge_count self = leb self.max_challenges_before_slash challenge_count

-- A slash by at most 10000 basis points takes at most the stake, so that the registry accepts it.
pub calculate_slash_amount-le :
    (stake : ℕ) (c : SlashingConditions)
    → c.slash_percentage ≤ 10000
    → calculate_slash_amount stake c ≤ stake
unfolding calculate_slash_amount
calculate_slash_amount-le stake c h =
    let product : stake * c.slash_percentage ≤ stake * 10000 = grind arith in omega (arith, product)
