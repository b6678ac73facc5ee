-- ===== src/Dispute.antt =====
-- crates/intelligence/src/dispute.rs: the records and enumerations of disputes. Ids and hashes are
-- numbers, other byte strings lists of bytes.
pub mod Engine
pub mod Calls
pub mod Sound
pub mod Shares
pub mod Final
pub mod Course
pub mod Effects
pub mod Bonds
mod Tests
use lite_vision.Prelude.{ℕ, Bool, Option, List}
use lite_vision.OrdMap.{Map}

pub record ResourceMetricsSnapshot : Type 0 where
  pub gpu_cycles : ℕ
  pub vram_bytes : ℕ
  pub cpu_cycles : ℕ
  pub memory_bytes : ℕ
  pub bandwidth_bytes : ℕ
  pub execution_time_ms : ℕ

pub record EvidenceBundle : Type 0 where
  pub kernel_binary_hash : ℕ
  pub input_data_snapshot : List ℕ
  pub execution_logs : List ℕ
  pub resource_metrics : ResourceMetricsSnapshot

pub record FraudProof : Type 0 where
  pub receipt_hash : ℕ
  pub operator_id : ℕ
  pub recomputed_output_hash : ℕ
  pub original_output_hash : ℕ
  pub kernel_id : ℕ
  pub input_hash : ℕ
  pub deterministic_seed : Option ℕ
  pub evidence_bundle : EvidenceBundle
  pub challenger_signature : List ℕ

pub data DisputeStatus : Type 0 where
  pending validation_phase verification_escalation adjudicating : DisputeStatus
  resolved appealed canceled : DisputeStatus

pub data DisputeOutcome : Type 0 where
  fraud_confirmed fraud_rejected inconclusive : DisputeOutcome

pub record DisputeResolution : Type 0 where
  pub outcome : DisputeOutcome
  pub slashed_amount : ℕ
  pub challenger_share : ℕ
  pub verifier_share : ℕ
  pub treasury_share : ℕ
  pub operator_penalty : ℕ
  pub resolution_block : ℕ

pub data AppealReason : Type 0 where
  procedural_error evidence_corruption governance_review : AppealReason

pub record Appeal : Type 0 where
  pub reason : AppealReason
  pub new_evidence : Option EvidenceBundle
  pub appeal_bond : ℕ
  pub created_at_block : ℕ
  pub window_blocks : ℕ

pub record Dispute : Type 0 where
  pub id : ℕ
  pub job_id : ℕ
  pub receipt_hash : ℕ
  pub fraud_proof : FraudProof
  pub challenger_id : ℕ
  pub challenger_bond : ℕ
  pub status : DisputeStatus
  pub created_at_block : ℕ
  pub verification_window_blocks : ℕ
  pub resolution : Option DisputeResolution
  pub appeal : Option Appeal
  pub verification_level : ℕ

pub record VerifierSignature : Type 0 where
  pub verifier_id : ℕ
  pub signature : List ℕ

pub record VerificationResult : Type 0 where
  pub job_id : ℕ
  pub receipt_hash : ℕ
  pub recomputed_output_hash : ℕ
  pub verification_signatures : List VerifierSignature
  pub verification_level : ℕ

pub record SlashDistribution : Type 0 where
  pub challenger_share_ratio : ℕ
  pub verifier_share_ratio : ℕ
  pub treasury_share_ratio : ℕ

unfoldable pub default_distribution : SlashDistribution
default_distribution = record {
  challenger_share_ratio = 3000;
  verifier_share_ratio = 3000;
  treasury_share_ratio = 4000;
}

pub data EscrowStatus : Type 0 where
  active frozen released refunded partially_refunded : EscrowStatus

pub record EscrowState : Type 0 where
  pub job_id : ℕ
  pub amount : ℕ
  pub status : EscrowStatus
  pub recipient : Option ℕ

pub record DisputeEngine : Type 0 where
  pub min_challenger_bond : ℕ
  pub governance_min_slash : ℕ
  pub slash_alpha_ratio : ℕ
  pub slash_beta_ratio : ℕ
  pub adjudication_window_blocks : ℕ
  pub default_verification_window : ℕ
  pub slash_distribution : SlashDistribution
  pub disputes : Map ℕ Dispute
  pub job_escrow : Map ℕ EscrowState
  pub frozen_bonds : Map ℕ ℕ
  pub disputes_by_job : Map ℕ (List ℕ)

-- `errors` is always empty
pub record ValidationResult : Type 0 where
  pub is_valid : Bool

pub data DisputeError : Type 0 where
  insufficient_bond outside_dispute_window dispute_already_exists dispute_not_found : DisputeError
  invalid_dispute_state serialization_error outside_appeal_window : DisputeError
