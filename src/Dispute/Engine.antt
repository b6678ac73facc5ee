-- ===== src/Dispute/Engine.antt =====
-- crates/intelligence/src/dispute.rs: DisputeEngine. A call that may fail returns the engine beside
-- its answer. u64 arithmetic wraps.
use lite_vision.Prelude.{
  ℕ, ◌-◌, ◌/◌, ◌==◌, max, Bool, true, false, not, Option, none, some, List, [], ◌∷◌, ◌++◌, leb, ltb,
  if◌then◌else◌, get_or, add_u64, mul_u64, Result, ok, err,
}
use lite_vision.Ord.{nat_ord}
use lite_vision.OrdMap.{Map, lookup, insert, remove}
use lite_vision.Dispute.{
  FraudProof, EvidenceBundle, DisputeStatus, pending, validation_phase, verification_escalation,
  adjudicating, resolved, appealed, canceled, fraud_confirmed, fraud_rejected, DisputeResolution,
  AppealReason, Appeal, Dispute, VerificationResult, default_distribution, EscrowStatus, active,
  frozen, released, refunded, EscrowState, DisputeEngine, ValidationResult, DisputeError,
  insufficient_bond, outside_dispute_window, dispute_already_exists, dispute_not_found,
  invalid_dispute_state, serialization_error, outside_appeal_window,
}

abbrev pub Outcome : Type 0 → Type 0
Outcome A = DisputeEngine × Result DisputeError A

-- blake3 over bincode, third-party crates: the id of a dispute from its job, its receipt, its
-- challenger and the block, and whether a proof can be serialized.
pub record Hashing : Type 0 where
  pub dispute_id : ℕ → ℕ → ℕ → ℕ → ℕ
  pub serializes : FraudProof → Bool

unfoldable pub new : ℕ → ℕ → ℕ → ℕ → DisputeEngine
new min_challenger_bond governance_min_slash slash_alpha_ratio slash_beta_ratio = record {
  min_challenger_bond = min_challenger_bond;
  governance_min_slash = governance_min_slash;
  slash_alpha_ratio = slash_alpha_ratio;
  slash_beta_ratio = slash_beta_ratio;
  adjudication_window_blocks = 100;
  default_verification_window = 500;
  slash_distribution = default_distribution;
  disputes = [];
  job_escrow = [];
  frozen_bonds = [];
  disputes_by_job = [];
}

unfoldable pub init_escrow : ℕ → ℕ → ℕ → DisputeEngine → DisputeEngine
init_escrow job_id amount recipient self = record self {
  job_escrow =
      insert job_id
        (record { job_id = job_id; amount = amount; status = active; recipient = some recipient })
        self.job_escrow;
}

-- `if let Some(escrow) = self.job_escrow.get_mut(&job_id) { escrow.status = status; }`
unfoldable pub set_escrow : ℕ → EscrowStatus → Map ℕ EscrowState → Map ℕ EscrowState
set_escrow job_id status m = elim (lookup job_id m) [
  | none ↦ m
  | some escrow ↦ insert job_id (record escrow { status = status }) m
]

-- `if let Some(disputes) = self.disputes_by_job.get(&job_id) { if !disputes.is_empty() { .. } }`
unfoldable pub is_disputed : ℕ → DisputeEngine → Bool
is_disputed job_id self = elim (lookup job_id self.disputes_by_job) [
  | none ↦ false
  | some [] ↦ false
  | some (_ ∷ _) ↦ true
]

-- the dispute that initiate_dispute builds
unfoldable pub opened : ℕ → ℕ → ℕ → FraudProof → ℕ → ℕ → ℕ → ℕ → Dispute
opened id job_id receipt_hash fraud_proof challenger_id bond current_block window = record {
  id = id;
  job_id = job_id;
  receipt_hash = receipt_hash;
  fraud_proof = fraud_proof;
  challenger_id = challenger_id;
  challenger_bond = bond;
  status = validation_phase;
  created_at_block = current_block;
  verification_window_blocks = window;
  resolution = none;
  appeal = none;
  verification_level = 0;
}

-- what initiate_dispute stores
unfoldable pub open_dispute : Dispute → DisputeEngine → DisputeEngine
open_dispute d self = record self {
  disputes = insert d.id d self.disputes;
  disputes_by_job =
      insert d.job_id (get_or (lookup d.job_id self.disputes_by_job) [] ++ d.id ∷ [])
        self.disputes_by_job;
  job_escrow = set_escrow d.job_id frozen self.job_escrow;
  frozen_bonds = insert d.challenger_id d.challenger_bond self.frozen_bonds;
}

unfoldable pub initiate_dispute :
    Hashing → ℕ → ℕ → FraudProof → ℕ → ℕ → ℕ → ℕ → ℕ → DisputeEngine → Outcome ℕ
initiate_dispute h job receipt_hash proof challenger bond current_block receipt_block window self =
    let id = h.dispute_id job receipt_hash challenger current_block in
    if ltb bond self.min_challenger_bond
    then (self, err insufficient_bond)
    else if ltb (add_u64 receipt_block window) current_block
    then (self, err outside_dispute_window)
    else if is_disputed job self
    then (self, err dispute_already_exists)
    else if not (h.serializes proof)
    then (self, err serialization_error)
    else (
      open_dispute (opened id job receipt_hash proof challenger bond current_block window) self,
      ok id,
    )

unfoldable pub validate_dispute : ℕ → DisputeEngine → Result DisputeError ValidationResult
validate_dispute dispute_id self = elim (lookup dispute_id self.disputes) [
  | none ↦ err dispute_not_found
  | some d ↦ ok (record { is_valid = leb self.min_challenger_bond d.challenger_bond })
]

-- the discriminants, which the derived equality compares
abbrev pub code : DisputeStatus → ℕ
code pending = 0
code validation_phase = 1
code verification_escalation = 2
code adjudicating = 3
code resolved = 4
code appealed = 5
code canceled = 6

abbrev pub same_status : DisputeStatus → DisputeStatus → Bool
same_status a b = code a == code b

-- A call on the dispute of an id begins by looking it up and comparing its status.
abbrev pub in_status :
    {A : Type 0} → ℕ → DisputeStatus → DisputeEngine → (Dispute → Outcome A) → Outcome A
in_status dispute_id status self act = elim (lookup dispute_id self.disputes) [
  | none ↦ (self, err dispute_not_found)
  | some d ↦ if same_status d.status status then act d else (self, err invalid_dispute_state)
]

-- what the call leaves behind the reference to the dispute
abbrev pub stored : ℕ → Dispute → DisputeEngine → DisputeEngine
stored dispute_id d self = record self { disputes = insert dispute_id d self.disputes }

unfoldable pub escalate_to_verification : ℕ → ℕ → DisputeEngine → Outcome (Unit {0})
escalate_to_verification dispute_id level self = in_status dispute_id validation_phase self λ d. (
  stored dispute_id (record d { status = verification_escalation; verification_level = level })
      self,
  ok tt,
)

-- the result is not read
unfoldable pub submit_verification_result :
    ℕ → VerificationResult → DisputeEngine → Outcome (Unit {0})
submit_verification_result dispute_id result self =
    in_status dispute_id verification_escalation self
      λ d. (stored dispute_id (record d { status = adjudicating }) self, ok tt)

unfoldable pub is_fraud : FraudProof → Bool
is_fraud proof = not (proof.recomputed_output_hash == proof.original_output_hash)

unfoldable pub slash_amount : ℕ → ℕ → DisputeEngine → ℕ
slash_amount job_budget verification_cost self =
    max (max self.governance_min_slash (mul_u64 job_budget self.slash_alpha_ratio / 10000))
      (mul_u64 verification_cost self.slash_beta_ratio / 10000)

unfoldable pub resolution_of : Dispute → ℕ → ℕ → ℕ → DisputeEngine → DisputeResolution
resolution_of d job_budget verification_cost current_block self =
    let slash = slash_amount job_budget verification_cost self in
    let confirmed = is_fraud d.fraud_proof in
    let slashed = if confirmed then slash else d.challenger_bond in
    record {
      outcome = if confirmed then fraud_confirmed else fraud_rejected;
      slashed_amount = slashed;
      challenger_share = mul_u64 slashed self.slash_distribution.challenger_share_ratio / 10000;
      verifier_share = mul_u64 slashed self.slash_distribution.verifier_share_ratio / 10000;
      treasury_share = mul_u64 slashed self.slash_distribution.treasury_share_ratio / 10000;
      operator_penalty = if confirmed then slash else 0;
      resolution_block = current_block;
    }

-- `if let Some(bond) = self.frozen_bonds.get_mut(&challenger) { *bond = bond.saturating_sub(slashed); }`
unfoldable pub reduce_bond : ℕ → ℕ → Map ℕ ℕ → Map ℕ ℕ
reduce_bond challenger slashed m = elim (lookup challenger m) [
  | none ↦ m
  | some bond ↦ insert challenger (bond - slashed) m
]

-- what resolve_dispute stores
unfoldable pub close_dispute : ℕ → Dispute → DisputeResolution → DisputeEngine → DisputeEngine
close_dispute dispute_id d r self =
    let confirmed = is_fraud d.fraud_proof in
    record self {
      disputes =
          insert dispute_id (record d { status = resolved; resolution = some r }) self.disputes;
      job_escrow = set_escrow d.job_id (if confirmed then refunded else released) self.job_escrow;
      frozen_bonds =
          if confirmed
          then remove d.challenger_id self.frozen_bonds
          else reduce_bond d.challenger_id r.slashed_amount self.frozen_bonds;
    }

unfoldable pub resolve_dispute : ℕ → ℕ → ℕ → ℕ → DisputeEngine → Outcome DisputeResolution
resolve_dispute dispute_id job_budget verification_cost current_block self =
    in_status dispute_id adjudicating self λ d.
      let r = resolution_of d job_budget verification_cost current_block self in
      (close_dispute dispute_id d r self, ok r)

-- `if let Some(resolution) = &dispute.resolution { if current_block > .. { return Err(..) } }`
unfoldable pub appeal_too_late : Option DisputeResolution → ℕ → Bool
appeal_too_late none current_block = false
appeal_too_late (some r) current_block = ltb (add_u64 r.resolution_block 50) current_block

unfoldable pub submit_appeal :
    ℕ → AppealReason → Option EvidenceBundle → ℕ → ℕ → DisputeEngine → Outcome (Unit {0})
submit_appeal dispute_id reason new_evidence appeal_bond current_block self =
    in_status dispute_id resolved self λ d.
      let appeal : Appeal = record {
        reason = reason;
        new_evidence = new_evidence;
        appeal_bond = appeal_bond;
        created_at_block = current_block;
        window_blocks = 50;
      } in
      if appeal_too_late d.resolution current_block
      then (self, err outside_appeal_window)
      else (stored dispute_id (record d { appeal = some appeal; status = appealed }) self, ok tt)

unfoldable pub get_dispute : ℕ → DisputeEngine → Option Dispute
get_dispute dispute_id self = lookup dispute_id self.disputes

unfoldable pub get_disputes_for_job : ℕ → DisputeEngine → Option (List ℕ)
get_disputes_for_job job_id self = lookup job_id self.disputes_by_job

unfoldable pub get_escrow : ℕ → DisputeEngine → Option EscrowState
get_escrow job_id self = lookup job_id self.job_escrow

unfoldable pub is_within_dispute_window : ℕ → ℕ → ℕ → DisputeEngine → Bool
is_within_dispute_window receipt_block current_block window_blocks self =
    leb current_block (add_u64 receipt_block window_blocks)
