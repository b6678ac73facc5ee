-- ===== src/Settlement/State.antt =====
-- crates/truth/src/settlement.rs: SettlementState, which holds the escrows, the registry, the
-- receipts, the artifacts and the slashing pool. `none` is a panic: the division by the number of
-- verifiers, when there are none.
pub mod Escrows
pub mod Rewards
use lite_vision.Prelude.{
  ℕ, zero, suc, ◌-◌, ◌/◌, Bool, true, false, not, Option, none, some, List, [], ◌∷◌, length,
  add_u64, ltb, if◌then◌else◌, Result, ok, err,
}
use lite_vision.Ord.{nat_ord}
use lite_vision.OrdMap.{Map, lookup, insert, update}
use lite_vision.Settlement.{StateError, escrow_not_found, escrow_not_active, insufficient_balance}
use lite_vision.Settlement.Escrow
use lite_vision.Settlement.Escrow.{JobEscrow, is_active}
use lite_vision.Settlement.Registry
use lite_vision.Settlement.Registry.{OperatorRegistry}
use lite_vision.Settlement.Receipts.{
  ReceiptAnchor, ArtifactCommitment, SlashingConditions, default_conditions,
}

pub record SettlementState : Type 0 where
  pub job_escrows : Map ℕ JobEscrow
  pub operator_registry : OperatorRegistry
  pub receipt_anchors : Map ℕ ReceiptAnchor
  pub artifacts : Map ℕ ArtifactCommitment
  pub slashing_conditions : SlashingConditions
  pub slashing_pool : ℕ
  pub verifier_rewards : Map ℕ ℕ

unfoldable pub new : SettlementState
new = record {
  job_escrows = [];
  operator_registry = Registry.new;
  receipt_anchors = [];
  artifacts = [];
  slashing_conditions = default_conditions;
  slashing_pool = 0;
  verifier_rewards = [];
}

abbrev pub Outcome : Type 0 → Type 0
Outcome A = SettlementState × Result StateError A

unfoldable pub create_escrow : ℕ → ℕ → ℕ → ℕ → ℕ → SettlementState → SettlementState
create_escrow job_id client_id amount current_block deadline_blocks self = record self {
  job_escrows =
      insert job_id (Escrow.new job_id client_id amount 10 current_block deadline_blocks)
        self.job_escrows;
}

unfoldable pub get_escrow : ℕ → SettlementState → Option JobEscrow
get_escrow job_id self = lookup job_id self.job_escrows

-- the escrow that a release or a refund leaves is stored in its place
abbrev pub paid : ℕ → SettlementState → JobEscrow × ℕ → Outcome ℕ
paid job_id self (e, amount) =
    (record self { job_escrows = insert job_id e self.job_escrows }, ok amount)

unfoldable pub release_escrow : ℕ → SettlementState → Outcome ℕ
release_escrow job_id self = elim (lookup job_id self.job_escrows) [
  | none ↦ (self, err escrow_not_found)
  | some e ↦
      if not (is_active e.status)
      then (self, err escrow_not_active)
      else paid job_id self (Escrow.release e)
]

unfoldable pub refund_escrow : ℕ → SettlementState → Outcome ℕ
refund_escrow job_id self = elim (lookup job_id self.job_escrows) [
  | none ↦ (self, err escrow_not_found)
  | some e ↦
      if not (is_active e.status)
      then (self, err escrow_not_active)
      else paid job_id self (Escrow.refund e)
]

unfoldable pub anchor_receipt : ReceiptAnchor → SettlementState → SettlementState
anchor_receipt receipt self = record self {
  receipt_anchors = insert receipt.receipt_id receipt self.receipt_anchors;
}

unfoldable pub get_receipt : ℕ → SettlementState → Option ReceiptAnchor
get_receipt receipt_id self = lookup receipt_id self.receipt_anchors

unfoldable pub commit_artifact : ArtifactCommitment → SettlementState → SettlementState
commit_artifact artifact self = record self {
  artifacts = insert artifact.artifact_id artifact self.artifacts;
}

unfoldable pub get_artifact : ℕ → SettlementState → Option ArtifactCommitment
get_artifact artifact_id self = lookup artifact_id self.artifacts

unfoldable pub add_slashed_to_pool : ℕ → SettlementState → SettlementState
add_slashed_to_pool amount self = record self { slashing_pool = add_u64 self.slashing_pool amount }

-- the loop over the verifiers
unfoldable pub reward_all : List ℕ → ℕ → Map ℕ ℕ → Map ℕ ℕ
reward_all [] per_verifier rewards = rewards
reward_all (v ∷ verifiers) per_verifier rewards =
    reward_all verifiers per_verifier (update v 0 (λ r. add_u64 r per_verifier) rewards)

-- the part after the test of the pool, for the number of verifiers
unfoldable pub distribute : List ℕ → ℕ → ℕ → SettlementState → Option (Outcome (Unit {0}))
distribute verifiers zero amount self = none
distribute verifiers (suc n) amount self = some (
  record self {
    slashing_pool = self.slashing_pool - amount;
    verifier_rewards = reward_all verifiers (amount / suc n) self.verifier_rewards;
  },
  ok tt,
)

unfoldable pub distribute_verifier_rewards :
    List ℕ → ℕ → SettlementState → Option (Outcome (Unit {0}))
distribute_verifier_rewards verifiers amount self =
    if ltb self.slashing_pool amount
    then some (self, err insufficient_balance)
    else distribute verifiers (length verifiers) amount self
