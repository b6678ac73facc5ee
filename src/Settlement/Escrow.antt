-- ===== src/Settlement/Escrow.antt =====
-- crates/truth/src/settlement.rs: JobEscrow.
pub mod Payout
use lite_vision.Prelude.{
  ℕ, ◌-◌, ◌/◌, Bool, true, false, ◌&&◌, saturating_add, saturating_mul, ltb, if◌then◌else◌,
}

pub data EscrowStatus : Type 0 where
  active frozen released refunded partially_released : EscrowStatus

pub record JobEscrow : Type 0 where
  pub job_id : ℕ
  pub client_id : ℕ
  pub amount : ℕ
  pub reserved_for_verification : ℕ
  pub status : EscrowStatus
  pub created_at_block : ℕ
  pub deadline_block : ℕ

abbrev pub is_active : EscrowStatus → Bool
is_active active = true
is_active _ = false

abbrev pub is_frozen : EscrowStatus → Bool
is_frozen frozen = true
is_frozen _ = false

unfoldable pub new : ℕ → ℕ → ℕ → ℕ → ℕ → ℕ → JobEscrow
new job_id client_id amount verifier_reserve_percent current_block deadline_blocks = record {
  job_id = job_id;
  client_id = client_id;
  amount = amount;
  reserved_for_verification = saturating_mul amount verifier_reserve_percent / 10000;
  status = active;
  created_at_block = current_block;
  deadline_block = saturating_add current_block deadline_blocks;
}

unfoldable pub releaseable_amount : JobEscrow → ℕ
releaseable_amount self = self.amount - self.reserved_for_verification

-- the recipient `_to` is not used
unfoldable pub release : JobEscrow → JobEscrow × ℕ
release self =
    if is_active self.status then (record self { status = released }, self.amount) else (self, 0)

unfoldable pub refund : JobEscrow → JobEscrow × ℕ
refund self =
    if is_active self.status then (record self { status = refunded }, self.amount) else (self, 0)

unfoldable pub freeze : JobEscrow → JobEscrow
freeze self = if is_active self.status then record self { status = frozen } else self

unfoldable pub unfreeze : JobEscrow → JobEscrow
unfreeze self = if is_frozen self.status then record self { status = active } else self

unfoldable pub is_expired : ℕ → JobEscrow → Bool
is_expired current_block self = ltb self.deadline_block current_block && is_active self.status
