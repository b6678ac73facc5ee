-- ===== src/Ledger/Standing.antt =====
-- crates/truth/src/state.rs: the reputations that transactions leave.
use lite_vision.Prelude.{
  ℕ, ◌-◌, ◌≡◌, refl, Bool, true, false, not, Option, none, some, List, [], ◌∷◌, length, ltb,
  if◌then◌else◌, arith, ok, err, Option-cases, Bool-cases, inl, inr, u64_mod, from_le, from_bytes32,
  take,
}
use lite_vision.Ord.{nat_ord}
use lite_vision.OrdMap.{lookup}
use lite_vision.Partition.Signatures.{Ed25519}
use lite_vision.Settlement.{StateError}
use lite_vision.Settlement.Escrow
use lite_vision.Settlement.Registry
use lite_vision.Settlement.Registry.{OperatorRegistry}
use lite_vision.Settlement.Registry.Standing.{
  IsStanding, reputation-IsStanding, register-IsStanding,
}
use lite_vision.Settlement.State
use lite_vision.Settlement.State.{SettlementState}
use lite_vision.Ledger.{LedgerState, Receipt}
use lite_vision.Ledger.Transaction.{
  Transaction, TransactionType, job_submit, job_settle, artifact_commit, operator_register,
  operator_update, reputation_update, escrow_deposit, escrow_release, escrow_refund,
  governance_vote, transfer, contract_deploy, contract_call, intelligence_submit,
  intelligence_settle, verify,
}
use lite_vision.Ledger.Apply.{
  is_authorized, and_then, Outcome, is_ok, settlement_answer, settle_receipt, slice,
  apply_job_submit, apply_job_settle, apply_artifact_commit, apply_operator_register,
  apply_operator_update, apply_reputation_update, apply_escrow_deposit, apply_escrow_release,
  apply_escrow_refund, apply_intelligence_submit, apply_intelligence_settle, dispatch,
  apply_transaction, apply_block_transactions, get_slice, release_if_there,
}

-- Every operator of the ledger stands.
pub record Stands (s : LedgerState) : Type 0 where
  pub standing : IsStanding s.settlement.operator_registry

-- the registry is as it was
SameOperators : LedgerState → LedgerState → Type 0
SameOperators s t = t.settlement.operator_registry ≡ s.settlement.operator_registry

kept_operators :
    (s t : LedgerState)
    → t.settlement.operator_registry ≡ s.settlement.operator_registry
    → Stands s
    → Stands t
kept_operators s t same h = record { standing = rw same h.standing }

guard-Stands : (c : Bool) (x y : Outcome) → Stands x.0 → Stands y.0 → Stands (if c then x else y).0
guard-Stands true x y h k = h
guard-Stands false x y h k = k

release_if_there-operators :
    (job : ℕ) (s : SettlementState)
    → (release_if_there job s).operator_registry ≡ s.operator_registry
unfolding release_if_there
release_if_there-operators job s = ground arith

paid-operators :
    (self : LedgerState) (c : Bool) (x : StateError) (job : ℕ) (p : Escrow.JobEscrow × ℕ)
    → Stands self
    → Stands
        (settlement_answer self
          (if c then (self.settlement, err x) else State.paid job self.settlement p)).0
paid-operators self true x job p h = kept_operators self _ refl h
paid-operators self false x job p h = kept_operators self _ refl h

settlement-Stands :
    (job : ℕ) (self : LedgerState)
    → Stands self
    → Stands (settlement_answer self (State.release_escrow job self.settlement)).0
      × Stands (settlement_answer self (State.refund_escrow job self.settlement)).0
unfolding State.release_escrow State.refund_escrow
settlement-Stands job self h = elim (Option-cases (lookup job self.settlement.job_escrows)) [
  | inl absent ↦
      rw (absent, State.release_escrow, State.refund_escrow)
        (kept_operators self _ refl h, kept_operators self _ refl h)
  | inr (e, found) ↦
      rw (found, State.release_escrow, State.refund_escrow)
        (
          paid-operators self (not (Escrow.is_active e.status)) _ job (Escrow.release e) h,
          paid-operators self (not (Escrow.is_active e.status)) _ job (Escrow.refund e) h,
        )
]

receipt-Stands :
    (self : LedgerState) (id : ℕ) (r : Option Receipt)
    → Stands self
    → Stands (settle_receipt self id r).0
receipt-Stands self id none h = h
receipt-Stands self id (some r) h = guard-Stands r.settled _ _ h (kept_operators self _ refl h)

apply_intelligence_settle-Stands :
    (tx : Transaction) (self : LedgerState)
    → Stands self
    → Stands (apply_intelligence_settle tx self).0
unfolding apply_intelligence_settle
apply_intelligence_settle-Stands tx self h = elim (Option-cases (get_slice 0 32 tx.payload)) [
  | inl absent ↦ rw (absent, apply_intelligence_settle) h
  | inr (bs, found) ↦ rw (found, apply_intelligence_settle) (receipt-Stands self _ _ h)
]

-- a change of reputation by the amount of an i64
reputation-Stands :
    (target delta : ℕ) (r : OperatorRegistry)
    → IsStanding r
    → IsStanding (
        if ltb delta 9223372036854775808
        then Registry.increase_reputation target delta r
        else Registry.decrease_reputation target (u64_mod - delta) r)
reputation-Stands target delta r h = elim (Bool-cases (ltb delta 9223372036854775808)) [
  | inl up ↦ rw up (reputation-IsStanding target delta r (ground arith) h).0
  | inr down ↦ rw down (reputation-IsStanding target (u64_mod - delta) r (ground arith) h).1
]

module _ (blake3 : List ℕ → ℕ) where
  dispatch-Stands :
      (t : TransactionType) (tx : Transaction) (self : LedgerState)
      → Stands self
      → Stands (dispatch blake3 t tx self).0
  unfolding dispatch apply_job_submit apply_job_settle apply_artifact_commit apply_operator_register
      apply_operator_update apply_reputation_update apply_escrow_deposit apply_escrow_release
      apply_escrow_refund apply_intelligence_submit State.create_escrow State.anchor_receipt
  dispatch-Stands job_submit tx self h =
      guard-Stands (ltb (length tx.payload) 80) _ _ h (kept_operators self _ refl h)
  dispatch-Stands job_settle tx self h =
      guard-Stands (ltb (length tx.payload) 64) _ _ h
        (kept_operators self _ (release_if_there-operators tx.sender self.settlement) h)
  dispatch-Stands artifact_commit tx self h = guard-Stands (ltb (length tx.payload) 40) _ _ h h
  dispatch-Stands operator_register tx self h =
      guard-Stands (ltb (length tx.payload) 72) _ _ h
        (record { standing = register-IsStanding _ _ (omega arith) (omega arith) h.standing })
  dispatch-Stands operator_update tx self h =
      guard-Stands (ltb (length tx.payload) 32) _ _ h (guard-Stands _ _ _ h h)
  dispatch-Stands reputation_update tx self h =
      guard-Stands (ltb (length tx.payload) 40) _ _ h (record {
        standing =
            reputation-Stands (from_bytes32 (take 32 tx.payload)) (from_le (slice 32 40 tx.payload))
              _ h.standing;
      })
  dispatch-Stands escrow_deposit tx self h =
      guard-Stands (ltb (length tx.payload) 40) _ _ h (kept_operators self _ refl h)
  dispatch-Stands escrow_release tx self h =
      guard-Stands (ltb (length tx.payload) 64) _ _ h
        (settlement-Stands (from_bytes32 (take 32 tx.payload)) self h).0
  dispatch-Stands escrow_refund tx self h =
      guard-Stands (ltb (length tx.payload) 32) _ _ h
        (settlement-Stands (from_bytes32 (take 32 tx.payload)) self h).1
  dispatch-Stands governance_vote tx self h = h
  dispatch-Stands transfer tx self h = h
  dispatch-Stands contract_deploy tx self h = h
  dispatch-Stands contract_call tx self h = h
  dispatch-Stands intelligence_submit tx self h = kept_operators self _ refl h
  dispatch-Stands intelligence_settle tx self h = apply_intelligence_settle-Stands tx self h

  module _ (e : Ed25519) where
    apply_transaction-Stands :
        (tx : Transaction) (self : LedgerState)
        → Stands self
        → Stands (apply_transaction blake3 e tx self).0
    unfolding apply_transaction
    apply_transaction-Stands tx self h = guard-Stands (not (is_ok (verify tx))) _ _ h (
        guard-Stands (not (is_authorized blake3 e tx self)) _ _ h
          (dispatch-Stands tx.tx_type tx self h))

    and_then-Stands :
        (f : LedgerState → Outcome)
        → ((s : LedgerState) → Stands s → Stands (f s).0)
        → (o : Outcome) → Stands o.0
        → Stands (and_then f o).0
    and_then-Stands f keep (s, ok _) h = keep s h
    and_then-Stands f keep (s, err x) h = h

    -- Where every reputation is at most 10000 and that of every active operator at least 500, it
    -- stays so through every block, refused or not.
    pub apply_block-Stands :
        (txs : List Transaction) (self : LedgerState)
        → Stands self
        → Stands (apply_block_transactions blake3 e txs self).0
    unfolding apply_block_transactions
    apply_block-Stands [] self h = h
    apply_block-Stands (tx ∷ txs) self h =
        and_then-Stands (apply_block_transactions blake3 e txs) (apply_block-Stands txs)
          (apply_transaction blake3 e tx self) (apply_transaction-Stands tx self h)
