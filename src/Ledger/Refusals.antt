-- ===== src/Ledger/Refusals.antt =====
-- crates/truth/src/state.rs: transactions that are refused, and blocks that hold one.
use lite_vision.Prelude.{
  ℕ, ◌≡◌, refl, Bool, true, false, not, Option, none, some, List, [], ◌∷◌, ◌++◌, length, ltb,
  from_bytes32, take, if◌then◌else◌, arith, ok, err, Option-cases, inl, inr,
}
use lite_vision.Ord.{nat_ord}
use lite_vision.OrdMap.{lookup}
use lite_vision.Partition.Signatures.{Ed25519}
use lite_vision.Settlement.{StateError, escrow_not_active}
use lite_vision.Settlement.Escrow
use lite_vision.Settlement.State
use lite_vision.Settlement.State.{SettlementState}
use lite_vision.Ledger.{LedgerState, Receipt}
use lite_vision.Ledger.Transaction.{
  Transaction, TransactionType, job_submit, job_settle, artifact_commit, operator_register,
  operator_update, reputation_update, escrow_deposit, escrow_release, escrow_refund,
  governance_vote, transfer, contract_deploy, contract_call, intelligence_submit,
  intelligence_settle, verify,
}
use lite_vision.Ledger.Apply.{
  is_authorized, and_then, Outcome, is_ok, settlement_answer, settle_receipt, apply_job_submit,
  apply_job_settle, apply_artifact_commit, apply_operator_register, apply_operator_update,
  apply_reputation_update, apply_escrow_deposit, apply_escrow_release, apply_escrow_refund,
  apply_intelligence_submit, apply_intelligence_settle, dispatch, apply_transaction,
  apply_block_transactions, get_slice,
}

-- A refusal hands back the state that it was given.
pub record IsKept (self : LedgerState) (o : Outcome) : Type 0 where
  pub kept : is_ok o.1 ≡ false → o.0 ≡ self

done-IsKept : {self t : LedgerState} → IsKept self (t, ok tt)
done-IsKept = record { kept = λ h. cc }

refused-IsKept : {self : LedgerState} {e : StateError} → IsKept self (self, err e)
refused-IsKept = record { kept = λ _. refl }

guard-IsKept :
    (self : LedgerState) (c : Bool) (x y : Outcome)
    → IsKept self x
    → IsKept self y
    → IsKept self (if c then x else y)
guard-IsKept self true x y h k = h
guard-IsKept self false x y h k = k

-- the answer of the settlement where the escrow is there
paid_or_refused :
    (self : LedgerState) (c : Bool) (job : ℕ) (p : Escrow.JobEscrow × ℕ)
    → IsKept self (
        settlement_answer self (
          if c then (self.settlement, err escrow_not_active) else State.paid job self.settlement p))
paid_or_refused self true job p = refused-IsKept
paid_or_refused self false job p = done-IsKept

settlement-IsKept :
    (job : ℕ) (self : LedgerState)
    → IsKept self (settlement_answer self (State.release_escrow job self.settlement))
      × IsKept self (settlement_answer self (State.refund_escrow job self.settlement))
unfolding State.release_escrow State.refund_escrow
settlement-IsKept job self = elim (Option-cases (lookup job self.settlement.job_escrows)) [
  | inl absent ↦
      rw (absent, State.release_escrow, State.refund_escrow) (refused-IsKept, refused-IsKept)
  | inr (e, found) ↦
      rw (found, State.release_escrow, State.refund_escrow)
        (
          paid_or_refused self (not (Escrow.is_active e.status)) job (Escrow.release e),
          paid_or_refused self (not (Escrow.is_active e.status)) job (Escrow.refund e),
        )
]

receipt-IsKept :
    (self : LedgerState) (id : ℕ) (r : Option Receipt) → IsKept self (settle_receipt self id r)
receipt-IsKept self id none = refused-IsKept
receipt-IsKept self id (some r) = guard-IsKept self r.settled _ _ done-IsKept done-IsKept

apply_intelligence_settle-IsKept :
    (tx : Transaction) (self : LedgerState) → IsKept self (apply_intelligence_settle tx self)
unfolding apply_intelligence_settle
apply_intelligence_settle-IsKept tx self = elim (Option-cases (get_slice 0 32 tx.payload)) [
  | inl absent ↦ rw (absent, apply_intelligence_settle) refused-IsKept
  | inr (bs, found) ↦ rw (found, apply_intelligence_settle) (receipt-IsKept self _ _)
]

and_then_assoc :
    (f g h : LedgerState → Outcome)
    → ((s : LedgerState) → h s ≡ and_then g (f s))
    → (o : Outcome) → and_then h o ≡ and_then g (and_then f o)
and_then_assoc f g h same (s, ok _) = same s
and_then_assoc f g h same (s, err x) = refl

and_then_refused :
    (f : LedgerState → Outcome) (o : Outcome) (t : LedgerState) (x : StateError)
    → o.1 ≡ err x
    → o.0 ≡ t
    → and_then f o ≡ (t, err x)
and_then_refused f (s, ok _) t x refused kept = cc
and_then_refused f (s, err y) t x refused kept = cc

module _ (blake3 : List ℕ → ℕ) where
  dispatch-IsKept :
      (t : TransactionType) (tx : Transaction) (self : LedgerState)
      → IsKept self (dispatch blake3 t tx self)
  unfolding dispatch apply_job_submit apply_job_settle apply_artifact_commit apply_operator_register
      apply_operator_update apply_reputation_update apply_escrow_deposit apply_escrow_release
      apply_escrow_refund apply_intelligence_submit
  dispatch-IsKept job_submit tx self = record { kept = λ h. ground arith }
  dispatch-IsKept job_settle tx self = record { kept = λ h. ground arith }
  dispatch-IsKept artifact_commit tx self = record { kept = λ h. ground arith }
  dispatch-IsKept operator_register tx self = record { kept = λ h. ground arith }
  dispatch-IsKept operator_update tx self = record { kept = λ h. ground arith }
  dispatch-IsKept reputation_update tx self = record { kept = λ h. ground arith }
  dispatch-IsKept escrow_deposit tx self = record { kept = λ h. ground arith }
  dispatch-IsKept escrow_release tx self =
      guard-IsKept self (ltb (length tx.payload) 64) _ _ refused-IsKept
        (settlement-IsKept (from_bytes32 (take 32 tx.payload)) self).0
  dispatch-IsKept escrow_refund tx self =
      guard-IsKept self (ltb (length tx.payload) 32) _ _ refused-IsKept
        (settlement-IsKept (from_bytes32 (take 32 tx.payload)) self).1
  dispatch-IsKept governance_vote tx self = done-IsKept
  dispatch-IsKept transfer tx self = done-IsKept
  dispatch-IsKept contract_deploy tx self = done-IsKept
  dispatch-IsKept contract_call tx self = done-IsKept
  dispatch-IsKept intelligence_submit tx self = done-IsKept
  dispatch-IsKept intelligence_settle tx self = apply_intelligence_settle-IsKept tx self

  module _ (e : Ed25519) where
    apply_transaction-IsKept :
        (tx : Transaction) (self : LedgerState) → IsKept self (apply_transaction blake3 e tx self)
    unfolding apply_transaction
    apply_transaction-IsKept tx self =
        guard-IsKept self (not (is_ok (verify tx))) _ _ refused-IsKept (
          guard-IsKept self (not (is_authorized blake3 e tx self)) _ _ refused-IsKept
            (dispatch-IsKept tx.tx_type tx self))

    -- A transaction that is refused, of whatever type and for whatever reason, leaves the state as
    -- it was.
    pub apply_transaction_refused :
        (tx : Transaction) (self : LedgerState)
        → is_ok (apply_transaction blake3 e tx self).1 ≡ false
        → (apply_transaction blake3 e tx self).0 ≡ self
    apply_transaction_refused tx self = (apply_transaction-IsKept tx self).kept

    -- A block is applied part by part.
    pub apply_block-append :
        (xs ys : List Transaction) (self : LedgerState)
        → apply_block_transactions blake3 e (xs ++ ys) self
          ≡ and_then
              (apply_block_transactions blake3 e ys)
              (apply_block_transactions blake3 e xs self)
    unfolding apply_block_transactions
    apply_block-append [] ys self = refl
    apply_block-append (tx ∷ xs) ys self =
        and_then_assoc (apply_block_transactions blake3 e xs) (apply_block_transactions blake3 e ys)
          (apply_block_transactions blake3 e (xs ++ ys)) (apply_block-append xs ys)
          (apply_transaction blake3 e tx self)

    -- Where a list of transactions applies and the transaction after it is refused in the
    -- resulting state, the block that has both, and any others behind them, is refused with the
    -- same error and leaves the resulting state: the transactions before the refused one stay
    -- applied.
    pub apply_block_stops :
        (before after : List Transaction) (tx : Transaction) (self t : LedgerState) (x : StateError)
        → apply_block_transactions blake3 e before self ≡ (t, ok tt)
        → (apply_transaction blake3 e tx t).1 ≡ err x
        → apply_block_transactions blake3 e (before ++ tx ∷ after) self ≡ (t, err x)
    unfolding apply_block_transactions
    apply_block_stops before after tx self t x applied refused =
        rw (apply_block-append before (tx ∷ after) self, applied)
          (and_then_refused (apply_block_transactions blake3 e after)
            (apply_transaction blake3 e tx t) t x refused
            (apply_transaction_refused tx t (rw refused refl)))
