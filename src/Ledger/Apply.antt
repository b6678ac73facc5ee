-- ===== src/Ledger/Apply.antt =====
-- crates/truth/src/state.rs: apply_transaction, its handlers, and apply_block_transactions. A handler
-- returns the state beside its answer; `tx.payload[a..b]` is `slice a b`.
use lite_vision.Prelude.{
  ℕ, ◌-◌, max, Bool, true, false, not, ◌||◌, Option, none, some, List, [], ◌∷◌, length, take, drop,
  leb, ltb, ◌==◌, if◌then◌else◌, from_le, from_bytes32, u64_mod, Result, ok, err,
}
use lite_vision.Ord.{nat_ord}
use lite_vision.OrdMap.{lookup, insert}
use lite_vision.Partition.Signatures.{Ed25519}
use lite_vision.Settlement.{StateError, invalid_transaction, operator_not_active}
use lite_vision.Settlement.Escrow
use lite_vision.Settlement.Registry
use lite_vision.Settlement.Registry.{OperatorState}
use lite_vision.Settlement.Receipts
use lite_vision.Settlement.State
use lite_vision.Settlement.State.{SettlementState}
use lite_vision.Ledger.{LedgerState, Receipt, receipt_new, settle}
use lite_vision.Ledger.Transaction.{
  Transaction, TransactionType, job_submit, job_settle, artifact_commit, operator_register,
  operator_update, reputation_update, escrow_deposit, escrow_release, escrow_refund,
  governance_vote, transfer, contract_deploy, contract_call, intelligence_submit,
  intelligence_settle, is_empty, verify, verify_authorization,
}

abbrev pub Outcome : Type 0
Outcome = LedgerState × Result StateError (Unit {0})

abbrev pub slice : ℕ → ℕ → List ℕ → List ℕ
slice a b xs = take (b - a) (drop a xs)

-- the handlers below begin with `if tx.payload.len() < n { return Err(..) }`
abbrev pub with_payload : ℕ → Transaction → LedgerState → Outcome → Outcome
with_payload n tx self rest =
    if ltb (length tx.payload) n then (self, err invalid_transaction) else rest

-- `self.settlement` is replaced
abbrev pub settled_by : LedgerState → SettlementState → LedgerState
settled_by self s = record self { settlement = s }

unfoldable pub apply_job_submit : Transaction → LedgerState → Outcome
apply_job_submit tx self = with_payload 80 tx self (
  settled_by self (
      State.create_escrow (from_bytes32 (take 32 tx.payload)) tx.sender
        (from_le (slice 64 72 tx.payload)) self.height 500 self.settlement),
  ok tt,
)

-- `if let Some(escrow) = get_escrow_mut(&job_id) { escrow.release(..); }`
unfoldable pub release_if_there : ℕ → SettlementState → SettlementState
release_if_there job_id s = elim (lookup job_id s.job_escrows) [
  | none ↦ s
  | some e ↦ record s { job_escrows = insert job_id (Escrow.release e).0 s.job_escrows }
]

unfoldable pub apply_artifact_commit : Transaction → LedgerState → Outcome
apply_artifact_commit tx self = with_payload 40 tx self (self, ok tt)

unfoldable pub apply_operator_register : Transaction → LedgerState → Outcome
apply_operator_register tx self =
    let operator : OperatorState = record {
      id = from_bytes32 (take 32 tx.payload);
      pubkey = from_bytes32 (slice 32 64 tx.payload);
      stake = max tx.fee (from_le (slice 64 72 tx.payload));
      reputation = 1000;
      status = Registry.OperatorRegistrationStatus.active;
      region = "global";
      capabilities = [];
      slashed_count = 0;
      total_jobs_completed = 0;
      total_compute_units = 0;
      last_update_block = self.height;
    } in
    with_payload 72 tx self (
      settled_by self (record self.settlement {
        operator_registry = Registry.register operator self.settlement.operator_registry;
      }),
      ok tt,
    )

unfoldable pub apply_operator_update : Transaction → LedgerState → Outcome
apply_operator_update tx self = with_payload 32 tx self (
    if not
      (Registry.is_active (from_bytes32 (take 32 tx.payload)) self.settlement.operator_registry)
    then (self, err operator_not_active)
    else (self, ok tt))

-- `delta` is the pattern of an i64: from 2 ^ 63 on it is negative, and 2 ^ 64 - delta is its amount
unfoldable pub apply_reputation_update : Transaction → LedgerState → Outcome
apply_reputation_update tx self =
    let target = from_bytes32 (take 32 tx.payload) in
    let delta = from_le (slice 32 40 tx.payload) in
    let registry = self.settlement.operator_registry in
    with_payload 40 tx self (
      settled_by self (record self.settlement {
        operator_registry =
            if ltb delta 9223372036854775808
            then Registry.increase_reputation target delta registry
            else Registry.decrease_reputation target (u64_mod - delta) registry;
      }),
      ok tt,
    )

unfoldable pub apply_escrow_deposit : Transaction → LedgerState → Outcome
apply_escrow_deposit tx self = with_payload 40 tx self (
  settled_by self (
      State.create_escrow (from_bytes32 (take 32 tx.payload)) tx.sender
        (from_le (slice 32 40 tx.payload)) self.height 500 self.settlement),
  ok tt,
)

-- `...?; Ok(())` after a call of the settlement
abbrev pub settlement_answer : LedgerState → SettlementState × Result StateError ℕ → Outcome
settlement_answer self (s, ok _) = (settled_by self s, ok tt)
settlement_answer self (s, err e) = (settled_by self s, err e)

-- the recipient is parsed and handed on, and the settlement does not use it
unfoldable pub apply_escrow_release : Transaction → LedgerState → Outcome
apply_escrow_release tx self = with_payload 64 tx self (
    settlement_answer self
      (State.release_escrow (from_bytes32 (take 32 tx.payload)) self.settlement))

unfoldable pub apply_escrow_refund : Transaction → LedgerState → Outcome
apply_escrow_refund tx self = with_payload 32 tx self (
    settlement_answer self
      (State.refund_escrow (from_bytes32 (take 32 tx.payload)) self.settlement))

-- `payload.get(a..b)`
abbrev pub get_slice : ℕ → ℕ → List ℕ → Option (List ℕ)
get_slice a b xs = if leb b (length xs) then some (slice a b xs) else none

-- `.map(..).unwrap_or(0)` over such a slice
abbrev pub read_or_zero : (List ℕ → ℕ) → Option (List ℕ) → ℕ
read_or_zero f none = 0
read_or_zero f (some bs) = f bs

abbrev pub settle_receipt : LedgerState → ℕ → Option Receipt → Outcome
settle_receipt self id none = (self, err invalid_transaction)
settle_receipt self id (some r) = if r.settled then (self, ok tt) else (
  record self { intelligence_receipts = insert id (settle r) self.intelligence_receipts },
  ok tt,
)

unfoldable pub apply_intelligence_settle : Transaction → LedgerState → Outcome
apply_intelligence_settle tx self = elim (get_slice 0 32 tx.payload) [
  | none ↦ (self, err invalid_transaction)
  | some bs ↦
      settle_receipt self (from_bytes32 bs) (lookup (from_bytes32 bs) self.intelligence_receipts)
]

-- the rest of a block after a transaction
abbrev pub and_then : (LedgerState → Outcome) → Outcome → Outcome
and_then rest (self, ok _) = rest self
and_then rest (self, err x) = (self, err x)

-- the types whose signature is not looked at
abbrev pub is_exempt : TransactionType → Bool
is_exempt governance_vote = true
is_exempt transfer = true
is_exempt _ = false

abbrev pub is_ok {ℓ κ} : {E : Type ℓ} {A : Type κ} → Result E A → Bool
is_ok (ok _) = true
is_ok (err _) = false

-- the key of the sender, 0 for a sender that is not registered
abbrev pub pubkey_of : Option OperatorState → ℕ
pubkey_of none = 0
pubkey_of (some o) = o.pubkey

module _ (blake3 : List ℕ → ℕ) where
  unfoldable pub apply_job_settle : Transaction → LedgerState → Outcome
  apply_job_settle tx self = with_payload 64 tx self (
    settled_by self (
        State.anchor_receipt
          (Receipts.receipt_new blake3 tx.sender tx.sender (from_bytes32 (slice 32 64 tx.payload)) 0
            0 self.height)
          (release_if_there tx.sender self.settlement)),
    ok tt,
  )

  unfoldable pub apply_intelligence_submit : Transaction → LedgerState → Outcome
  apply_intelligence_submit tx self =
      let receipt =
        receipt_new blake3 tx.sender (read_or_zero from_bytes32 (get_slice 0 32 tx.payload))
          (read_or_zero from_bytes32 (get_slice 40 72 tx.payload))
          (read_or_zero from_le (get_slice 32 40 tx.payload)) tx.fee in
      (
        record self {
          intelligence_receipts = insert receipt.id receipt self.intelligence_receipts;
        },
        ok tt,
      )

  -- the match on the type
  unfoldable pub dispatch : TransactionType → Transaction → LedgerState → Outcome
  dispatch job_submit tx self = apply_job_submit tx self
  dispatch job_settle tx self = apply_job_settle tx self
  dispatch artifact_commit tx self = apply_artifact_commit tx self
  dispatch operator_register tx self = apply_operator_register tx self
  dispatch operator_update tx self = apply_operator_update tx self
  dispatch reputation_update tx self = apply_reputation_update tx self
  dispatch escrow_deposit tx self = apply_escrow_deposit tx self
  dispatch escrow_release tx self = apply_escrow_release tx self
  dispatch escrow_refund tx self = apply_escrow_refund tx self
  dispatch governance_vote tx self = (self, ok tt)
  dispatch transfer tx self = (self, ok tt)
  dispatch contract_deploy tx self = (self, ok tt)
  dispatch contract_call tx self = (self, ok tt)
  dispatch intelligence_submit tx self = apply_intelligence_submit tx self
  dispatch intelligence_settle tx self = apply_intelligence_settle tx self

  module _ (e : Ed25519) where
    -- a signature is checked where there is one and the sender has a key
    unfoldable pub is_authorized : Transaction → LedgerState → Bool
    is_authorized tx self =
        let key = pubkey_of (lookup tx.sender self.settlement.operator_registry.operators) in
        is_exempt tx.tx_type
        || (is_empty tx.signature || (key == 0 || is_ok (verify_authorization e blake3 key tx)))

    -- the answer `Ok(None)` is `ok tt`
    unfoldable pub apply_transaction : Transaction → LedgerState → Outcome
    apply_transaction tx self =
        if not (is_ok (verify tx))
        then (self, err invalid_transaction)
        else if not (is_authorized tx self)
        then (self, err invalid_transaction)
        else dispatch tx.tx_type tx self

    -- the answers of the transactions, all `None`, are left out
    unfoldable pub apply_block_transactions : List Transaction → LedgerState → Outcome
    apply_block_transactions [] self = (self, ok tt)
    apply_block_transactions (tx ∷ txs) self =
        and_then (apply_block_transactions txs) (apply_transaction tx self)
