-- ===== src/Ledger/Tests.antt =====
-- crates/truth/src/state.rs and transaction.rs: test cases, and the theorems at concrete states.
use lite_vision.Prelude.{
  ℕ, ◌≡◌, refl, true, false, some, List, [], ◌∷◌, ◌++◌, length, length-append, arith, ok, err,
  bytes32, from_bytes32, length-bytes32, take, le_bytes, from_le,
}
use lite_vision.Ord.{nat_ord, eqb}
use lite_vision.OrdMap.{lookup, insert}
use lite_vision.Partition.Signatures.{Ed25519}
use lite_vision.Settlement.{escrow_not_found}
use lite_vision.Settlement.Escrow
use lite_vision.Settlement.Registry
use lite_vision.Settlement.State
use lite_vision.Ledger
use lite_vision.Ledger.{LedgerState}
use lite_vision.Ledger.Transaction
use lite_vision.Ledger.Transaction.{
  new_escrow_deposit, new_escrow_refund, new_escrow_release, new_job_submit, new_operator_register,
  new_reputation_update,
}
use lite_vision.Ledger.Apply.{
  is_ok, apply_transaction, apply_block_transactions, settled_by, dispatch, is_authorized,
  apply_escrow_refund,
}
use lite_vision.Ledger.Refusals.{apply_transaction_refused, apply_block_stops}
use lite_vision.Ledger.Standing.{Stands, apply_block-Stands}
use lite_vision.Ledger.Payloads.{apply-new_escrow_deposit, anyone_releases}

abbrev scheme : Ed25519
scheme = record {
  Signature = List ℕ;
  VerifyingKey = ℕ;
  signature_length = 64;
  from_slice = some;
  from_bytes = some;
  is_verified = λ _ _ _. true;
}

abbrev hash : List ℕ → ℕ
hash bytes = length bytes

-- a refund of a job that has no escrow
abbrev refund : Transaction.Transaction
refund = new_escrow_refund hash 7

abbrev empty : LedgerState
empty = Ledger.new

refund_fails : (apply_transaction hash scheme refund empty).1 ≡ err escrow_not_found
unfolding Ledger.new new_escrow_refund bytes32 apply_transaction Transaction.verify le_bytes
    is_authorized dispatch apply_escrow_refund State.refund_escrow lookup State.new
refund_fails = refl

-- that refusal
refund_err : is_ok (apply_transaction hash scheme refund empty).1 ≡ false
refund_err = rw refund_fails

apply_transaction_refused_example : (apply_transaction hash scheme refund empty).0 ≡ empty
apply_transaction_refused_example = apply_transaction_refused hash scheme refund empty refund_err

-- a block of a deposit of 500 for job 5, a refund that fails, and another deposit
abbrev funded : LedgerState
funded = settled_by empty (State.create_escrow 5 0 500 empty.height 500 empty.settlement)

deposit_applied :
    apply_block_transactions hash scheme (new_escrow_deposit hash 5 500 ∷ []) empty
    ≡ (funded, ok tt)
unfolding apply_block_transactions
deposit_applied =
    rw (apply-new_escrow_deposit hash scheme 5 500 empty (omega arith) (omega arith)) refl

refund_fails_then : (apply_transaction hash scheme refund funded).1 ≡ err escrow_not_found
unfolding Ledger.new new_escrow_refund bytes32 apply_transaction Transaction.verify le_bytes
    is_authorized dispatch apply_escrow_refund State.refund_escrow lookup State.new
    State.create_escrow insert eqb from_bytes32 from_le take
refund_fails_then = refl

apply_block_stops_example :
    apply_block_transactions hash scheme
      ((new_escrow_deposit hash 5 500 ∷ []) ++ refund ∷ new_escrow_deposit hash 6 10 ∷ [])
      empty
    ≡ (funded, err escrow_not_found)
apply_block_stops_example =
    apply_block_stops hash scheme (new_escrow_deposit hash 5 500 ∷ [])
      (new_escrow_deposit hash 6 10 ∷ []) refund empty funded escrow_not_found deposit_applied
      refund_fails_then

empty-Stands : Stands empty
unfolding Ledger.new State.new Registry.new lookup
empty-Stands = record {
  standing = record { capped = λ id o found. cc; trusted = λ id o found up. cc };
}

apply_block-Stands_example :
    Stands
      (apply_block_transactions hash scheme
        (new_operator_register hash 9 9 5000 [] ∷ new_reputation_update hash 9 20000 ∷ [])
        empty).0
apply_block-Stands_example =
    apply_block-Stands hash scheme
      (new_operator_register hash 9 9 5000 [] ∷ new_reputation_update hash 9 20000 ∷ []) empty
      empty-Stands

apply-new_escrow_deposit_example :
    apply_transaction hash scheme (new_escrow_deposit hash 5 500) empty ≡ (funded, ok tt)
apply-new_escrow_deposit_example =
    apply-new_escrow_deposit hash scheme 5 500 empty (omega arith) (omega arith)

-- the recipient 99 is written, and nothing is paid to it
abbrev release : Transaction.Transaction
release = new_escrow_release hash 5 99

release_job : from_bytes32 (take 32 release.payload) ≡ 5
unfolding new_escrow_release bytes32 le_bytes take from_bytes32 from_le
release_job = refl

funded_job :
    lookup (from_bytes32 (take 32 release.payload)) funded.settlement.job_escrows
    ≡ some (Escrow.new 5 0 500 10 0 500)
unfolding State.create_escrow Ledger.new State.new insert lookup eqb
funded_job = rw release_job refl

anyone_releases_example :
    ((apply_transaction hash scheme release funded).1 ≡ ok tt)
    × (lookup
          (from_bytes32 (take 32 release.payload))
          (apply_transaction hash scheme release funded).0.settlement.job_escrows
        ≡ some (record (Escrow.new 5 0 500 10 0 500) { status = Escrow.EscrowStatus.released }))
unfolding new_escrow_release
anyone_releases_example =
    anyone_releases hash scheme release funded (Escrow.new 5 0 500 10 0 500) refl refl
      (omega (arith, length-append (bytes32 5) (bytes32 99), length-bytes32 5, length-bytes32 99))
      funded_job (unfold Escrow.new in refl)
