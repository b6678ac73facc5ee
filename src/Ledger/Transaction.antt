-- ===== src/Ledger/Transaction.antt =====
-- crates/truth/src/transaction.rs: transactions, the checks of their format and signature, and the
-- functions that make them. Of ed25519-dalek and blake3, see Partition.Signatures.
use lite_vision.Prelude.{
  ℕ, Bool, true, false, not, List, [], ◌∷◌, ◌++◌, length, ◌==◌, if◌then◌else◌, le_bytes, bytes32,
  Result, ok, err,
}
use lite_vision.Partition.Signatures.{Ed25519, verify_parsed}

pub data TransactionType : Type 0 where
  job_submit job_settle artifact_commit : TransactionType
  operator_register operator_update reputation_update : TransactionType
  escrow_deposit escrow_release escrow_refund governance_vote : TransactionType
  transfer contract_deploy contract_call : TransactionType
  intelligence_submit intelligence_settle : TransactionType

pub record Transaction : Type 0 where
  pub id : ℕ
  pub sender : ℕ
  pub tx_type : TransactionType
  pub payload : List ℕ
  pub nonce : ℕ
  pub fee : ℕ
  pub signature : List ℕ

pub data TxError : Type 0 where
  invalid_format unsupported_tx_type invalid_signature : TxError
  invalid_sender invalid_payload expired : TxError

abbrev pub is_empty : List ℕ → Bool
is_empty [] = true
is_empty (_ ∷ _) = false

-- the error for an empty payload, by the type
abbrev pub verify_payload : TransactionType → Bool → Result TxError (Unit {0})
verify_payload t false = ok tt
verify_payload transfer true = ok tt
verify_payload contract_deploy true = err invalid_format
verify_payload contract_call true = err invalid_format
verify_payload intelligence_submit true = err invalid_format
verify_payload intelligence_settle true = err invalid_format
verify_payload _ true = err invalid_payload

unfoldable pub verify : Transaction → Result TxError (Unit {0})
verify self = verify_payload self.tx_type (is_empty self.payload)

unfoldable pub is_settlement_type : TransactionType → Bool
is_settlement_type job_submit = true
is_settlement_type job_settle = true
is_settlement_type artifact_commit = true
is_settlement_type operator_register = true
is_settlement_type operator_update = true
is_settlement_type reputation_update = true
is_settlement_type escrow_deposit = true
is_settlement_type escrow_release = true
is_settlement_type escrow_refund = true
is_settlement_type _ = false

module _ (e : Ed25519) (blake3 : List ℕ → ℕ) where
  unfoldable pub verify_authorization : ℕ → Transaction → Result TxError (Unit {0})
  verify_authorization pubkey self =
      let message = blake3 (bytes32 self.sender ++ (le_bytes 8 self.nonce ++ self.payload)) in
      if is_empty self.signature
      then err invalid_signature
      else if not (length self.signature == 64)
      then err invalid_signature
      else if verify_parsed e message (e.from_slice self.signature) (e.from_bytes pubkey)
      then ok tt
      else err invalid_signature

module _ (blake3 : List ℕ → ℕ) where
  -- the fields that the functions below have in common
  abbrev pub unsigned : ℕ → TransactionType → List ℕ → ℕ → Transaction
  unsigned sender tx_type payload fee = record {
    id = blake3 payload;
    sender = sender;
    tx_type = tx_type;
    payload = payload;
    nonce = 0;
    fee = fee;
    signature = [];
  }

  unfoldable pub new_job_submit : ℕ → ℕ → ℕ → ℕ → Transaction
  new_job_submit job_id kernel_id budget deadline =
      unsigned 0 job_submit
        (bytes32 job_id ++ (bytes32 kernel_id ++ (le_bytes 8 budget ++ le_bytes 8 deadline))) 0

  unfoldable pub new_job_settle : ℕ → ℕ → Transaction
  new_job_settle receipt_id output_hash =
      unsigned 0 job_settle (bytes32 receipt_id ++ bytes32 output_hash) 0

  unfoldable pub new_artifact_commit : ℕ → ℕ → Transaction
  new_artifact_commit content_hash size_bytes =
      unsigned 0 artifact_commit (bytes32 content_hash ++ le_bytes 8 size_bytes) 0

  -- the region is the bytes of its text
  unfoldable pub new_operator_register : ℕ → ℕ → ℕ → List ℕ → Transaction
  new_operator_register operator_id pubkey stake region =
      unsigned operator_id operator_register
        (bytes32 operator_id ++ (bytes32 pubkey ++ (le_bytes 8 stake ++ region))) stake

  -- `delta` is the pattern of an i64
  unfoldable pub new_reputation_update : ℕ → ℕ → Transaction
  new_reputation_update target_operator delta =
      unsigned 0 reputation_update (bytes32 target_operator ++ le_bytes 8 delta) 0

  unfoldable pub new_escrow_deposit : ℕ → ℕ → Transaction
  new_escrow_deposit job_id amount =
      unsigned 0 escrow_deposit (bytes32 job_id ++ le_bytes 8 amount) amount

  unfoldable pub new_escrow_release : ℕ → ℕ → Transaction
  new_escrow_release job_id recipient =
      unsigned 0 escrow_release (bytes32 job_id ++ bytes32 recipient) 0

  unfoldable pub new_escrow_refund : ℕ → Transaction
  new_escrow_refund job_id = unsigned 0 escrow_refund (bytes32 job_id) 0
