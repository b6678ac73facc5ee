-- ===== src/Ledger/Payloads.antt =====
-- crates/truth/src/state.rs and transaction.rs: the payloads that the `new_` functions write and the
-- handlers read, and transactions without a signature.
use lite_vision.Prelude.{
  ℕ, ◌^◌, ◌≤◌, ◌<◌, ◌≡◌, refl, ◌∙◌, Bool, true, false, not, ◌||◌, some, List, [], ◌∷◌, ◌++◌, length,
  length-append, if◌then◌else◌, arith, ok, u64_mod, from_le, from_bytes32, le_bytes, bytes32,
  length-le_bytes, length-bytes32, from_le-le_bytes, from_bytes32-bytes32, take, take-append,
  drop-append, take-all,
}
use mathlib.Core.List.{append_assoc}
use lite_vision.Ord.{nat_ord}
use lite_vision.OrdMap.{lookup}
use lite_vision.OrdMap.Lookup.{lookup-insert_self}
use lite_vision.Partition.Signatures.{Ed25519}
use lite_vision.Settlement.Escrow
use lite_vision.Settlement.Escrow.{JobEscrow}
use lite_vision.Settlement.Registry
use lite_vision.Settlement.Registry.{OperatorState}
use lite_vision.Settlement.State
use lite_vision.Settlement.State.Escrows.{release_lem}
use lite_vision.Ledger.{LedgerState}
use lite_vision.Ledger.Transaction.{
  Transaction, escrow_release, is_empty, verify, new_job_submit, new_escrow_deposit,
  new_operator_register,
}
use lite_vision.Ledger.Apply.{
  Outcome, with_payload, is_authorized, dispatch, apply_transaction, apply_job_submit,
  apply_escrow_deposit, apply_escrow_release, apply_operator_register, slice, settled_by,
}

nonempty : (xs : List ℕ) → 0 < length xs → is_empty xs ≡ false
nonempty [] h = absurd (omega arith)
nonempty (x ∷ xs) h = refl

id_first : (n : ℕ) (rest : List ℕ) → n < 256 ^ 32 → from_bytes32 (take 32 (bytes32 n ++ rest)) ≡ n
id_first n rest h =
    rw (take-append 32 (bytes32 n) rest (length-bytes32 n)) (from_bytes32-bytes32 n h)

-- a number of 8 bytes behind an id
word_second : (n v : ℕ) → v < u64_mod → from_le (slice 32 40 (bytes32 n ++ le_bytes 8 v)) ≡ v
word_second n v h =
    rw
      (
        drop-append 32 (bytes32 n) (le_bytes 8 v) (length-bytes32 n),
        take-all 8 (le_bytes 8 v) (length-le_bytes 8 v),
      )
      (from_le-le_bytes 8 v (omega arith))

-- an id behind an id
id_second :
    (m n : ℕ) (rest : List ℕ)
    → n < 256 ^ 32
    → from_bytes32 (slice 32 64 (bytes32 m ++ (bytes32 n ++ rest))) ≡ n
id_second m n rest h =
    rw
      (
        drop-append 32 (bytes32 m) (bytes32 n ++ rest) (length-bytes32 m),
        take-append 32 (bytes32 n) rest (length-bytes32 n),
      )
      (from_bytes32-bytes32 n h)

-- a number of 8 bytes behind two ids
word_third :
    (m n v : ℕ) (rest : List ℕ)
    → v < u64_mod
    → from_le (slice 64 72 (bytes32 m ++ (bytes32 n ++ (le_bytes 8 v ++ rest)))) ≡ v
word_third m n v rest h =
    let ids : length (bytes32 m ++ bytes32 n) ≡ 64 =
      omega (arith, length-append (bytes32 m) (bytes32 n), length-bytes32 m, length-bytes32 n) in
    rw
      (
        ← append_assoc (bytes32 m) (bytes32 n) (le_bytes 8 v ++ rest),
        drop-append 64 (bytes32 m ++ bytes32 n) (le_bytes 8 v ++ rest) ids,
        take-append 8 (le_bytes 8 v) rest (length-le_bytes 8 v),
      )
      (from_le-le_bytes 8 v (omega arith))

skip_guard : (b : Bool) (x y : Outcome) → (if not (b || true) then x else y) ≡ y
skip_guard true x y = refl
skip_guard false x y = refl

long_enough :
    (n : ℕ) (tx : Transaction) (s : LedgerState) (rest : Outcome)
    → n ≤ length tx.payload
    → with_payload n tx s rest ≡ rest
long_enough n tx s rest h = ground arith

module _ (blake3 : List ℕ → ℕ) (e : Ed25519) where
  -- An unsigned transaction with a payload goes to its handler.
  pub unsigned_applies :
      (tx : Transaction) (s : LedgerState)
      → tx.signature ≡ []
      → 0 < length tx.payload
      → apply_transaction blake3 e tx s ≡ dispatch blake3 tx.tx_type tx s
  unfolding apply_transaction is_authorized verify
  unsigned_applies tx s bare some_payload =
      rw (nonempty tx.payload some_payload, bare) (skip_guard _ _ _)

  -- The ledger reads from the payload of new_escrow_deposit what was put in: for a job id of 32
  -- bytes and an amount of 8, applying that transaction is accepted in every state and opens an
  -- escrow of the amount for the job, owned by the sender 0.
  pub apply-new_escrow_deposit :
      (job amount : ℕ) (s : LedgerState)
      → job < 256 ^ 32
      → amount < u64_mod
      → apply_transaction blake3 e (new_escrow_deposit blake3 job amount) s
        ≡ (settled_by s (State.create_escrow job 0 amount s.height 500 s.settlement), ok tt)
  unfolding dispatch apply_escrow_deposit new_escrow_deposit
  apply-new_escrow_deposit job amount s h k =
      let size : length (bytes32 job ++ le_bytes 8 amount) ≡ 40 = omega (
        arith,
        length-append (bytes32 job) (le_bytes 8 amount),
        length-bytes32 job,
        length-le_bytes 8 amount,
      ) in
      let tx = new_escrow_deposit blake3 job amount in
      unsigned_applies tx s refl (omega (arith, size))
      ∙ long_enough 40 tx s _ (omega (arith, size))
      ∙ rw (id_first job (le_bytes 8 amount) h, word_second job amount k)

  -- The ledger reads from the payload of new_job_submit what was put in.
  pub apply-new_job_submit :
      (job kernel budget deadline : ℕ) (s : LedgerState)
      → job < 256 ^ 32
      → budget < u64_mod
      → apply_transaction blake3 e (new_job_submit blake3 job kernel budget deadline) s
        ≡ (settled_by s (State.create_escrow job 0 budget s.height 500 s.settlement), ok tt)
  unfolding dispatch apply_job_submit new_job_submit
  apply-new_job_submit job kernel budget deadline s h k =
      let tail = le_bytes 8 budget ++ le_bytes 8 deadline in
      let size : length (bytes32 job ++ (bytes32 kernel ++ tail)) ≡ 80 = omega (
        arith,
        length-append (bytes32 job) (bytes32 kernel ++ tail),
        length-append (bytes32 kernel) tail,
        length-append (le_bytes 8 budget) (le_bytes 8 deadline),
        length-bytes32 job,
        length-bytes32 kernel,
        length-le_bytes 8 budget,
        length-le_bytes 8 deadline,
      ) in
      let tx = new_job_submit blake3 job kernel budget deadline in
      unsigned_applies tx s refl (omega (arith, size))
      ∙ long_enough 80 tx s _ (omega (arith, size))
      ∙ rw (
        id_first job (bytes32 kernel ++ tail) h,
        word_third job kernel budget (le_bytes 8 deadline) k,
      )

  -- The ledger reads from the payload of new_operator_register what was put in.
  pub apply-new_operator_register :
      (id pubkey stake : ℕ) (region : List ℕ) (s : LedgerState)
      → id < 256 ^ 32
      → pubkey < 256 ^ 32
      → stake < u64_mod
      → (o : OperatorState) × (apply_transaction blake3 e
            (new_operator_register blake3 id pubkey stake region)
            s
          ≡ (
            settled_by s (record s.settlement {
              operator_registry = Registry.register o s.settlement.operator_registry;
            }),
            ok tt,
          ))
        × (o.id ≡ id)
        × (o.pubkey ≡ pubkey)
        × (o.stake ≡ stake)
  unfolding dispatch apply_operator_register new_operator_register
  apply-new_operator_register id pubkey stake region s h k w =
      let tail = le_bytes 8 stake ++ region in
      let size : 72 ≤ length (bytes32 id ++ (bytes32 pubkey ++ tail)) = omega (
        arith,
        length-append (bytes32 id) (bytes32 pubkey ++ tail),
        length-append (bytes32 pubkey) tail,
        length-append (le_bytes 8 stake) region,
        length-bytes32 id,
        length-bytes32 pubkey,
        length-le_bytes 8 stake,
      ) in
      let tx = new_operator_register blake3 id pubkey stake region in
      (
        _,
        unsigned_applies tx s refl (omega (arith, size))
            ∙ long_enough 72 tx s _ (omega (arith, size)),
        id_first id (bytes32 pubkey ++ tail) h,
        id_second id pubkey tail k,
        omega (arith, word_third id pubkey stake region w),
      )

  -- An unsigned release whose payload has at least 64 bytes and begins with the job of an active
  -- escrow is accepted, whoever sends it, and the escrow is released.
  pub anyone_releases :
      (tx : Transaction) (s : LedgerState) (escrow : JobEscrow)
      → tx.tx_type ≡ escrow_release
      → tx.signature ≡ []
      → 64 ≤ length tx.payload
      → lookup (from_bytes32 (take 32 tx.payload)) s.settlement.job_escrows ≡ some escrow
      → escrow.status ≡ Escrow.EscrowStatus.active
      → ((apply_transaction blake3 e tx s).1 ≡ ok tt)
        × (lookup
              (from_bytes32 (take 32 tx.payload))
              (apply_transaction blake3 e tx s).0.settlement.job_escrows
            ≡ some (record escrow { status = Escrow.EscrowStatus.released }))
  unfolding dispatch apply_escrow_release
  anyone_releases tx s escrow type bare long found up =
      rw
        (
          unsigned_applies tx s bare (omega arith),
          type,
          long_enough 64 tx s _ long,
          release_lem _ s.settlement escrow found up,
        )
        (refl, lookup-insert_self _ _ s.settlement.job_escrows)
