-- ===== src/Settlement/State/Escrows.antt =====
-- crates/truth/src/settlement.rs: releases and refunds of the escrows that the state holds.
use lite_vision.Prelude.{
  ℕ, ◌+◌, ◌≡◌, refl, false, some, ok, err, if◌then◌else◌, arith, Result, Option-cases, inl, inr,
}
use lite_vision.Ord.{nat_ord, eqb}
use lite_vision.OrdMap.{lookup, insert}
use lite_vision.OrdMap.Lookup.{lookup-insert, lookup-insert_self}
use lite_vision.OrdMap.Sorted.{IsSorted}
use lite_vision.OrdMap.Sum.{sum_by, sum_by-insert}
use lite_vision.Settlement.{escrow_not_active}
use lite_vision.Settlement.Escrow
use lite_vision.Settlement.Escrow.{
  JobEscrow, active, frozen, released, refunded, partially_released, is_active,
}
use lite_vision.Settlement.Escrow.Payout.{held}
use lite_vision.Settlement.State.{SettlementState, release_escrow, refund_escrow}

-- what a result pays
abbrev pub payment : {E : Type 0} → Result E ℕ → ℕ
payment (ok n) = n
payment (err _) = 0

-- all that the escrows hold
abbrev pub locked : SettlementState → ℕ
locked s = sum_by held s.job_escrows

-- Where the escrows are in ascending order of the jobs, a release or a refund, successful or not,
-- pays exactly what the escrows then hold less.
pub escrow_conservation :
    (job : ℕ) (s : SettlementState)
    → IsSorted s.job_escrows
    → (payment (release_escrow job s).1 + locked (release_escrow job s).0 ≡ locked s)
      × (payment (refund_escrow job s).1 + locked (refund_escrow job s).0 ≡ locked s)
unfolding release_escrow refund_escrow
escrow_conservation job s sorted = elim (Option-cases (lookup job s.job_escrows)) [
  | inl absent ↦ (ground arith, ground arith)
  | inr (e, found) ↦
      unfold Escrow.release Escrow.refund in
      (
        ground
            (arith, sum_by-insert held job (record e { status = released }) s.job_escrows sorted),
        ground
            (arith, sum_by-insert held job (record e { status = refunded }) s.job_escrows sorted),
      )
]

-- what a release of an active escrow leaves
pub release_lem :
    (job : ℕ) (s : SettlementState) (e : JobEscrow)
    → lookup job s.job_escrows ≡ some e
    → e.status ≡ active
    → release_escrow job s ≡ (
      record s { job_escrows = insert job (record e { status = released }) s.job_escrows },
      ok e.amount,
    )
unfolding release_escrow Escrow.release
release_lem job s e found up = ground arith

-- an escrow that is there and not active is neither released nor refunded
not_active_lem :
    (job : ℕ) (s : SettlementState) (e : JobEscrow)
    → lookup job s.job_escrows ≡ some e
    → is_active e.status ≡ false
    → (release_escrow job s ≡ (s, err escrow_not_active))
      × (refund_escrow job s ≡ (s, err escrow_not_active))
unfolding release_escrow refund_escrow
not_active_lem job s e found down = (ground arith, ground arith)

-- The release of an active escrow pays its amount; after it a second release and a refund of the
-- same job are refused and change nothing, and the escrows of other jobs are as they were.
pub release_once :
    (job j : ℕ) (s : SettlementState) (e : JobEscrow)
    → lookup job s.job_escrows ≡ some e
    → e.status ≡ active
    → let t = (release_escrow job s).0 in
      ((release_escrow job s).1 ≡ ok e.amount)
      × (release_escrow job t ≡ (t, err escrow_not_active))
      × (refund_escrow job t ≡ (t, err escrow_not_active))
      × (lookup j t.job_escrows
          ≡ (if eqb job j then some (record e { status = released }) else lookup j s.job_escrows))
release_once job j s e found up =
    let e' : JobEscrow = record e { status = released } in
    let there = lookup-insert_self job e' s.job_escrows in
    let (again, back) =
      not_active_lem job (record s { job_escrows = insert job e' s.job_escrows }) e' there refl in
    rw (release_lem job s e found up) (refl, again, back, lookup-insert job j e' s.job_escrows)
