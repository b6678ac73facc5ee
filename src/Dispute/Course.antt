-- ===== src/Dispute/Course.antt =====
-- crates/intelligence/src/dispute.rs: whole courses of a dispute.
use lite_vision.Prelude.{
  ℕ, ◌≤◌, ◌-◌, ◌≡◌, refl, ap, ◌∙◌, Bool, Option-cases, true, false, Option, none, some, List, [],
  ◌∷◌, ltb, arith, inl, inr, add_u64, if◌then◌else◌, ok, ==_iff,
}
use lite_vision.Ord.{nat_ord, eqb_self}
use lite_vision.OrdMap.{Map, lookup, insert, remove}
use lite_vision.OrdMap.Lookup.{lookup-insert_self, lookup-remove}
use lite_vision.Dispute.{
  FraudProof, validation_phase, verification_escalation, adjudicating, resolved, DisputeStatus,
  DisputeResolution, Dispute, DisputeEngine, VerificationResult, EscrowState, EscrowStatus, frozen,
  refunded, released,
}
use lite_vision.Dispute.Engine.{
  Hashing, is_disputed, opened, open_dispute, is_fraud, resolution_of, close_dispute, set_escrow,
  reduce_bond, initiate_dispute, escalate_to_verification, submit_verification_result,
  resolve_dispute, get_dispute, get_escrow, stored, code, in_status, Outcome,
}
use lite_vision.Dispute.Calls.{Call, initiate, escalate, verify, resolve, run}

abbrev pub status_of : Option Dispute → Option DisputeStatus
status_of none = none
status_of (some d) = some d.status

abbrev pub escrow_status : Option EscrowState → Option EscrowStatus
escrow_status none = none
escrow_status (some x) = some x.status

-- the status `s` where there is an escrow
abbrev pub set_to : EscrowStatus → Option EscrowState → Option EscrowStatus
set_to s none = none
set_to s (some x) = some s

-- What a challenger must bring.
pub record IsAdmissible (h : Hashing) (e : DisputeEngine) (job bond block receipt_block window : ℕ)
    (proof : FraudProof) : Type 0 where
  pub enough : e.min_challenger_bond ≤ bond
  pub in_time : block ≤ add_u64 receipt_block window
  pub first : is_disputed job e ≡ false
  pub sound_proof : h.serializes proof ≡ true

pub initiate_lem :
    (h : Hashing) (e : DisputeEngine) (job receipt : ℕ) (proof : FraudProof)
    (challenger bond block receipt_block window : ℕ)
    → IsAdmissible h e job bond block receipt_block window proof
    → initiate_dispute h job receipt proof challenger bond block receipt_block window e ≡ (
      open_dispute
          (opened
            (h.dispute_id job receipt challenger block)
            job
            receipt
            proof
            challenger
            bond
            block
            window)
          e,
      ok (h.dispute_id job receipt challenger block),
    )
unfolding initiate_dispute
initiate_lem h e job receipt proof challenger bond block receipt_block window a =
    let rich : ltb bond e.min_challenger_bond ≡ false = ground (arith, a.enough) in
    let early : ltb (add_u64 receipt_block window) block ≡ false = ground (arith, a.in_time) in
    rw (rich, early, a.first, a.sound_proof) refl

pub in_status_lem :
    {A : Type 0} (id : ℕ) (status : DisputeStatus) (e : DisputeEngine) (act : Dispute → Outcome A)
    (d : Dispute)
    → lookup id e.disputes ≡ some d
    → d.status ≡ status
    → in_status id status e act ≡ act d
in_status_lem id status e act d found is =
    rw (in_status, found, is, (==_iff (code status) (code status)).1 refl) refl

escalate_lem :
    (e : DisputeEngine) (id level : ℕ) (d : Dispute)
    → lookup id e.disputes ≡ some d
    → d.status ≡ validation_phase
    → escalate_to_verification id level e ≡ (
      stored id (record d { status = verification_escalation; verification_level = level }) e,
      ok tt,
    )
unfolding escalate_to_verification
escalate_lem e id level d found is = in_status_lem id validation_phase e _ d found is

verify_lem :
    (e : DisputeEngine) (id : ℕ) (result : VerificationResult) (d : Dispute)
    → lookup id e.disputes ≡ some d
    → d.status ≡ verification_escalation
    → submit_verification_result id result e
      ≡ (stored id (record d { status = adjudicating }) e, ok tt)
unfolding submit_verification_result
verify_lem e id result d found is = in_status_lem id verification_escalation e _ d found is

resolve_lem :
    (e : DisputeEngine) (id budget cost block : ℕ) (d : Dispute)
    → lookup id e.disputes ≡ some d
    → d.status ≡ adjudicating
    → resolve_dispute id budget cost block e ≡ (
      close_dispute id d (resolution_of d budget cost block e) e,
      ok (resolution_of d budget cost block e),
    )
unfolding resolve_dispute
resolve_lem e id budget cost block d found is = in_status_lem id adjudicating e _ d found is

pub lookup-set_escrow :
    (job : ℕ) (s : EscrowStatus) (m : Map ℕ EscrowState)
    → escrow_status (lookup job (set_escrow job s m)) ≡ set_to s (lookup job m)
unfolding set_escrow lookup
lookup-set_escrow job s m = elim (Option-cases (lookup job m)) [
  | inl absent ↦ rw (set_escrow, absent, absent) refl
  | inr (x, found) ↦ rw (set_escrow, found, lookup-insert_self) refl
]

set_to-set_escrow :
    (job : ℕ) (s t : EscrowStatus) (m : Map ℕ EscrowState)
    → set_to s (lookup job (set_escrow job t m)) ≡ set_to s (lookup job m)
unfolding set_escrow lookup
set_to-set_escrow job s t m = elim (Option-cases (lookup job m)) [
  | inl absent ↦ rw (set_escrow, absent, absent) refl
  | inr (x, found) ↦ rw (set_escrow, found, lookup-insert_self) refl
]

pub lookup-reduce_bond :
    (challenger bond slashed : ℕ) (m : Map ℕ ℕ)
    → lookup challenger m ≡ some bond
    → lookup challenger (reduce_bond challenger slashed m) ≡ some (bond - slashed)
unfolding reduce_bond lookup
lookup-reduce_bond challenger bond slashed m found =
    rw (reduce_bond, found, lookup-insert_self) refl

bond_settled :
    (confirmed : Bool) (challenger bond slashed : ℕ) (m : Map ℕ ℕ)
    → (confirmed ≡ false → slashed ≡ bond)
    → lookup challenger (
        if confirmed
        then remove challenger (insert challenger bond m)
        else reduce_bond challenger slashed (insert challenger bond m))
      ≡ (if confirmed then none else some 0)
bond_settled true challenger bond slashed m all = rw (lookup-remove, eqb_self challenger) refl
bond_settled false challenger bond slashed m all =
    lookup-reduce_bond challenger bond slashed _ (lookup-insert_self challenger bond m)
    ∙ ap some (omega (arith, all refl))

-- One course: who disputes what and when, and what the later calls bring.
pub record Course : Type 0 where
  pub job : ℕ
  pub receipt : ℕ
  pub proof : FraudProof
  pub challenger : ℕ
  pub bond : ℕ
  pub block : ℕ
  pub receipt_block : ℕ
  pub window : ℕ
  pub level : ℕ
  pub result : VerificationResult
  pub budget : ℕ
  pub cost : ℕ
  pub last : ℕ

module _ (h : Hashing) (c : Course) where
  abbrev pub name : ℕ
  name = h.dispute_id c.job c.receipt c.challenger c.block

  -- the four calls
  abbrev pub calls : List Call
  calls =
      initiate c.job c.receipt c.proof c.challenger c.bond c.block c.receipt_block c.window
      ∷ (escalate name c.level
          ∷ (verify name c.result ∷ (resolve name c.budget c.cost c.last ∷ [])))

  abbrev fresh_dispute : Dispute
  fresh_dispute = opened name c.job c.receipt c.proof c.challenger c.bond c.block c.window

  abbrev heard : Dispute
  heard = record fresh_dispute { status = adjudicating; verification_level = c.level }

  -- the engine before the last call
  abbrev before_last : DisputeEngine → DisputeEngine
  before_last e = stored name heard (
      stored name
        (record fresh_dispute { status = verification_escalation; verification_level = c.level })
        (open_dispute fresh_dispute e))

  abbrev after_last : DisputeEngine → DisputeEngine
  after_last e =
      close_dispute name heard (resolution_of heard c.budget c.cost c.last (before_last e))
        (before_last e)

  run-calls :
      (e : DisputeEngine)
      → IsAdmissible h e c.job c.bond c.block c.receipt_block c.window c.proof
      → run h calls e ≡ after_last e
  unfolding open_dispute opened
  run-calls e a =
      ap
        (λ (o : Outcome ℕ).
          run h
            (escalate name c.level
              ∷ (verify name c.result ∷ (resolve name c.budget c.cost c.last ∷ [])))
            o.0)
        (initiate_lem h e c.job c.receipt c.proof c.challenger c.bond c.block c.receipt_block
          c.window a)
      ∙ ap
          (λ (o : Outcome (Unit {0})).
            run h (verify name c.result ∷ (resolve name c.budget c.cost c.last ∷ [])) o.0)
          (escalate_lem _ name c.level fresh_dispute (lookup-insert_self name _ _) refl)
      ∙ ap (λ (o : Outcome (Unit {0})). run h (resolve name c.budget c.cost c.last ∷ []) o.0)
          (verify_lem _ name c.result _ (lookup-insert_self name _ _) refl)
      ∙ ap (λ (o : Outcome DisputeResolution). o.0)
          (resolve_lem _ name c.budget c.cost c.last _ (lookup-insert_self name _ _) refl)

  -- In every engine, a challenger with at least the minimum bond, in time, with a proof that can
  -- be serialized and a job that is not disputed gets a resolution by the four calls of the
  -- course: the dispute is then resolved, the escrow of the job, if there is one, is refunded if
  -- the two output hashes differ and released if not, and the bond is freed if they differ and
  -- reduced to 0 if not.
  pub course_resolves :
      (e : DisputeEngine)
      → IsAdmissible h e c.job c.bond c.block c.receipt_block c.window c.proof
      → (status_of (get_dispute name (run h calls e)) ≡ some resolved)
        × (escrow_status (get_escrow c.job (run h calls e))
            ≡ set_to (if is_fraud c.proof then refunded else released) (get_escrow c.job e))
        × (lookup c.challenger (run h calls e).frozen_bonds
            ≡ (if is_fraud c.proof then none else some 0))
  unfolding get_dispute get_escrow close_dispute open_dispute opened resolution_of
  course_resolves e a = rw (run-calls e a) (
    rw (lookup-insert_self name) refl,
    lookup-set_escrow c.job _ _ ∙ set_to-set_escrow c.job _ frozen e.job_escrow,
    bond_settled (is_fraud c.proof) c.challenger c.bond _ e.frozen_bonds
        (λ no. rw (resolution_of, no) refl),
  )
