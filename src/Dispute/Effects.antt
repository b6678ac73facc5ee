-- ===== src/Dispute/Effects.antt =====
-- crates/intelligence/src/dispute.rs: what an accepted call changes, and what it leaves alone.
use lite_vision.Prelude.{
  ℕ, ◌≤◌, ◌-◌, ◌≡◌, ◌⊎◌, refl, ap, Bool, true, false, Option, Option-cases, none, some,
  if◌then◌else◌, [], ◌∷◌, inl, inr,
}
use lite_vision.Ord.{nat_ord, eqb, eqb_self}
use lite_vision.OrdMap.{Map, lookup, insert, remove}
use lite_vision.OrdMap.Lookup.{lookup-insert, lookup-insert_self, lookup-remove}
use lite_vision.Dispute.{
  DisputeStatus, validation_phase, verification_escalation, adjudicating, resolved, appealed,
  EscrowStatus, active, frozen, released, refunded, EscrowState, Dispute, DisputeEngine,
}
use lite_vision.Dispute.Engine.{
  Hashing, stored, init_escrow, set_escrow, is_fraud, is_disputed, opened, open_dispute,
  reduce_bond, resolution_of, close_dispute,
}
use lite_vision.Dispute.Calls.{
  Call, escrow, initiate, escalate, verify, resolve, appeal, call, Move, escrowed, opens, escalates,
  verifies, resolves, appeals, call_lem,
}
use lite_vision.Dispute.Sound.{undisputed}
use lite_vision.Dispute.Course.{
  status_of, escrow_status, set_to, lookup-set_escrow, lookup-reduce_bond,
}

-- Two maps agree at every key but one.
abbrev pub SameBut : {V : Type 0} → ℕ → Map ℕ V → Map ℕ V → Type 0
SameBut k m n = (j : ℕ) → eqb k j ≡ false → lookup j n ≡ lookup j m

-- The dispute of an id, and no other, goes from a status to another, and no money moves.
pub record Passes (id : ℕ) (from to : DisputeStatus) (e f : DisputeEngine) : Type 0 where
  pub before : status_of (lookup id e.disputes) ≡ some from
  pub after : status_of (lookup id f.disputes) ≡ some to
  pub others : SameBut id e.disputes f.disputes
  pub lists : f.disputes_by_job ≡ e.disputes_by_job
  pub escrows : f.job_escrow ≡ e.job_escrow
  pub bonds : f.frozen_bonds ≡ e.frozen_bonds

pub record Escrows (job amount recipient : ℕ) (e f : DisputeEngine) : Type 0 where
  pub held :
      lookup job f.job_escrow
      ≡ some (record { job_id = job; amount = amount; status = active; recipient = some recipient })
  pub others : SameBut job e.job_escrow f.job_escrow
  pub disputes : f.disputes ≡ e.disputes
  pub lists : f.disputes_by_job ≡ e.disputes_by_job
  pub bonds : f.frozen_bonds ≡ e.frozen_bonds

pub record Opens (id job challenger bond : ℕ) (e f : DisputeEngine) : Type 0 where
  pub enough : e.min_challenger_bond ≤ bond
  pub undisputed : is_disputed job e ≡ false
  pub after : status_of (lookup id f.disputes) ≡ some validation_phase
  pub others : SameBut id e.disputes f.disputes
  pub listed : lookup job f.disputes_by_job ≡ some (id ∷ [])
  pub other_lists : SameBut job e.disputes_by_job f.disputes_by_job
  pub frozen_escrow :
      escrow_status (lookup job f.job_escrow) ≡ set_to frozen (lookup job e.job_escrow)
  pub other_escrows : SameBut job e.job_escrow f.job_escrow
  pub bonded : lookup challenger f.frozen_bonds ≡ some bond
  pub other_bonds : SameBut challenger e.frozen_bonds f.frozen_bonds

-- a bond after a resolution: freed, or less what is slashed
abbrev pub settled : Bool → ℕ → Option ℕ → Option ℕ
settled true slashed bond = none
settled false slashed none = none
settled false slashed (some bond) = some (bond - slashed)

pub record Resolves (id budget cost block : ℕ) (e f : DisputeEngine) : Type 0 where
  pub dispute : Dispute
  pub before : (lookup id e.disputes ≡ some dispute) × (dispute.status ≡ adjudicating)
  pub after : status_of (lookup id f.disputes) ≡ some resolved
  pub others : SameBut id e.disputes f.disputes
  pub lists : f.disputes_by_job ≡ e.disputes_by_job
  pub escrow_moves :
      escrow_status (lookup dispute.job_id f.job_escrow)
      ≡ set_to
          (if is_fraud dispute.fraud_proof then refunded else released)
          (lookup dispute.job_id e.job_escrow)
  pub other_escrows : SameBut dispute.job_id e.job_escrow f.job_escrow
  pub bond_settled :
      lookup dispute.challenger_id f.frozen_bonds
      ≡ settled
          (is_fraud dispute.fraud_proof)
          (resolution_of dispute budget cost block e).slashed_amount
          (lookup dispute.challenger_id e.frozen_bonds)
  pub other_bonds : SameBut dispute.challenger_id e.frozen_bonds f.frozen_bonds

-- what a call does when it is accepted
abbrev pub Effect : Hashing → Call → DisputeEngine → DisputeEngine → Type 0
Effect h (escrow job amount recipient) e f = Escrows job amount recipient e f
Effect h (initiate job receipt proof challenger bond block receipt_block window) e f =
    Opens (h.dispute_id job receipt challenger block) job challenger bond e f
Effect h (escalate id level) e f = Passes id validation_phase verification_escalation e f
Effect h (verify id result) e f = Passes id verification_escalation adjudicating e f
Effect h (resolve id budget cost block) e f = Resolves id budget cost block e f
Effect h (appeal id reason evidence bond block) e f = Passes id resolved appealed e f

insert-SameBut : {V : Type 0} (k : ℕ) (v : V) (m : Map ℕ V) → SameBut k m (insert k v m)
insert-SameBut k v m j differs = rw (lookup-insert, differs) refl

set_escrow-SameBut :
    (job : ℕ) (s : EscrowStatus) (m : Map ℕ EscrowState) → SameBut job m (set_escrow job s m)
unfolding set_escrow
set_escrow-SameBut job s m j differs = elim (Option-cases (lookup job m)) [
  | inl absent ↦ rw (set_escrow, absent) refl
  | inr (x, found) ↦ rw (set_escrow, found, lookup-insert, differs) refl
]

reduce_bond-SameBut : (who slashed : ℕ) (m : Map ℕ ℕ) → SameBut who m (reduce_bond who slashed m)
unfolding reduce_bond
reduce_bond-SameBut who slashed m j differs = elim (Option-cases (lookup who m)) [
  | inl absent ↦ rw (reduce_bond, absent) refl
  | inr (x, found) ↦ rw (reduce_bond, found, lookup-insert, differs) refl
]

-- the bonds after a resolution
abbrev bonds_after : Bool → ℕ → ℕ → Map ℕ ℕ → Map ℕ ℕ
bonds_after confirmed who slashed m = if confirmed then remove who m else reduce_bond who slashed m

bonds_after-SameBut :
    (confirmed : Bool) (who slashed : ℕ) (m : Map ℕ ℕ)
    → SameBut who m (bonds_after confirmed who slashed m)
bonds_after-SameBut true who slashed m j differs = rw (lookup-remove, differs) refl
bonds_after-SameBut false who slashed m j differs = reduce_bond-SameBut who slashed m j differs

lookup-bonds_after :
    (confirmed : Bool) (who slashed : ℕ) (m : Map ℕ ℕ)
    → lookup who (bonds_after confirmed who slashed m) ≡ settled confirmed slashed (lookup who m)
unfolding reduce_bond
lookup-bonds_after true who slashed m = rw (lookup-remove, eqb_self who) refl
lookup-bonds_after false who slashed m = elim (Option-cases (lookup who m)) [
  | inl absent ↦ rw (reduce_bond, absent, absent) refl
  | inr (x, found) ↦ rw found (lookup-reduce_bond who x slashed m found)
]

stored-Passes :
    (id : ℕ) (from to : DisputeStatus) (d x : Dispute) (e : DisputeEngine)
    → lookup id e.disputes ≡ some d
    → d.status ≡ from
    → x.status ≡ to
    → Passes id from to e (stored id x e)
stored-Passes id from to d x e found was is = record {
  before = rw found (ap some was);
  after = rw (lookup-insert_self id x e.disputes) (ap some is);
  others = insert-SameBut id x e.disputes;
  lists = refl;
  escrows = refl;
  bonds = refl;
}

Move-Effect : {h : Hashing} {e f : DisputeEngine} {c : Call} → Move h e c f → Effect h c e f
unfolding init_escrow opened open_dispute close_dispute
Move-Effect {e = e} (escrowed job amount recipient) = record {
  held = lookup-insert_self job _ e.job_escrow;
  others = insert-SameBut job _ e.job_escrow;
  disputes = refl;
  lists = refl;
  bonds = refl;
}
Move-Effect {e = e}
      (opens job receipt proof challenger bond block receipt_block window enough first) =
    record {
      enough = enough;
      undisputed = first;
      after = ap status_of (lookup-insert_self _ _ e.disputes);
      others = insert-SameBut _ _ e.disputes;
      listed = rw (undisputed job e first) (lookup-insert_self job _ e.disputes_by_job);
      other_lists = insert-SameBut job _ e.disputes_by_job;
      frozen_escrow = lookup-set_escrow job frozen e.job_escrow;
      other_escrows = set_escrow-SameBut job frozen e.job_escrow;
      bonded = lookup-insert_self challenger bond e.frozen_bonds;
      other_bonds = insert-SameBut challenger bond e.frozen_bonds;
    }
Move-Effect {e = e} (escalates id level d found is) = stored-Passes id _ _ d _ e found is refl
Move-Effect {e = e} (verifies id result d found is) = stored-Passes id _ _ d _ e found is refl
Move-Effect {e = e} (resolves id budget cost block d found is) = record {
  dispute = d;
  before = (found, is);
  after = ap status_of (lookup-insert_self id _ e.disputes);
  others = insert-SameBut id _ e.disputes;
  lists = refl;
  escrow_moves = lookup-set_escrow d.job_id _ e.job_escrow;
  other_escrows = set_escrow-SameBut d.job_id _ e.job_escrow;
  bond_settled = lookup-bonds_after (is_fraud d.fraud_proof) d.challenger_id _ e.frozen_bonds;
  other_bonds = bonds_after-SameBut (is_fraud d.fraud_proof) d.challenger_id _ e.frozen_bonds;
}
Move-Effect {e = e} (appeals id reason evidence bond block a d found is) =
    stored-Passes id _ _ d _ e found is refl

-- Every call is refused and changes nothing, or it is accepted and has the effect of its kind:
-- init_escrow sets the escrow of its job; initiate_dispute, for a job without a dispute and with
-- at least the minimum bond, puts the dispute of its id into validation, lists it for the job,
-- freezes the escrow of the job, if there is one, and stores the bond; escalate, verify and appeal
-- move one dispute from validation to escalation, from there to adjudication, and from a
-- resolution to an appeal; resolve_dispute moves one from adjudication to a resolution, refunds or
-- releases the escrow of its job, and frees the bond of its challenger or reduces it by what is
-- slashed. No call touches another dispute, the escrow or the list of another job, or the bond of
-- another challenger.
pub call-Effect :
    (h : Hashing) (c : Call) (e : DisputeEngine)
    → (((call h c e).1 ≡ false) × ((call h c e).0 ≡ e))
      ⊎ (((call h c e).1 ≡ true) × Effect h c e (call h c e).0)
call-Effect h c e = elim (call_lem h c e) [
  | inl refused ↦ inl refused
  | inr (yes_it, m) ↦ inr (yes_it, Move-Effect m)
]
