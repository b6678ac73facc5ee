-- ===== src/Dispute/Bonds.antt =====
-- crates/intelligence/src/dispute.rs: two disputes of one challenger.
use lite_vision.Prelude.{
  ℕ, ◌≡◌, ◌≢◌, refl, sym, ap, ◌∙◌, Bool-cases, false, some, [], ◌∷◌, inl, inr,
}
use lite_vision.Ord.{nat_ord, eqb, eq_of_eqb}
use lite_vision.OrdMap.{lookup}
use lite_vision.OrdMap.Lookup.{lookup-insert, lookup-insert_self}
use lite_vision.Dispute.{FraudProof, validation_phase, Dispute, DisputeEngine}
use lite_vision.Dispute.Engine.{
  Hashing, is_disputed, opened, open_dispute, initiate_dispute, get_dispute, Outcome,
}
use lite_vision.Dispute.Calls.{initiate, run}
use lite_vision.Dispute.Sound.{IsCollisionFree}
use lite_vision.Dispute.Course.{status_of, IsAdmissible, initiate_lem, Course, name}

differ : (a b : ℕ) → a ≢ b → eqb a b ≡ false
differ a b h = elim (Bool-cases (eqb a b)) [
  | inl same ↦ absurd (h (eq_of_eqb a b same))
  | inr other ↦ other
]

-- A dispute of another job does not get in the way.
open_dispute-IsAdmissible :
    (h : Hashing) (e : DisputeEngine) (d : Dispute) (job bond block receipt_block window : ℕ)
    (proof : FraudProof)
    → d.job_id ≢ job
    → IsAdmissible h e job bond block receipt_block window proof
    → IsAdmissible h (open_dispute d e) job bond block receipt_block window proof
unfolding open_dispute is_disputed
open_dispute-IsAdmissible h e d job bond block receipt_block window proof n a = record {
  enough = a.enough;
  in_time = a.in_time;
  first = rw (is_disputed, lookup-insert, differ d.job_id job n) a.first;
  sound_proof = a.sound_proof;
}

abbrev pub both : Course → Course → DisputeEngine → Hashing → DisputeEngine
both c k e h =
    run h
      (initiate c.job c.receipt c.proof c.challenger c.bond c.block c.receipt_block c.window
        ∷ (initiate k.job k.receipt k.proof k.challenger k.bond k.block k.receipt_block k.window
            ∷ []))
      e

abbrev entry : Hashing → Course → Dispute
entry h c = opened (name h c) c.job c.receipt c.proof c.challenger c.bond c.block c.window

abbrev Admits : Hashing → DisputeEngine → Course → Type 0
Admits h e c = IsAdmissible h e c.job c.bond c.block c.receipt_block c.window c.proof

opens_both :
    (h : Hashing) (c k : Course) (e : DisputeEngine)
    → Admits h e c
    → Admits h e k
    → c.job ≢ k.job
    → both c k e h ≡ open_dispute (entry h k) (open_dispute (entry h c) e)
unfolding opened
opens_both h c k e a b jobs =
    ap
      (λ (o : Outcome ℕ).
        (initiate_dispute h k.job k.receipt k.proof k.challenger k.bond k.block k.receipt_block
          k.window o.0).0)
      (initiate_lem h e c.job c.receipt c.proof c.challenger c.bond c.block c.receipt_block c.window
        a)
    ∙ ap (λ (o : Outcome ℕ). o.0)
        (initiate_lem h _ k.job k.receipt k.proof k.challenger k.bond k.block k.receipt_block
          k.window
          (open_dispute-IsAdmissible h e (entry h c) k.job k.bond k.block k.receipt_block k.window
            k.proof jobs b))

-- Where ids of disputes of different jobs differ: when one challenger opens disputes for two jobs,
-- each admissible, both disputes stand, but only the bond of the second is frozen.
pub bond_replaced :
    (h : Hashing) (c k : Course) (e : DisputeEngine)
    → IsCollisionFree h
    → IsAdmissible h e c.job c.bond c.block c.receipt_block c.window c.proof
    → IsAdmissible h e k.job k.bond k.block k.receipt_block k.window k.proof
    → c.job ≢ k.job
    → c.challenger ≡ k.challenger
    → (status_of (get_dispute (name h c) (both c k e h)) ≡ some validation_phase)
      × (status_of (get_dispute (name h k) (both c k e h)) ≡ some validation_phase)
      × (lookup c.challenger (both c k e h).frozen_bonds ≡ some k.bond)
unfolding get_dispute open_dispute opened
bond_replaced h c k e free a b jobs same =
    let other : eqb (name h k) (name h c) ≡ false =
      differ (name h k) (name h c) (λ i. jobs (sym (free _ _ _ _ _ _ _ _ i))) in
    rw (opens_both h c k e a b jobs) (
      rw (lookup-insert (name h k) (name h c) _ _, other, lookup-insert_self (name h c) _ _) refl,
      rw (lookup-insert_self (name h k) _ _) refl,
      ap (λ (t : ℕ). lookup t (open_dispute (entry h k) (open_dispute (entry h c) e)).frozen_bonds)
            same
          ∙ lookup-insert_self k.challenger k.bond _,
    )
