-- ===== src/Dispute/Final.antt =====
-- crates/intelligence/src/dispute.rs: what no later call takes back.
use lite_vision.Prelude.{
  ℕ, ◌≤◌, ◌≡◌, refl, sym, ap, ◌∙◌, Bool-cases, true, false, none, some, List, [], ◌∷◌, arith, inl,
  inr,
}
use mathlib.Core.Bool.{true≢false}
use mathlib.Core.Option.{some_inj, none-ne-some}
use lite_vision.Ord.{nat_ord, eqb, eq_of_eqb}
use lite_vision.OrdMap.{Map, lookup, insert}
use lite_vision.OrdMap.Lookup.{lookup-insert}
use lite_vision.Dispute.{adjudicating, DisputeResolution, Dispute, DisputeEngine}
use lite_vision.Dispute.Engine.{
  Hashing, init_escrow, code, is_disputed, opened, open_dispute, close_dispute,
}
use lite_vision.Dispute.Calls.{
  Call, call, run, Move, escrowed, opens, escalates, verifies, resolves, appeals, call_lem,
}
use lite_vision.Dispute.Sound.{IsSound, IsCollisionFree, IsPhase, run_from-IsSound, call-IsSound}

-- The dispute stands where it stood or further on, and its resolution is as it was.
pub record IsLater (d x : Dispute) : Type 0 where
  pub same_job : x.job_id ≡ d.job_id
  pub same_proof : x.fraud_proof ≡ d.fraud_proof
  pub same_challenger : x.challenger_id ≡ d.challenger_id
  pub same_bond : x.challenger_bond ≡ d.challenger_bond
  pub forward : code d.status ≤ code x.status
  pub final : (r : DisputeResolution) → d.resolution ≡ some r → x.resolution ≡ some r

stays : (d : Dispute) → IsLater d d
stays d = record {
  same_job = refl;
  same_proof = refl;
  same_challenger = refl;
  same_bond = refl;
  forward = omega arith;
  final = λ r e. e;
}

later : {c d x : Dispute} → IsLater c d → IsLater d x → IsLater c x
later a b = record {
  same_job = b.same_job ∙ a.same_job;
  same_proof = b.same_proof ∙ a.same_proof;
  same_challenger = b.same_challenger ∙ a.same_challenger;
  same_bond = b.same_bond ∙ a.same_bond;
  forward = omega (arith, a.forward, b.forward);
  final = λ r e. b.final r (a.final r e);
}

-- every dispute of m is in n, and later
abbrev Grows : Map ℕ Dispute → Map ℕ Dispute → Type 0
Grows m n =
    (id : ℕ) (d : Dispute)
    → lookup id m ≡ some d
    → (x : Dispute) × (lookup id n ≡ some x) × IsLater d x

insert-Grows :
    (id : ℕ) (x : Dispute) (m : Map ℕ Dispute)
    → ((d : Dispute) → lookup id m ≡ some d → IsLater d x)
    → Grows m (insert id x m)
insert-Grows id x m h j d e = elim (Bool-cases (eqb id j)) [
  | inl same ↦ (x, rw (lookup-insert, same) refl, h d (rw (eq_of_eqb id j same) e))
  | inr other ↦ (d, rw (lookup-insert, other) e, stays d)
]

-- The stored dispute is the one that was found.
moves_on :
    (id : ℕ) (d x : Dispute) (m : Map ℕ Dispute)
    → lookup id m ≡ some d
    → IsLater d x
    → Grows m (insert id x m)
moves_on id d x m found l = insert-Grows id x m λ c there. rw (some_inj.0 (sym there ∙ found)) l

-- no dispute has the id that a new one gets
fresh :
    (h : Hashing) (e : DisputeEngine) (job receipt challenger block : ℕ) (d : Dispute)
    → IsCollisionFree h
    → IsSound h e
    → is_disputed job e ≡ false
    → lookup (h.dispute_id job receipt challenger block) e.disputes ≡ some d
    → ⊥
unfolding is_disputed
fresh h e job receipt challenger block d free s first found =
    let f = s.filed _ d found in
    let same : job ≡ d.job_id = free _ _ _ _ _ _ _ _ f.named in
    let counted = s.counted _ d found in
    true≢false (sym (rw (same, is_disputed, counted) refl) ∙ first)

unresolved :
    {h : Hashing} {e : DisputeEngine} (id : ℕ) {d : Dispute}
    → IsSound h e
    → lookup id e.disputes ≡ some d
    → d.status ≡ adjudicating
    → d.resolution ≡ none
unresolved id {d} s found is =
    let phase : IsPhase adjudicating d.resolution d.appeal = rw is at (s.filed id d found).phase in
    phase.0

Move-Grows :
    {h : Hashing} {e f : DisputeEngine} {c : Call}
    → IsCollisionFree h
    → IsSound h e
    → Move h e c f
    → Grows e.disputes f.disputes
unfolding opened open_dispute close_dispute init_escrow
Move-Grows free s (escrowed job amount recipient) = λ id d found. (d, found, stays d)
Move-Grows free s
      (opens job receipt proof challenger bond block receipt_block window enough first) =
    insert-Grows _ _ _
      λ d found. absurd (fresh _ _ job receipt challenger block d free s first found)
Move-Grows free s (escalates id level d found is) = moves_on id d _ _ found (record {
  same_job = refl;
  same_proof = refl;
  same_challenger = refl;
  same_bond = refl;
  forward = rw is (omega arith);
  final = λ r e. e;
})
Move-Grows free s (verifies id result d found is) = moves_on id d _ _ found (record {
  same_job = refl;
  same_proof = refl;
  same_challenger = refl;
  same_bond = refl;
  forward = rw is (omega arith);
  final = λ r e. e;
})
Move-Grows free s (resolves id budget cost block d found is) = moves_on id d _ _ found (record {
  same_job = refl;
  same_proof = refl;
  same_challenger = refl;
  same_bond = refl;
  forward = rw is (omega arith);
  final = λ r e. absurd (none-ne-some r (sym (unresolved id s found is) ∙ e));
})
Move-Grows free s (appeals id reason evidence bond block a d found is) =
    moves_on id d _ _ found (record {
      same_job = refl;
      same_proof = refl;
      same_challenger = refl;
      same_bond = refl;
      forward = rw is (omega arith);
      final = λ r e. e;
    })

call-Grows :
    (h : Hashing) (c : Call) (e : DisputeEngine)
    → IsCollisionFree h
    → IsSound h e
    → Grows e.disputes (call h c e).0.disputes
call-Grows h c e free s = elim (call_lem h c e) [
  | inl (_, same) ↦ rw same (λ id d found. (d, found, stays d))
  | inr (_, m) ↦ Move-Grows free s m
]

run-Grows :
    (h : Hashing) (cs : List Call) (e : DisputeEngine)
    → IsCollisionFree h
    → IsSound h e
    → Grows e.disputes (run h cs e).disputes
run-Grows h [] e free s id d found = (d, found, stays d)
run-Grows h (c ∷ cs) e free s id d found =
    let (x, there, l) = call-Grows h c e free s id d found in
    let (y, last, m) = run-Grows h cs _ free (call-IsSound h c e free s) id x there in
    (y, last, later l m)

disputed :
    (h : Hashing) (e : DisputeEngine) (id : ℕ) (d : Dispute)
    → IsSound h e
    → lookup id e.disputes ≡ some d
    → is_disputed d.job_id e ≡ true
unfolding is_disputed
disputed h e id d s found = let counted = s.counted id d found in rw (is_disputed, counted) refl

-- Where ids of disputes of different jobs differ and the engine is sound, no sequence of calls
-- removes a dispute, changes its job, proof, challenger or bond, moves its status back, or changes
-- its resolution; and its job stays disputed, so that no second dispute is opened for it.
pub run-IsLater :
    (h : Hashing) (cs : List Call) (e : DisputeEngine) (id : ℕ) (d : Dispute)
    → IsCollisionFree h
    → IsSound h e
    → lookup id e.disputes ≡ some d
    → (x : Dispute) × (lookup id (run h cs e).disputes ≡ some x)
      × IsLater d x
      × (is_disputed d.job_id (run h cs e) ≡ true)
run-IsLater h cs e id d free s found =
    let (x, there, l) = run-Grows h cs e free s id d found in
    let after = run_from-IsSound h cs e free s in
    (
      x,
      there,
      l,
      ap (λ (t : ℕ). is_disputed t (run h cs e)) (sym l.same_job) ∙ disputed h _ id x after there,
    )
