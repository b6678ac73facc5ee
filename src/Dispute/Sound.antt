-- ===== src/Dispute/Sound.antt =====
-- crates/intelligence/src/dispute.rs: what every history of calls leaves true of a DisputeEngine.
use lite_vision.Prelude.{
  ℕ, ◌≤◌, ◌≡◌, refl, sym, ap, ◌∙◌, Bool-cases, false, Option, none, some, List, [], ◌∷◌, get_or,
  arith, inl, inr,
}
use mathlib.Core.Bool.{true≢false}
use mathlib.Core.Option.{some_inj, none-ne-some}
use lite_vision.Ord.{nat_ord, eqb, eq_of_eqb}
use lite_vision.OrdMap.{Map, lookup, insert}
use lite_vision.OrdMap.Lookup.{lookup-insert, lookup-insert_self}
use lite_vision.Dispute.{
  DisputeStatus, pending, resolved, appealed, canceled, DisputeResolution, Appeal, Dispute,
  DisputeEngine, default_distribution,
}
use lite_vision.Dispute.Engine.{
  Hashing, new, init_escrow, stored, is_disputed, opened, open_dispute, close_dispute,
}
use lite_vision.Dispute.Calls.{
  Call, call, run, Move, escrowed, opens, escalates, verifies, resolves, appeals, call_lem,
}
use lite_vision.Dispute.Shares.{IsShared, resolution_of-IsShared}

-- The status tells whether there is a resolution and an appeal.
abbrev pub IsPhase : DisputeStatus → Option DisputeResolution → Option Appeal → Type 0
IsPhase resolved r a = (x : DisputeResolution) × (r ≡ some x) × IsShared x × (a ≡ none)
IsPhase appealed r a =
    (x : DisputeResolution) × (r ≡ some x) × IsShared x × ((y : Appeal) × (a ≡ some y))
IsPhase pending r a = ⊥
IsPhase canceled r a = ⊥
IsPhase _ r a = (r ≡ none) × (a ≡ none)

-- A dispute as it stands in the engine under `id`.
pub record IsFiled (h : Hashing) (least : ℕ) (id : ℕ) (d : Dispute) : Type 0 where
  pub named : id ≡ h.dispute_id d.job_id d.receipt_hash d.challenger_id d.created_at_block
  pub bonded : least ≤ d.challenger_bond
  pub phase : IsPhase d.status d.resolution d.appeal

abbrev AllFiled : Hashing → ℕ → Map ℕ Dispute → Type 0
AllFiled h least m = (id : ℕ) (d : Dispute) → lookup id m ≡ some d → IsFiled h least id d

-- A job has one dispute at most, and the list of the job names it.
abbrev AllListed : Map ℕ Dispute → Map ℕ (List ℕ) → Type 0
AllListed m jobs =
    (job : ℕ) (ids : List ℕ)
    → lookup job jobs ≡ some ids
    → (id : ℕ) × (d : Dispute) × (ids ≡ id ∷ []) × (lookup id m ≡ some d) × (d.job_id ≡ job)

-- and the list of the job of a dispute names it alone
abbrev IsCounted : ℕ → ℕ → Map ℕ (List ℕ) → Type 0
IsCounted id job jobs = lookup job jobs ≡ some (id ∷ [])

abbrev AllCounted : Map ℕ Dispute → Map ℕ (List ℕ) → Type 0
AllCounted m jobs = (id : ℕ) (d : Dispute) → lookup id m ≡ some d → IsCounted id d.job_id jobs

pub record IsSound (h : Hashing) (e : DisputeEngine) : Type 0 where
  pub filed : AllFiled h e.min_challenger_bond e.disputes
  pub listed : AllListed e.disputes e.disputes_by_job
  pub counted : AllCounted e.disputes e.disputes_by_job
  pub usual : e.slash_distribution ≡ default_distribution

-- Ids of disputes of different jobs differ.
abbrev pub IsCollisionFree : Hashing → Type 0
IsCollisionFree h =
    (j r c b j' r' c' b' : ℕ) → h.dispute_id j r c b ≡ h.dispute_id j' r' c' b' → j ≡ j'

insert-AllFiled :
    (h : Hashing) (least id : ℕ) (d : Dispute) (m : Map ℕ Dispute)
    → AllFiled h least m
    → IsFiled h least id d
    → AllFiled h least (insert id d m)
insert-AllFiled h least id d m all one j x e = elim (Bool-cases (eqb id j)) [
  | inl same ↦
      let found : some d ≡ some x = rw (lookup-insert, same) at e in
      rw (← eq_of_eqb id j same, ← some_inj.0 found) one
  | inr other ↦ all j x (rw (lookup-insert, other) at e)
]

-- The entry that is replaced, if there is one, is of the same job.
abbrev Agrees : ℕ → Dispute → Map ℕ Dispute → Type 0
Agrees id d m = (old : Dispute) → lookup id m ≡ some old → d.job_id ≡ old.job_id

keeps_job :
    (id : ℕ) (d : Dispute) (m : Map ℕ Dispute)
    → Agrees id d m
    → (j : ℕ) (x : Dispute) → lookup j m ≡ some x
    → (y : Dispute) × (lookup j (insert id d m) ≡ some y) × (y.job_id ≡ x.job_id)
keeps_job id d m agrees j x e = elim (Bool-cases (eqb id j)) [
  | inl same ↦ (d, rw (lookup-insert, same) refl, agrees x (rw (eq_of_eqb id j same) e))
  | inr other ↦ (x, rw (lookup-insert, other) e, refl)
]

insert-AllListed :
    (id : ℕ) (d : Dispute) (m : Map ℕ Dispute) (jobs : Map ℕ (List ℕ))
    → Agrees id d m
    → AllListed m jobs
    → AllListed (insert id d m) jobs
insert-AllListed id d m jobs agrees all job ids e =
    let (j, x, single, found, of_job) = all job ids e in
    let (y, there, same) = keeps_job id d m agrees j x found in (j, y, single, there, same ∙ of_job)

first-AllListed :
    (job id : ℕ) (d : Dispute) (m : Map ℕ Dispute) (jobs : Map ℕ (List ℕ))
    → lookup id m ≡ some d
    → d.job_id ≡ job
    → AllListed m jobs
    → AllListed m (insert job (id ∷ []) jobs)
first-AllListed job id d m jobs found of_job all other ids e = elim (Bool-cases (eqb job other)) [
  | inl same ↦
      let listed : some (id ∷ []) ≡ some ids = rw (lookup-insert, same) at e in
      (id, d, sym (some_inj.0 listed), found, of_job ∙ eq_of_eqb job other same)
  | inr differs ↦ all other ids (rw (lookup-insert, differs) at e)
]

insert-AllCounted :
    (id : ℕ) (d : Dispute) (m : Map ℕ Dispute) (jobs : Map ℕ (List ℕ))
    → AllCounted m jobs
    → IsCounted id d.job_id jobs
    → AllCounted (insert id d m) jobs
insert-AllCounted id d m jobs all one j x e = elim (Bool-cases (eqb id j)) [
  | inl same ↦
      let found : some d ≡ some x = rw (lookup-insert, same) at e in
      rw (← some_inj.0 found, ← eq_of_eqb id j same) one
  | inr other ↦ all j x (rw (lookup-insert, other) at e)
]

pub undisputed :
    (job : ℕ) (e : DisputeEngine)
    → is_disputed job e ≡ false
    → get_or (lookup job e.disputes_by_job) [] ≡ []
unfolding is_disputed
undisputed job e h = ground arith

-- no dispute that is stored is of a job that is not disputed
other_job :
    (job : ℕ) (e : DisputeEngine)
    → AllCounted e.disputes e.disputes_by_job
    → is_disputed job e ≡ false
    → (j : ℕ) (x : Dispute) → lookup j e.disputes ≡ some x
    → eqb job x.job_id ≡ false
unfolding is_disputed
other_job job e all first j x found = elim (Bool-cases (eqb job x.job_id)) [
  | inl same ↦
      let disputed = all j x found in
      absurd
        (true≢false (sym (rw (eq_of_eqb job x.job_id same, is_disputed, disputed) refl) ∙ first))
  | inr other ↦ other
]

first-AllCounted :
    (job id : ℕ) (e : DisputeEngine)
    → AllCounted e.disputes e.disputes_by_job
    → is_disputed job e ≡ false
    → AllCounted e.disputes (insert job (id ∷ []) e.disputes_by_job)
first-AllCounted job id e all first j x found =
    rw (lookup-insert, other_job job e all first j x found) (all j x found)

opens-IsSound :
    (h : Hashing) (e : DisputeEngine) (d : Dispute)
    → IsCollisionFree h
    → IsSound h e
    → is_disputed d.job_id e ≡ false
    → IsFiled h e.min_challenger_bond d.id d
    → IsSound h (open_dispute d e)
unfolding open_dispute
opens-IsSound h e d free s first one = record {
  filed = insert-AllFiled h e.min_challenger_bond d.id d e.disputes s.filed one;
  listed = rw (undisputed d.job_id e first) (
      first-AllListed d.job_id d.id d _ e.disputes_by_job (lookup-insert_self d.id d e.disputes)
        refl (insert-AllListed d.id d e.disputes e.disputes_by_job agrees s.listed));
  counted = rw (undisputed d.job_id e first) (
      insert-AllCounted d.id d e.disputes _ (first-AllCounted d.job_id d.id e s.counted first)
        (lookup-insert_self d.job_id _ e.disputes_by_job));
  usual = s.usual;
}
  where
    agrees : Agrees d.id d e.disputes
    agrees old found = free _ _ _ _ _ _ _ _ (sym one.named ∙ (s.filed d.id old found).named)

-- A dispute moves on: its job and its name stay.
stores-IsSound :
    (h : Hashing) (e : DisputeEngine) (id : ℕ) (old d : Dispute)
    → IsSound h e
    → lookup id e.disputes ≡ some old
    → d.job_id ≡ old.job_id
    → IsFiled h e.min_challenger_bond id d
    → IsSound h (stored id d e)
stores-IsSound h e id old d s found of_job one = record {
  filed = insert-AllFiled h e.min_challenger_bond id d e.disputes s.filed one;
  listed =
      insert-AllListed id d e.disputes e.disputes_by_job
        (λ x there. of_job ∙ ap (λ (t : Dispute). t.job_id) (some_inj.0 (sym found ∙ there)))
        s.listed;
  counted =
      insert-AllCounted id d e.disputes e.disputes_by_job s.counted
        (rw of_job (s.counted id old found));
  usual = s.usual;
}

Move-IsSound :
    {h : Hashing} {e f : DisputeEngine} {c : Call}
    → IsCollisionFree h
    → IsSound h e
    → Move h e c f
    → IsSound h f
unfolding opened open_dispute close_dispute init_escrow
Move-IsSound free s (escrowed job amount recipient) = record {
  filed = s.filed;
  listed = s.listed;
  counted = s.counted;
  usual = s.usual;
}
Move-IsSound free s
      (opens job receipt proof challenger bond block receipt_block window enough first) =
    opens-IsSound _ _ _ free s first
      (record { named = refl; bonded = enough; phase = (refl, refl) })
Move-IsSound free s (escalates id level d found is) =
    let f = s.filed id d found in
    stores-IsSound _ _ id d _ s found refl
      (record { named = f.named; bonded = f.bonded; phase = rw is at f.phase })
Move-IsSound free s (verifies id result d found is) =
    let f = s.filed id d found in
    stores-IsSound _ _ id d _ s found refl
      (record { named = f.named; bonded = f.bonded; phase = rw is at f.phase })
Move-IsSound free s (resolves id budget cost block d found is) =
    let f = s.filed id d found in
    let phase = rw is at f.phase in
    let t = stores-IsSound _ _ id d _ s found refl (record {
      named = f.named;
      bonded = f.bonded;
      phase = (_, refl, resolution_of-IsShared d budget cost block _ s.usual, phase.1);
    }) in
    record { filed = t.filed; listed = t.listed; counted = t.counted; usual = t.usual }
Move-IsSound free s (appeals id reason evidence bond block a d found is) =
    let f = s.filed id d found in
    let (x, r, shared, _) = rw is at f.phase in
    stores-IsSound _ _ id d _ s found refl
      (record { named = f.named; bonded = f.bonded; phase = (x, r, shared, (a, refl)) })

pub call-IsSound :
    (h : Hashing) (c : Call) (e : DisputeEngine)
    → IsCollisionFree h
    → IsSound h e
    → IsSound h (call h c e).0
call-IsSound h c e free s = elim (call_lem h c e) [
  | inl (_, same) ↦ rw same s
  | inr (_, m) ↦ Move-IsSound free s m
]

pub run_from-IsSound :
    (h : Hashing) (cs : List Call) (e : DisputeEngine)
    → IsCollisionFree h
    → IsSound h e
    → IsSound h (run h cs e)
run_from-IsSound h [] e free s = s
run_from-IsSound h (c ∷ cs) e free s = run_from-IsSound h cs _ free (call-IsSound h c e free s)

-- Where ids of disputes of different jobs differ, after any sequence of calls on a new engine,
-- accepted or refused: every dispute is filed under the id of its contents with at least the
-- minimum bond; it has a resolution exactly if it is resolved or appealed, whose shares are at
-- most the amount slashed, and an appeal exactly if it is appealed; the list of the job of a
-- dispute names that dispute alone, so that a job has at most one, and every list names a stored
-- dispute of its job; and the ratios are the default ones.
pub run-IsSound :
    (h : Hashing) (cs : List Call) (bond slash alpha beta : ℕ)
    → IsCollisionFree h
    → IsSound h (run h cs (new bond slash alpha beta))
unfolding new lookup
run-IsSound h cs bond slash alpha beta free = run_from-IsSound h cs _ free (record {
  filed = λ id d e. absurd (none-ne-some _ e);
  listed = λ job ids e. absurd (none-ne-some _ e);
  counted = λ id d e. absurd (none-ne-some _ e);
  usual = refl;
})
