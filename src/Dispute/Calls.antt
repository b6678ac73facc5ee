-- ===== src/Dispute/Calls.antt =====
-- crates/intelligence/src/dispute.rs: the calls of DisputeEngine as values, and what each may do.
use lite_vision.Prelude.{
  ℕ, ◌==◌, ◌≤◌, ==_iff, ◌≡◌, refl, sym, ap, ◌∙◌, Bool, Bool-cases, true, false, not, Option,
  Option-cases, some, List, [], ◌∷◌, ltb, if◌then◌else◌, add_u64, Result, ok, err, arith, ◌⊎◌, inl,
  inr,
}
use lite_vision.Ord.{nat_ord}
use lite_vision.OrdMap.{lookup}
use lite_vision.Dispute.{
  FraudProof, EvidenceBundle, DisputeStatus, pending, validation_phase, verification_escalation,
  adjudicating, resolved, appealed, canceled, AppealReason, Appeal, Dispute, VerificationResult,
  DisputeEngine, DisputeError,
}
use lite_vision.Dispute.Engine.{
  Outcome, Hashing, code, same_status, in_status, stored, init_escrow, is_disputed, opened,
  open_dispute, initiate_dispute, escalate_to_verification, submit_verification_result,
  resolution_of, close_dispute, resolve_dispute, submit_appeal, appeal_too_late,
}

abbrev uncode : ℕ → DisputeStatus
uncode n =
    if n == 0
    then pending
    else if n == 1
    then validation_phase
    else if n == 2
    then verification_escalation
    else if n == 3
    then adjudicating
    else if n == 4
    then resolved
    else if n == 5
    then appealed
    else canceled

uncode-code : (s : DisputeStatus) → uncode (code s) ≡ s
uncode-code pending = refl
uncode-code validation_phase = refl
uncode-code verification_escalation = refl
uncode-code adjudicating = refl
uncode-code resolved = refl
uncode-code appealed = refl
uncode-code canceled = refl

pub eq_of_same_status : (a b : DisputeStatus) → same_status a b ≡ true → a ≡ b
eq_of_same_status a b e =
    sym (uncode-code a) ∙ ap uncode ((==_iff (code a) (code b)).0 e) ∙ uncode-code b

pub data Call : Type 0 where
  escrow : (job amount recipient : ℕ) → Call
  initiate :
      (job receipt : ℕ) (proof : FraudProof) (challenger bond block receipt_block window : ℕ) → Call
  escalate : (id level : ℕ) → Call
  verify : (id : ℕ) (result : VerificationResult) → Call
  resolve : (id budget cost block : ℕ) → Call
  appeal :
      (id : ℕ) (reason : AppealReason) (evidence : Option EvidenceBundle) (bond block : ℕ) → Call

abbrev is_ok : {A : Type 0} → Result DisputeError A → Bool
is_ok (ok _) = true
is_ok (err _) = false

-- whether the call was accepted
abbrev accepted : {A : Type 0} → Outcome A → DisputeEngine × Bool
accepted o = (o.0, is_ok o.1)

abbrev pub call : Hashing → Call → DisputeEngine → DisputeEngine × Bool
call h (escrow job amount recipient) e = (init_escrow job amount recipient e, true)
call h (initiate job receipt proof challenger bond block receipt_block window) e =
    accepted (initiate_dispute h job receipt proof challenger bond block receipt_block window e)
call h (escalate id level) e = accepted (escalate_to_verification id level e)
call h (verify id result) e = accepted (submit_verification_result id result e)
call h (resolve id budget cost block) e = accepted (resolve_dispute id budget cost block e)
call h (appeal id reason evidence bond block) e =
    accepted (submit_appeal id reason evidence bond block e)

abbrev pub run : Hashing → List Call → DisputeEngine → DisputeEngine
run h [] e = e
run h (c ∷ cs) e = run h cs (call h c e).0

-- The ways in which an accepted call changes the engine.
pub data Move (h : Hashing) (e : DisputeEngine) : Call → DisputeEngine → Type 0 where
  escrowed :
      (job amount recipient : ℕ)
      → Move h e (escrow job amount recipient) (init_escrow job amount recipient e)
  opens :
      (job receipt : ℕ) (proof : FraudProof) (challenger bond block receipt_block window : ℕ)
      → e.min_challenger_bond ≤ bond
      → is_disputed job e ≡ false
      → Move h e (initiate job receipt proof challenger bond block receipt_block window) (
          open_dispute
            (opened
              (h.dispute_id job receipt challenger block)
              job
              receipt
              proof
              challenger
              bond
              block
              window)
            e)
  escalates :
      (id level : ℕ) (d : Dispute)
      → lookup id e.disputes ≡ some d
      → d.status ≡ validation_phase
      → Move h e
          (escalate id level)
          (stored id (record d { status = verification_escalation; verification_level = level }) e)
  verifies :
      (id : ℕ) (result : VerificationResult) (d : Dispute)
      → lookup id e.disputes ≡ some d
      → d.status ≡ verification_escalation
      → Move h e (verify id result) (stored id (record d { status = adjudicating }) e)
  resolves :
      (id budget cost block : ℕ) (d : Dispute)
      → lookup id e.disputes ≡ some d
      → d.status ≡ adjudicating
      → Move h e
          (resolve id budget cost block)
          (close_dispute id d (resolution_of d budget cost block e) e)
  appeals :
      (id : ℕ) (reason : AppealReason) (evidence : Option EvidenceBundle) (bond block : ℕ)
      (a : Appeal) (d : Dispute)
      → lookup id e.disputes ≡ some d
      → d.status ≡ resolved
      → Move h e
          (appeal id reason evidence bond block)
          (stored id (record d { appeal = some a; status = appealed }) e)

data Does {A : Type 0} (h : Hashing) (e : DisputeEngine) (c : Call) (o : Outcome A) : Type 0 where
  refuses : is_ok o.1 ≡ false → o.0 ≡ e → Does h e c o
  moves : is_ok o.1 ≡ true → Move h e c o.0 → Does h e c o

guarded :
    {A : Type 0} {h : Hashing} {e : DisputeEngine} {c : Call} {rest : Outcome A} (x : DisputeError)
    (b : Bool)
    → (b ≡ false → Does h e c rest)
    → Does h e c (if b then (e, err x) else rest)
guarded x true f = refuses refl refl
guarded x false f = f refl

in_status-Does :
    {A : Type 0} (h : Hashing) (id : ℕ) (status : DisputeStatus) (e : DisputeEngine) (c : Call)
    (act : Dispute → Outcome A)
    → ((d : Dispute) → lookup id e.disputes ≡ some d → d.status ≡ status → Does h e c (act d))
    → Does h e c (in_status id status e act)
in_status-Does h id status e c act acts = elim (Option-cases (lookup id e.disputes)) [
  | inl absent ↦ rw (in_status, absent) (refuses refl refl)
  | inr (d, found) ↦
      rw (in_status, found)
        (elim (Bool-cases (same_status d.status status)) [
          | inl same ↦ rw same (acts d found (eq_of_same_status d.status status same))
          | inr other ↦ rw other (refuses refl refl)
        ])
]

Answer : Hashing → DisputeEngine → Call → DisputeEngine × Bool → Type 0
Answer h e c r = ((r.1 ≡ false) × (r.0 ≡ e)) ⊎ ((r.1 ≡ true) × Move h e c r.0)

answer :
    {A : Type 0} {h : Hashing} {e : DisputeEngine} {c : Call} (o : Outcome A)
    → Does h e c o
    → Answer h e c (accepted o)
unfolding Answer
answer o (refuses n same) = inl (n, same)
answer o (moves y m) = inr (y, m)

initiate_dispute-Does :
    (h : Hashing) (job receipt : ℕ) (proof : FraudProof)
    (challenger bond block receipt_block window : ℕ) (e : DisputeEngine)
    → Does h e
        (initiate job receipt proof challenger bond block receipt_block window)
        (initiate_dispute h job receipt proof challenger bond block receipt_block window e)
unfolding initiate_dispute
initiate_dispute-Does h job receipt proof challenger bond block receipt_block window e =
    guarded _ (ltb bond e.min_challenger_bond) λ enough.
      guarded _ (ltb (add_u64 receipt_block window) block) λ _.
        guarded _ (is_disputed job e) λ first. guarded _ (not (h.serializes proof)) λ _.
          moves refl (
            opens job receipt proof challenger bond block receipt_block window
              (ground (arith, enough)) first)

submit_appeal-Does :
    (h : Hashing) (id : ℕ) (reason : AppealReason) (evidence : Option EvidenceBundle)
    (bond block : ℕ) (e : DisputeEngine)
    → Does h e
        (appeal id reason evidence bond block)
        (submit_appeal id reason evidence bond block e)
unfolding submit_appeal
submit_appeal-Does h id reason evidence bond block e =
    in_status-Does h id resolved e _ _ λ d found s.
      guarded _ (appeal_too_late d.resolution block)
        λ _. moves refl (appeals id reason evidence bond block _ d found s)

-- Every call is refused and changes nothing, or it is accepted and makes its move.
pub call_lem :
    (h : Hashing) (c : Call) (e : DisputeEngine)
    → (((call h c e).1 ≡ false) × ((call h c e).0 ≡ e))
      ⊎ (((call h c e).1 ≡ true) × Move h e c (call h c e).0)
unfolding Answer init_escrow escalate_to_verification submit_verification_result resolve_dispute
call_lem h (escrow job amount recipient) e = inr (refl, escrowed job amount recipient)
call_lem h (initiate job receipt proof challenger bond block receipt_block window) e =
    answer _
      (initiate_dispute-Does h job receipt proof challenger bond block receipt_block window e)
call_lem h (escalate id level) e = answer _ (
    in_status-Does h id validation_phase e _ _
      λ d found s. moves refl (escalates id level d found s))
call_lem h (verify id result) e = answer _ (
    in_status-Does h id verification_escalation e _ _
      λ d found s. moves refl (verifies id result d found s))
call_lem h (resolve id budget cost block) e = answer _ (
    in_status-Does h id adjudicating e _ _
      λ d found s. moves refl (resolves id budget cost block d found s))
call_lem h (appeal id reason evidence bond block) e =
    answer _ (submit_appeal-Does h id reason evidence bond block e)
