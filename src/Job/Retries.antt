-- ===== src/Job/Retries.antt =====
-- crates/intelligence/src/job.rs: the retries of a job.
use lite_vision.Prelude.{
  ℕ, zero, suc, ◌-◌, ◌≤◌, ◌≡◌, refl, sym, ap, ◌∙◌, Bool, Bool-cases, true, false, ◌&&◌, ◌==◌, List,
  [], ◌∷◌, ltb, arith, inl, inr,
}
use mathlib.Core.Bool.{true≢false}
use lite_vision.Job.{
  Job, JobTicket, JobResult, ExecutionCost, JobStatus, pending, failed, cancelled, from_ticket,
  assign, start_execution, complete, fail, expire, dispute, cancel, can_retry, is_immediate,
  is_waiting,
}

-- the calls of a job
pub data Event : Type 0 where
  assigns : (operator block : ℕ) → Event
  starts : Event
  completes : (result : JobResult) (cost : ExecutionCost) (at : ℕ) → Event
  fails : Event
  expires : Event
  disputes : Event
  cancels : Event

abbrev pub apply : Event → Job → Job
apply (assigns operator block) job = assign operator block job
apply starts job = start_execution job
apply (completes result cost at) job = complete result cost at job
apply fails job = fail job
apply expires job = expire job
apply disputes job = dispute job
apply cancels job = cancel job

abbrev pub run : List Event → Job → Job
run [] job = job
run (e ∷ es) job = run es (apply e job)

-- A failed job has no retries left, and no job has more than its ticket allows.
pub record IsCounted (job : Job) : Type 0 where
  pub bounded : job.retries_remaining ≤ job.ticket.max_retries
  pub spent : job.status ≡ failed → job.retries_remaining ≡ 0

abbrev is_failed : JobStatus → Bool
is_failed failed = true
is_failed _ = false

not_failed : {A : Type 0} (s : JobStatus) → is_failed s ≡ false → s ≡ failed → A
not_failed s n e = absurd (true≢false (sym (ap is_failed e) ∙ n))

fail-IsCounted : (job : Job) → IsCounted job → IsCounted (fail job)
unfolding fail
fail-IsCounted job c = elim (Bool-cases (ltb 0 job.retries_remaining)) [
  | inl some_left ↦ rw some_left (elim (Bool-cases (job.retries_remaining - 1 == 0)) [
    | inl last ↦
        rw last (record { bounded = omega (arith, c.bounded); spent = λ _. ground (arith, last) })
    | inr more ↦
        rw more (record { bounded = omega (arith, c.bounded); spent = not_failed pending refl })
  ])
  | inr none_left ↦ rw none_left c
]

cancel-IsCounted : (job : Job) → IsCounted job → IsCounted (cancel job)
unfolding cancel
cancel-IsCounted job c =
    elim (Bool-cases (is_immediate job.ticket.cancellation_policy && is_waiting job.status)) [
      | inl may ↦ rw may (record { bounded = c.bounded; spent = not_failed cancelled refl })
      | inr may_not ↦ rw may_not c
    ]

apply-IsCounted : (e : Event) (job : Job) → IsCounted job → IsCounted (apply e job)
unfolding assign start_execution complete expire dispute
apply-IsCounted (assigns operator block) job c = record {
  bounded = omega arith;
  spent = not_failed _ refl;
}
apply-IsCounted starts job c = record { bounded = c.bounded; spent = not_failed _ refl }
apply-IsCounted (completes result cost at) job c = record {
  bounded = c.bounded;
  spent = not_failed _ refl;
}
apply-IsCounted fails job c = fail-IsCounted job c
apply-IsCounted expires job c = record { bounded = c.bounded; spent = not_failed _ refl }
apply-IsCounted disputes job c = record { bounded = c.bounded; spent = not_failed _ refl }
apply-IsCounted cancels job c = cancel-IsCounted job c

run-IsCounted : (es : List Event) (job : Job) → IsCounted job → IsCounted (run es job)
run-IsCounted [] job c = c
run-IsCounted (e ∷ es) job c = run-IsCounted es (apply e job) (apply-IsCounted e job c)

no_retry : (job : Job) → IsCounted job → job.status ≡ failed → can_retry job ≡ false
unfolding can_retry
no_retry job c e = rw (c.spent e) (ground arith)

-- Whatever sequence of calls a job has seen since its submission: if it is failed, can_retry
-- answers false.
pub run_never_retries :
    (es : List Event) (ticket : JobTicket) (created_at : ℕ)
    → (run es (from_ticket ticket created_at)).status ≡ failed
    → can_retry (run es (from_ticket ticket created_at)) ≡ false
unfolding from_ticket
run_never_retries es ticket created_at =
    no_retry _
      (run-IsCounted es _ (record { bounded = omega arith; spent = not_failed pending refl }))

-- assigned and failed, n times
abbrev rounds : ℕ → ℕ → ℕ → Job → Job
rounds zero operator block job = job
rounds (suc n) operator block job = fail (assign operator block (rounds n operator block job))

pub fail_ticket : (job : Job) → (fail job).ticket ≡ job.ticket
unfolding fail
fail_ticket job = elim (Bool-cases (ltb 0 job.retries_remaining)) [
  | inl some_left ↦ rw some_left refl
  | inr none_left ↦ rw none_left refl
]

rounds_ticket :
    (n operator block : ℕ) (job : Job) → (rounds n operator block job).ticket ≡ job.ticket
unfolding assign
rounds_ticket zero operator block job = refl
rounds_ticket (suc n) operator block job =
    fail_ticket (assign operator block (rounds n operator block job))
    ∙ rounds_ticket n operator block job

-- a failure with more than one retry left
pub fails_to_pending :
    (job : Job)
    → 2 ≤ job.retries_remaining
    → ((fail job).status ≡ pending) × ((fail job).retries_remaining ≡ job.retries_remaining - 1)
unfolding fail
fails_to_pending job h =
    let some_left : ltb 0 job.retries_remaining ≡ true = ground (arith, h) in
    let more : (job.retries_remaining - 1 == 0) ≡ false = ground (arith, h) in
    rw (some_left, more) (refl, refl)

-- A job whose ticket allows two retries or more is pending again, with one retry less than the
-- ticket allows, after any positive number of rounds of assignment and failure: it never runs out
-- of them.
rounds-pending :
    (n operator block : ℕ) (job : Job)
    → 2 ≤ job.ticket.max_retries
    → ((rounds (suc n) operator block job).status ≡ pending)
      × ((rounds (suc n) operator block job).retries_remaining ≡ job.ticket.max_retries - 1)
unfolding assign
rounds-pending n operator block job h =
    let kept = rounds_ticket n operator block job in
    let (waits, left) =
      fails_to_pending (assign operator block (rounds n operator block job))
        (rw (assign, kept) h) in
    (waits, left ∙ ap (λ (t : JobTicket). t.max_retries - 1) kept)
