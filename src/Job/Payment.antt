-- ===== src/Job/Payment.antt =====
-- crates/intelligence/src/job.rs: what the completion of a job pays back, and what happens to a job
-- that is submitted or failed out of turn.
use lite_vision.Prelude.{
  ℕ, ◌+◌, ◌-◌, ◌≤◌, ◌<◌, ◌≡◌, refl, ap, ◌∙◌, true, false, some, length, leb, arith, ok, err,
}
use lite_vision.Ord.{nat_ord}
use lite_vision.OrdMap.{lookup, contains_key}
use lite_vision.OrdMap.Lookup.{lookup-insert_self}
use lite_vision.Job.{
  Job, JobTicket, JobResult, Budget, ExecutionCost, pending, is_running, can_cover, from_ticket,
  assign, complete, fail, refund_amount,
}
use lite_vision.Job.Executor.{
  JobExecutorInner, Outcome, job_already_exists, with_job, stored, submit, submit_ticket,
  submit_job, get_job, assign_job, complete_job, fail_job,
}
use lite_vision.Job.Retries.{fails_to_pending, fail_ticket}

with_job_lem :
    {A : Type 0} (id : ℕ) (s : JobExecutorInner) (act : Job → Outcome A) (job : Job)
    → lookup id s.jobs ≡ some job
    → with_job id s act ≡ act job
with_job_lem id s act job found = rw (with_job, found) refl

covered_fee :
    (b : Budget) (c : ExecutionCost) → can_cover b c ≡ true → c.total_fee ≤ b.max_total_fee
unfolding can_cover
covered_fee b c h = ground (arith, h)

accepted :
    (id : ℕ) (result : JobResult) (block : ℕ) (s : JobExecutorInner) (job : Job)
    → lookup id s.jobs ≡ some job
    → is_running job.status ≡ true
    → can_cover job.ticket.budget result.compute_used ≡ true
    → complete_job id result block s ≡ (
      stored id (complete result result.compute_used block job) s,
      ok (job.ticket.budget.max_total_fee - result.compute_used.total_fee),
    )
unfolding complete_job
accepted id result block s job found runs covers =
    with_job_lem id s _ job found ∙ rw (runs, covers) refl

-- The completion of an assigned or executing job within its budget is accepted; the refund it
-- answers and the fee add up to the budget, and refund_amount of the stored job is that refund.
pub complete_job-refund_amount :
    (id : ℕ) (result : JobResult) (block : ℕ) (s : JobExecutorInner) (job : Job)
    → lookup id s.jobs ≡ some job
    → is_running job.status ≡ true
    → can_cover job.ticket.budget result.compute_used ≡ true
    → (refund : ℕ) × (done : Job) × ((complete_job id result block s).1 ≡ ok refund)
      × (refund + result.compute_used.total_fee ≡ job.ticket.budget.max_total_fee)
      × (get_job id (complete_job id result block s).0 ≡ some done)
      × (refund_amount done ≡ refund)
unfolding get_job refund_amount complete
complete_job-refund_amount id result block s job found runs covers =
    let e = accepted id result block s job found runs covers in
    (
      job.ticket.budget.max_total_fee - result.compute_used.total_fee,
      complete result result.compute_used block job,
      ap (λ (o : Outcome ℕ). o.1) e,
      omega (arith, covered_fee job.ticket.budget result.compute_used covers),
      rw e (lookup-insert_self id _ _),
      refl,
    )

reassigned :
    (id operator block : ℕ) (s : JobExecutorInner) (job : Job)
    → lookup id s.jobs ≡ some job
    → job.status ≡ pending
    → assign_job id operator block s ≡ (stored id (assign operator block job) s, ok tt)
unfolding assign_job
reassigned id operator block s job found waits = with_job_lem id s _ job found ∙ rw waits refl

-- When an assigned or executing job with two retries or more has been completed within its budget,
-- it can be failed, assigned and completed again, and the second completion answers the same
-- refund once more.
pub paid_twice :
    (id : ℕ) (result : JobResult) (block operator : ℕ) (s : JobExecutorInner) (job : Job)
    → lookup id s.jobs ≡ some job
    → is_running job.status ≡ true
    → can_cover job.ticket.budget result.compute_used ≡ true
    → 2 ≤ job.retries_remaining
    → (refund : ℕ) × (paid : JobExecutorInner) × (complete_job id result block s
        ≡ (paid, ok refund))
      × ((complete_job id result block (assign_job id operator block (fail_job id paid).0).0).1
          ≡ ok refund)
unfolding fail_job complete assign
paid_twice id result block operator s job found runs covers left =
    let done = complete result result.compute_used block job in
    let paid = stored id done s in
    let back = stored id (fail done) paid in
    let again = assign operator block (fail done) in
    let kept = fail_ticket done in
    let failed_now : fail_job id paid ≡ (back, ok tt) =
      with_job_lem id paid _ done (lookup-insert_self id _ _) in
    let assigned_again =
      reassigned id operator block back (fail done) (lookup-insert_self id _ _)
        (fails_to_pending done left).0 in
    let covers_again =
      ap (λ (t : JobTicket). can_cover t.budget result.compute_used) kept ∙ covers in
    (
      _,
      paid,
      accepted id result block s job found runs covers,
      ap
            (λ (o : Outcome (Unit {0})).
              (complete_job id result block (assign_job id operator block o.0).0).1)
            failed_now
          ∙ ap (λ (o : Outcome (Unit {0})). (complete_job id result block o.0).1) assigned_again
          ∙ ap (λ (o : Outcome ℕ). o.1)
              (accepted id result block (stored id again back) again (lookup-insert_self id _ _)
                refl covers_again)
          ∙ ap (λ (t : JobTicket). ok (t.budget.max_total_fee - result.compute_used.total_fee))
              kept,
    )

submitted :
    (usage_hash : ℕ) (ticket : JobTicket) (block : ℕ) (s : JobExecutorInner)
    → length s.jobs < s.capacity
    → lookup ticket.job_id (submit_ticket usage_hash ticket block s).0.jobs
      ≡ some (from_ticket ticket block)
unfolding submit_ticket submit from_ticket
submitted usage_hash ticket block s room =
    let free : leb s.capacity (length s.jobs) ≡ false = ground (arith, room) in
    rw (free) (lookup-insert_self ticket.job_id _ _)

-- For a ticket whose job exists, in whatever status, and an executor with room: submit_job of the
-- inner executor refuses it and changes nothing, while submit_job of JobExecutor replaces the job
-- by a new one, which any operator can be assigned to.
pub submit_ticket_resets :
    (usage_hash : ℕ) (ticket : JobTicket) (block operator : ℕ) (s : JobExecutorInner) (job : Job)
    → lookup ticket.job_id s.jobs ≡ some job
    → length s.jobs < s.capacity
    → (submit_job ticket block s ≡ (s, err job_already_exists))
      × ((assign_job ticket.job_id operator block (submit_ticket usage_hash ticket block s).0).1
          ≡ ok tt)
      × (get_job ticket.job_id
            (assign_job ticket.job_id operator block (submit_ticket usage_hash ticket block s).0).0
          ≡ some (assign operator block (from_ticket ticket block)))
unfolding submit_job get_job from_ticket contains_key
submit_ticket_resets usage_hash ticket block operator s job found room =
    let again =
      reassigned ticket.job_id operator block (submit_ticket usage_hash ticket block s).0
        (from_ticket ticket block) (submitted usage_hash ticket block s room) refl in
    (
      rw found refl,
      ap (λ (o : Outcome (Unit {0})). o.1) again,
      rw again (lookup-insert_self ticket.job_id _ _),
    )
