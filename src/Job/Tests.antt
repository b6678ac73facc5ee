-- ===== src/Job/Tests.antt =====
-- Runs of crates/intelligence/src/job.rs.
use lite_vision.Prelude.{ℕ, ◌+◌, ◌≡◌, refl, true, false, some, [], ◌∷◌, arith, ok, err}
use lite_vision.Ord.{nat_ord}
use lite_vision.OrdMap.{lookup}
use lite_vision.Job.{
  Job, JobTicket, JobResult, ExecutionCost, budget_new, ticket_new, from_ticket, assign, result_new,
  can_cover, can_retry, failed, refund_amount, fail,
}
use lite_vision.Job.Executor.{
  JobExecutorInner, job_already_exists, submit_ticket, submit_job, get_job, assign_job,
  complete_job, fail_job, expire_jobs,
}
use lite_vision.Job.Retries.{assigns, fails, run, run_never_retries}
use lite_vision.Job.Payment.{complete_job-refund_amount, paid_twice, submit_ticket_resets}
use lite_vision.Job.Expiry.{IsSettled, listed, expire_jobs_settles}

abbrev ticket : JobTicket
ticket = ticket_new (λ _. 77) 1 2 3 (budget_new 1000) 100

abbrev running : Job
running = assign 9 5 (from_ticket ticket 4)

abbrev executor : JobExecutorInner
executor = record { jobs = (77, running) ∷ []; receipts = []; capacity = 10 }

abbrev used : ExecutionCost
used = record {
  total_fee = 400;
  gpu_cycles = 10;
  cpu_cycles = 10;
  memory_bytes = 10;
  output_size = 10;
}

abbrev answer : JobResult
answer = result_new 6 used

running_found : lookup 77 executor.jobs ≡ some running
unfolding lookup lite_vision.Ord.eqb
running_found = refl

used_covered : can_cover running.ticket.budget answer.compute_used ≡ true
unfolding can_cover budget_new ticket_new from_ticket assign result_new
used_covered = refl

complete_job-refund_amount_example :
    (refund : ℕ) × (done : Job) × ((complete_job 77 answer 6 executor).1 ≡ ok refund)
    × (refund + answer.compute_used.total_fee ≡ running.ticket.budget.max_total_fee)
    × (get_job 77 (complete_job 77 answer 6 executor).0 ≡ some done)
    × (refund_amount done ≡ refund)
unfolding assign from_ticket
complete_job-refund_amount_example =
    complete_job-refund_amount 77 answer 6 executor running running_found refl used_covered

paid_twice_example :
    (refund : ℕ) × (paid : JobExecutorInner) × (complete_job 77 answer 6 executor
      ≡ (paid, ok refund))
    × ((complete_job 77 answer 6 (assign_job 77 8 6 (fail_job 77 paid).0).0).1 ≡ ok refund)
unfolding assign from_ticket ticket_new
paid_twice_example =
    paid_twice 77 answer 6 8 executor running running_found refl used_covered (omega arith)

submit_ticket_resets_example :
    (submit_job ticket 7 executor ≡ (executor, err job_already_exists))
    × ((assign_job 77 8 7 (submit_ticket 0 ticket 7 executor).0).1 ≡ ok tt)
    × (get_job 77 (assign_job 77 8 7 (submit_ticket 0 ticket 7 executor).0).0
        ≡ some (assign 8 7 (from_ticket ticket 7)))
unfolding ticket_new
submit_ticket_resets_example =
    submit_ticket_resets 0 ticket 7 8 executor running running_found (omega arith)

expire_jobs_settles_example :
    IsSettled 200
      (get_job 77 executor)
      (get_job 77 (expire_jobs 200 executor).0)
      (listed 77 (expire_jobs 200 executor).1)
    × (expire_jobs 200 (expire_jobs 200 executor).0 ≡ ((expire_jobs 200 executor).0, []))
expire_jobs_settles_example = expire_jobs_settles 200 77 executor (tt, tt)

-- a job with one retry
abbrev single : JobTicket
single = record ticket { max_retries = 1 }

single_failed : (run (assigns 9 5 ∷ (fails ∷ [])) (from_ticket single 4)).status ≡ failed
unfolding from_ticket assign fail
single_failed = refl

run_never_retries_example :
    can_retry (run (assigns 9 5 ∷ (fails ∷ [])) (from_ticket single 4)) ≡ false
run_never_retries_example = run_never_retries (assigns 9 5 ∷ (fails ∷ [])) single 4 single_failed
