-- ===== src/Job/Executor.antt =====
-- crates/intelligence/src/job.rs: JobExecutor and JobExecutorInner, the lock being held for a whole
-- call. The kernel executor, the kernel registry and the verification engine are left out, with the
-- calls that hand work to them.
use lite_vision.Prelude.{
  ℕ, ◌-◌, ◌==◌, Bool, false, not, Option, none, some, List, [], ◌∷◌, length, leb, if◌then◌else◌,
  Result, ok, err,
}
use lite_vision.Ord.{nat_ord}
use lite_vision.OrdMap.{Map, lookup, insert, contains_key, values}
use lite_vision.Job.{
  Job, JobTicket, JobResult, ExecutionMode, is_pending, is_running, can_cover, from_ticket, assign,
  complete, fail, is_expired, expire,
}

-- crates/intelligence/src/receipts.rs: Receipt, without its attestation, which is none here
pub record Receipt : Type 0 where
  pub version : ℕ
  pub job_id : ℕ
  pub operator_id : ℕ
  pub kernel_id : ℕ
  pub kernel_version : ℕ × ℕ × ℕ
  pub input_hash : ℕ
  pub deterministic_seed : Option ℕ
  pub execution_nonce : ℕ
  pub output_hash : ℕ
  pub resource_hash : ℕ
  pub execution_mode : ExecutionMode
  pub start_block_height : ℕ
  pub end_block_height : ℕ
  pub signature : List ℕ

unfoldable pub receipt_new :
    ℕ → ℕ → ℕ → ℕ × ℕ × ℕ → ℕ → ℕ → (resource_hash : ℕ) → ExecutionMode → ℕ → ℕ → Receipt
receipt_new job_id operator_id kernel_id version input_hash output_hash resource_hash mode start
      end =
    record {
      version = 1;
      job_id = job_id;
      operator_id = operator_id;
      kernel_id = kernel_id;
      kernel_version = version;
      input_hash = input_hash;
      deterministic_seed = none;
      execution_nonce = 0;
      output_hash = output_hash;
      resource_hash = resource_hash;
      execution_mode = mode;
      start_block_height = start;
      end_block_height = end;
      signature = [];
    }

pub record JobExecutorInner : Type 0 where
  pub jobs : Map ℕ Job
  pub receipts : Map ℕ Receipt
  pub capacity : ℕ

pub data JobError : Type 0 where
  job_not_found job_already_exists invalid_state_transition budget_exceeded : JobError
  deadline_exceeded operator_not_found capacity_exceeded job_execution_failed : JobError

abbrev pub Outcome : Type 0 → Type 0
Outcome A = JobExecutorInner × Result JobError A

unfoldable pub new : ℕ → JobExecutorInner
new capacity = record { jobs = []; receipts = []; capacity = capacity }

-- JobExecutor::submit; `usage_hash` is the hash of the default resource usage
unfoldable pub submit : (usage_hash : ℕ) → Job → JobExecutorInner → Outcome Receipt
submit usage_hash job self =
    let id = job.ticket.job_id in
    let receipt =
      receipt_new id 0 job.ticket.kernel_id (1, 0, 0) job.ticket.input_hash 0 usage_hash
        job.ticket.execution_mode 0 0 in
    if leb self.capacity (length self.jobs) then (self, err capacity_exceeded) else (
      record self { jobs = insert id job self.jobs; receipts = insert id receipt self.receipts },
      ok receipt,
    )

-- `.map(f)` on the answer
abbrev map_answer : {A B : Type 0} → (A → B) → Outcome A → Outcome B
map_answer f (s, ok a) = (s, ok (f a))
map_answer f (s, err e) = (s, err e)

-- JobExecutor::submit_job
unfoldable pub submit_ticket : (usage_hash : ℕ) → JobTicket → ℕ → JobExecutorInner → Outcome ℕ
submit_ticket usage_hash ticket block_height self =
    let job = from_ticket ticket block_height in
    map_answer (λ _. job.ticket.job_id) (submit usage_hash job self)

-- JobExecutorInner::submit_job
unfoldable pub submit_job : JobTicket → ℕ → JobExecutorInner → Outcome ℕ
submit_job ticket current_block self =
    if contains_key ticket.job_id self.jobs then (self, err job_already_exists) else (
      record self { jobs = insert ticket.job_id (from_ticket ticket current_block) self.jobs },
      ok ticket.job_id,
    )

unfoldable pub get_job : ℕ → JobExecutorInner → Option Job
get_job job_id self = lookup job_id self.jobs

unfoldable pub get_receipt : ℕ → JobExecutorInner → Option Receipt
get_receipt job_id self = lookup job_id self.receipts

-- `self.jobs.get_mut(job_id).ok_or(JobError::JobNotFound)?`
abbrev pub with_job : {A : Type 0} → ℕ → JobExecutorInner → (Job → Outcome A) → Outcome A
with_job job_id self act = elim (lookup job_id self.jobs) [
  | none ↦ (self, err job_not_found)
  | some job ↦ act job
]

abbrev pub stored : ℕ → Job → JobExecutorInner → JobExecutorInner
stored job_id job self = record self { jobs = insert job_id job self.jobs }

unfoldable pub assign_job : ℕ → ℕ → ℕ → JobExecutorInner → Outcome (Unit {0})
assign_job job_id operator_id current_block self = with_job job_id self λ job.
    if not (is_pending job.status)
    then (self, err invalid_state_transition)
    else (stored job_id (assign operator_id current_block job) self, ok tt)

unfoldable pub complete_job : ℕ → JobResult → ℕ → JobExecutorInner → Outcome ℕ
complete_job job_id result current_block self = with_job job_id self λ job.
    if not (is_running job.status)
    then (self, err invalid_state_transition)
    else if not (can_cover job.ticket.budget result.compute_used)
    then (self, err budget_exceeded)
    else (
      stored job_id (complete result result.compute_used current_block job) self,
      ok (job.ticket.budget.max_total_fee - result.compute_used.total_fee),
    )

unfoldable pub fail_job : ℕ → JobExecutorInner → Outcome (Unit {0})
fail_job job_id self = with_job job_id self λ job. (stored job_id (fail job) self, ok tt)

-- the loop of expire_jobs over the entries: the entries after it, and the ids it collects
unfoldable pub expire_entries : ℕ → Map ℕ Job → Map ℕ Job × List ℕ
expire_entries current_block [] = ([], [])
expire_entries current_block ((id, job) ∷ m) =
    let rest = expire_entries current_block m in
    if is_expired current_block job
    then ((id, expire job) ∷ rest.0, id ∷ rest.1)
    else ((id, job) ∷ rest.0, rest.1)

unfoldable pub expire_jobs : ℕ → JobExecutorInner → JobExecutorInner × List ℕ
expire_jobs current_block self =
    let done = expire_entries current_block self.jobs in (record self { jobs = done.0 }, done.1)

-- `.filter(..).cloned().collect()`
unfoldable pub filter_jobs : (Job → Bool) → List Job → List Job
filter_jobs keep [] = []
filter_jobs keep (job ∷ jobs) =
    let rest = filter_jobs keep jobs in if keep job then job ∷ rest else rest

unfoldable pub get_pending_jobs : JobExecutorInner → List Job
get_pending_jobs self = filter_jobs (λ job. is_pending job.status) (values self.jobs)

-- `job.assigned_operator == Some(*operator_id)`
abbrev is_with : ℕ → Option ℕ → Bool
is_with operator_id none = false
is_with operator_id (some id) = id == operator_id

unfoldable pub get_jobs_by_operator : ℕ → JobExecutorInner → List Job
get_jobs_by_operator operator_id self =
    filter_jobs (λ job. is_with operator_id job.assigned_operator) (values self.jobs)

unfoldable pub get_jobs_by_client : ℕ → JobExecutorInner → List Job
get_jobs_by_client client_id self =
    filter_jobs (λ job. job.ticket.client_id == client_id) (values self.jobs)
