-- ===== src/Job/Expiry.antt =====
-- crates/intelligence/src/job.rs: expire_jobs.
use lite_vision.Prelude.{
  ℕ, ◌<◌, ◌≡◌, refl, ◌∙◌, Bool, Bool-cases, true, false, Option, none, some, List, [], ◌∷◌,
  if◌then◌else◌, arith, inl, inr, ◌⊎◌, ltb, ◌||◌,
}
use lite_vision.Ord.{nat_ord, eqb, eq_of_eqb}
use lite_vision.OrdMap.{Map, lookup}
use lite_vision.OrdMap.Sorted.{IsSorted, lookup-IsBelow}
use lite_vision.Job.{
  Job, JobStatus, pending, assigned, executing, completed, failed, expired, disputed, cancelled,
  is_open, is_expired, expire,
}
use lite_vision.Job.Executor.{JobExecutorInner, expire_entries, expire_jobs, get_job}

-- waiting, given to an operator or running
abbrev pub IsOpen : JobStatus → Type 0
IsOpen status = (status ≡ pending) ⊎ ((status ≡ assigned) ⊎ (status ≡ executing))

-- open after the block of its deadline
abbrev pub IsOverdue : ℕ → Job → Type 0
IsOverdue block job = (job.ticket.deadline < block) × IsOpen job.status

-- whether an id is in a list
abbrev pub listed : ℕ → List ℕ → Bool
listed id [] = false
listed id (x ∷ xs) = eqb x id || listed id xs

-- What the call makes of the job of an id, and whether it answers the id: an overdue job changes its
-- status only, and all others stay.
abbrev pub IsSettled : ℕ → Option Job → Option Job → Bool → Type 0
IsSettled block none after named = (after ≡ none) × (named ≡ false)
IsSettled block (some job) after named =
    (IsOverdue block job × (after ≡ some (record job { status = expired })) × (named ≡ true))
    ⊎ ((¬ IsOverdue block job) × (after ≡ some job) × (named ≡ false))

IsOpen-cases :
    (s : JobStatus) → (IsOpen s × (is_open s ≡ true)) ⊎ ((¬ IsOpen s) × (is_open s ≡ false))
IsOpen-cases pending = inl (inl refl, refl)
IsOpen-cases assigned = inl (inr (inl refl), refl)
IsOpen-cases executing = inl (inr (inr refl), refl)
IsOpen-cases completed = inr (λ o. ground arith, refl)
IsOpen-cases failed = inr (λ o. ground arith, refl)
IsOpen-cases expired = inr (λ o. ground arith, refl)
IsOpen-cases disputed = inr (λ o. ground arith, refl)
IsOpen-cases cancelled = inr (λ o. ground arith, refl)

IsOverdue-cases :
    (block : ℕ) (job : Job)
    → (IsOverdue block job × (is_expired block job ≡ true))
      ⊎ ((¬ IsOverdue block job) × (is_expired block job ≡ false))
unfolding is_expired
IsOverdue-cases block job = elim (Bool-cases (ltb job.ticket.deadline block)) [
  | inl late ↦ elim (IsOpen-cases job.status) [
    | inl (o, is) ↦ inl ((ground (arith, late), o), rw (late, is) refl)
    | inr (closed, is) ↦ inr (λ d. closed d.1, rw (late, is) refl)
  ]
  | inr early ↦ inr (λ d. ground (arith, d.0, early), rw early refl)
]

-- the job after the call
abbrev aged : ℕ → Job → Job
aged block job = if is_expired block job then expire job else job

abbrev aged_if_there : ℕ → Option Job → Option Job
aged_if_there block none = none
aged_if_there block (some job) = some (aged block job)

-- whether there is a job to expire
abbrev expires : ℕ → Option Job → Bool
expires block none = false
expires block (some job) = is_expired block job

-- An expired job is not open, so it does not expire again.
expired_once : (block : ℕ) (job : Job) → is_expired block (expire job) ≡ false
unfolding is_expired expire
expired_once block job = ground arith

lookup-expire_entries :
    (block j : ℕ) (m : Map ℕ Job)
    → lookup j (expire_entries block m).0 ≡ aged_if_there block (lookup j m)
unfolding expire_entries lookup
lookup-expire_entries block j [] = refl
lookup-expire_entries block j ((id, job) ∷ m) = elim (Bool-cases (is_expired block job)) [
  | inl old ↦ rw old (elim (Bool-cases (eqb id j)) [
    | inl same ↦ rw (same, old) refl
    | inr other ↦ rw other (lookup-expire_entries block j m)
  ])
  | inr young ↦ rw young (elim (Bool-cases (eqb id j)) [
    | inl same ↦ rw (same, young) refl
    | inr other ↦ rw other (lookup-expire_entries block j m)
  ])
]

expire_entries_again :
    (block : ℕ) (m : Map ℕ Job)
    → expire_entries block (expire_entries block m).0 ≡ ((expire_entries block m).0, [])
unfolding expire_entries
expire_entries_again block [] = refl
expire_entries_again block ((id, job) ∷ m) = elim (Bool-cases (is_expired block job)) [
  | inl old ↦ rw (old, expired_once block job, expire_entries_again block m) refl
  | inr young ↦ rw (young, young, expire_entries_again block m) refl
]

listed-expire_entries :
    (block j : ℕ) (m : Map ℕ Job)
    → IsSorted m
    → listed j (expire_entries block m).1 ≡ expires block (lookup j m)
unfolding expire_entries lookup
listed-expire_entries block j [] sorted = refl
listed-expire_entries block j ((id, job) ∷ m) sorted =
    let rest = listed-expire_entries block j m sorted.1 in
    let below = lookup-IsBelow id m sorted.0 in
    elim (Bool-cases (is_expired block job)) [
      | inl old ↦ rw old (elim (Bool-cases (eqb id j)) [
        | inl same ↦ rw (same, old) refl
        | inr other ↦ rw other rest
      ])
      | inr young ↦ rw young (elim (Bool-cases (eqb id j)) [
        | inl same ↦ rw (same, young) (rest ∙ rw (← eq_of_eqb id j same, below) refl)
        | inr other ↦ rw other rest
      ])
    ]

settles :
    (block : ℕ) (o after : Option Job) (named : Bool)
    → after ≡ aged_if_there block o
    → named ≡ expires block o
    → IsSettled block o after named
unfolding expire
settles block none after named a n = (a, n)
settles block (some job) after named a n = elim (IsOverdue-cases block job) [
  | inl (overdue, is) ↦ inl (overdue, rw is at a, n ∙ is)
  | inr (not_yet, is) ↦ inr (not_yet, rw is at a, n ∙ is)
]

-- Where the jobs are filed in ascending order of their ids: expire_jobs turns a job that is
-- pending, assigned or executing at a block after its deadline to expired, changes nothing else of
-- it, and answers its id; it leaves every other job as it was and does not answer its id, nor an
-- id without a job. A second call at the same block expires none and changes nothing.
pub expire_jobs_settles :
    (block id : ℕ) (s : JobExecutorInner)
    → IsSorted s.jobs
    → IsSettled block
        (get_job id s)
        (get_job id (expire_jobs block s).0)
        (listed id (expire_jobs block s).1)
      × (expire_jobs block (expire_jobs block s).0 ≡ ((expire_jobs block s).0, []))
unfolding get_job expire_jobs
expire_jobs_settles block id s sorted = (
  settles block (lookup id s.jobs) _ _ (lookup-expire_entries block id s.jobs)
      (listed-expire_entries block id s.jobs sorted),
  rw (expire_entries_again block s.jobs) refl,
)
