-- ===== src/Job.antt =====
-- crates/intelligence/src/job.rs: tickets, budgets and the life of one job. The rate of a
-- verification policy is a float that nothing here reads, and is left out.
pub mod Executor
pub mod Retries
pub mod Payment
pub mod Expiry
mod Tests
use lite_vision.Prelude.{
  ℕ, ◌+◌, ◌-◌, ◌/◌, ◌==◌, Bool, true, false, ◌&&◌, Option, none, some, List, [], ◌++◌, leb, ltb,
  if◌then◌else◌, add_u64, mul_u64, le_bytes, bytes32,
}

pub data ExecutionMode : Type 0 where
  deterministic soft : ExecutionMode

pub record Budget : Type 0 where
  pub max_total_fee : ℕ
  pub max_gpu_cycles : ℕ
  pub max_cpu_cycles : ℕ
  pub max_memory_bytes : ℕ
  pub max_output_size : ℕ
  pub verifier_reserve : ℕ

unfoldable pub budget_new : ℕ → Budget
budget_new max_total_fee = record {
  max_total_fee = max_total_fee;
  max_gpu_cycles = 1000000000;
  max_cpu_cycles = 100000000;
  max_memory_bytes = 8589934592;
  max_output_size = 1073741824;
  verifier_reserve = max_total_fee / 10;
}

unfoldable pub to_bytes : Budget → List ℕ
to_bytes self =
    le_bytes 8 self.max_total_fee
    ++ le_bytes 8 self.max_gpu_cycles
    ++ le_bytes 8 self.max_cpu_cycles
    ++ le_bytes 8 self.max_memory_bytes
    ++ le_bytes 8 self.max_output_size
    ++ le_bytes 8 self.verifier_reserve

pub record ExecutionCost : Type 0 where
  pub total_fee : ℕ
  pub gpu_cycles : ℕ
  pub cpu_cycles : ℕ
  pub memory_bytes : ℕ
  pub output_size : ℕ

unfoldable pub cost_new : ExecutionCost
cost_new = record {
  total_fee = 0;
  gpu_cycles = 0;
  cpu_cycles = 0;
  memory_bytes = 0;
  output_size = 0;
}

unfoldable pub calculate_fee : ExecutionCost → ℕ → ℕ
calculate_fee self price =
    add_u64 (mul_u64 self.gpu_cycles price) (mul_u64 self.cpu_cycles (price / 10))

unfoldable pub can_cover : Budget → ExecutionCost → Bool
can_cover self cost =
    leb cost.total_fee self.max_total_fee
    && leb cost.gpu_cycles self.max_gpu_cycles
    && leb cost.cpu_cycles self.max_cpu_cycles
    && leb cost.memory_bytes self.max_memory_bytes
    && leb cost.output_size self.max_output_size

pub data QosClass : Type 0 where
  low_latency balanced high_assurance deterministic_critical : QosClass

pub record VerificationPolicy : Type 0 where
  pub redundancy_factor : ℕ
  pub escalation_threshold : ℕ
  pub challenge_window_blocks : ℕ

unfoldable pub default_policy : VerificationPolicy
default_policy = record {
  redundancy_factor = 1;
  escalation_threshold = 2;
  challenge_window_blocks = 100;
}

pub data CancellationPolicy : Type 0 where
  immediate after_deadline never : CancellationPolicy

abbrev pub is_immediate : CancellationPolicy → Bool
is_immediate immediate = true
is_immediate _ = false

pub record JobTicket : Type 0 where
  pub job_id : ℕ
  pub client_id : ℕ
  pub kernel_id : ℕ
  pub input_hash : ℕ
  pub execution_mode : ExecutionMode
  pub budget : Budget
  pub deadline : ℕ
  pub qos_class : QosClass
  pub verification_policy : VerificationPolicy
  pub max_retries : ℕ
  pub partial_allowed : Bool
  pub cancellation_policy : CancellationPolicy
  pub creation_block_height : ℕ
  pub signature : List ℕ

-- `hash` is blake3
unfoldable pub ticket_new : (hash : List ℕ → ℕ) → ℕ → ℕ → ℕ → Budget → ℕ → JobTicket
ticket_new hash client_id kernel_id input_hash budget deadline = record {
  job_id = hash (
      bytes32 client_id
      ++ bytes32 kernel_id
      ++ bytes32 input_hash
      ++ to_bytes budget
      ++ le_bytes 8 deadline);
  client_id = client_id;
  kernel_id = kernel_id;
  input_hash = input_hash;
  execution_mode = deterministic;
  budget = budget;
  deadline = deadline;
  qos_class = balanced;
  verification_policy = default_policy;
  max_retries = 3;
  partial_allowed = false;
  cancellation_policy = after_deadline;
  creation_block_height = 0;
  signature = [];
}

pub record JobResult : Type 0 where
  pub output_hash : ℕ
  pub output_size : ℕ
  pub compute_used : ExecutionCost
  pub execution_time_ms : ℕ
  pub signature : List ℕ
  pub is_partial : Bool  -- the field `partial`

unfoldable pub result_new : ℕ → ExecutionCost → JobResult
result_new output_hash compute_used = record {
  output_hash = output_hash;
  output_size = 0;
  compute_used = compute_used;
  execution_time_ms = 0;
  signature = [];
  is_partial = false;
}

pub data JobStatus : Type 0 where
  pending assigned executing completed failed expired disputed cancelled : JobStatus

pub record Job : Type 0 where
  pub ticket : JobTicket
  pub status : JobStatus
  pub assigned_operator : Option ℕ
  pub result : Option JobResult
  pub execution_cost : Option ExecutionCost
  pub retries_remaining : ℕ
  pub created_at : ℕ
  pub started_at : Option ℕ
  pub completed_at : Option ℕ

unfoldable pub from_ticket : JobTicket → ℕ → Job
from_ticket ticket created_at = record {
  ticket = ticket;
  status = pending;
  assigned_operator = none;
  result = none;
  execution_cost = none;
  retries_remaining = 0;
  created_at = created_at;
  started_at = none;
  completed_at = none;
}

unfoldable pub assign : ℕ → ℕ → Job → Job
assign operator_id current_block self = record self {
  status = assigned;
  assigned_operator = some operator_id;
  started_at = some current_block;
  retries_remaining = self.ticket.max_retries;
}

unfoldable pub start_execution : Job → Job
start_execution self = record self { status = executing }

unfoldable pub complete : JobResult → ExecutionCost → ℕ → Job → Job
complete result cost completed_at self = record self {
  status = completed;
  result = some result;
  execution_cost = some cost;
  completed_at = some completed_at;
}

unfoldable pub fail : Job → Job
fail self =
    let left = self.retries_remaining - 1 in
    if ltb 0 self.retries_remaining
    then record self {
      retries_remaining = left;
      status = if left == 0 then failed else pending;
      assigned_operator = none;
    }
    else self

unfoldable pub expire : Job → Job
expire self = record self { status = expired }

unfoldable pub dispute : Job → Job
dispute self = record self { status = disputed }

-- `matches!(self.status, Pending | Assigned)`, and the other such tests
abbrev pub is_waiting : JobStatus → Bool
is_waiting pending = true
is_waiting assigned = true
is_waiting _ = false

abbrev pub is_running : JobStatus → Bool
is_running assigned = true
is_running executing = true
is_running _ = false

abbrev pub is_open : JobStatus → Bool
is_open pending = true
is_open assigned = true
is_open executing = true
is_open _ = false

abbrev pub is_pending : JobStatus → Bool
is_pending pending = true
is_pending _ = false

abbrev pub is_over : JobStatus → Bool
is_over failed = true
is_over expired = true
is_over _ = false

unfoldable pub cancel : Job → Job
cancel self =
    if is_immediate self.ticket.cancellation_policy && is_waiting self.status
    then record self { status = cancelled }
    else self

unfoldable pub is_expired : ℕ → Job → Bool
is_expired current_block self = ltb self.ticket.deadline current_block && is_open self.status

unfoldable pub can_retry : Job → Bool
can_retry self = ltb 0 self.retries_remaining && is_over self.status

-- `.as_ref().map(|c| c.total_fee).unwrap_or(0)`
abbrev fee_of : Option ExecutionCost → ℕ
fee_of none = 0
fee_of (some c) = c.total_fee

unfoldable pub refund_amount : Job → ℕ
refund_amount self = self.ticket.budget.max_total_fee - fee_of self.execution_cost
