-- ===== src/Dispute/Tests.antt =====
-- Runs of crates/intelligence/src/dispute.rs. The id of a dispute is that of its job here.
use lite_vision.Prelude.{
  ℕ, ◌+◌, ◌<◌, ◌*◌, ◌≤◌, ◌≡◌, ◌⊎◌, refl, true, false, none, some, [], ◌∷◌, arith, if◌then◌else◌,
  u64_mod,
}
use lite_vision.Ord.{nat_ord}
use lite_vision.OrdMap.{lookup}
use lite_vision.Dispute.{
  FraudProof, Dispute, DisputeEngine, VerificationResult, validation_phase, resolved, refunded,
  released, procedural_error,
}
use lite_vision.Dispute.Engine.{
  Hashing, new, init_escrow, is_fraud, is_disputed, initiate_dispute, opened, open_dispute,
  resolution_of, get_dispute, get_escrow, submit_appeal, in_status, set_escrow,
}
use lite_vision.Dispute.Calls.{Call, initiate, appeal, call, run}
use lite_vision.Dispute.Effects.{Effect, call-Effect}
use lite_vision.Dispute.Shares.{IsShared, resolution_shares}
use lite_vision.Dispute.Sound.{IsSound, IsCollisionFree, run-IsSound}
use lite_vision.Dispute.Final.{IsLater, run-IsLater}
use lite_vision.Dispute.Course.{
  status_of, escrow_status, set_to, IsAdmissible, Course, calls, course_resolves,
}
use lite_vision.Dispute.Bonds.{both, bond_replaced}

abbrev hashing : Hashing
hashing = record { dispute_id = λ job _ _ _. job; serializes = λ _. true }

abbrev hashing-IsCollisionFree : IsCollisionFree hashing
hashing-IsCollisionFree j r c b j' r' c' b' e = e

abbrev proof : FraudProof
proof = record {
  receipt_hash = 3;
  operator_id = 4;
  recomputed_output_hash = 5;
  original_output_hash = 6;
  kernel_id = 7;
  input_hash = 8;
  deterministic_seed = none;
  evidence_bundle = record {
    kernel_binary_hash = 9;
    input_data_snapshot = [];
    execution_logs = [];
    resource_metrics = record {
      gpu_cycles = 0;
      vram_bytes = 0;
      cpu_cycles = 0;
      memory_bytes = 0;
      bandwidth_bytes = 0;
      execution_time_ms = 0;
    };
  };
  challenger_signature = [];
}

abbrev answered : VerificationResult
answered = record {
  job_id = 1;
  receipt_hash = 3;
  recomputed_output_hash = 5;
  verification_signatures = [];
  verification_level = 1;
}

-- an engine with a least bond of 100, and an escrow for job 1
abbrev engine : DisputeEngine
engine = init_escrow 1 5000 4 (new 100 50 1000 2000)

abbrev course_of : ℕ → ℕ → Course
course_of job bond = record {
  job = job;
  receipt = 3;
  proof = proof;
  challenger = 12;
  bond = bond;
  block = 10;
  receipt_block = 8;
  window = 500;
  level = 1;
  result = answered;
  budget = 10000;
  cost = 100;
  last = 40;
}

abbrev Admits : ℕ → ℕ → Type 0
Admits job bond = IsAdmissible hashing engine job bond 10 8 500 proof

one_is_admissible : Admits 1 100
unfolding init_escrow new is_disputed lookup
one_is_admissible = record {
  enough = omega arith;
  in_time = omega arith;
  first = refl;
  sound_proof = refl;
}

two_is_admissible : Admits 2 300
unfolding init_escrow new is_disputed lookup
two_is_admissible = record {
  enough = omega arith;
  in_time = omega arith;
  first = refl;
  sound_proof = refl;
}

course_resolves_example :
    (status_of (get_dispute 1 (run hashing (calls hashing (course_of 1 100)) engine))
      ≡ some resolved)
    × (escrow_status (get_escrow 1 (run hashing (calls hashing (course_of 1 100)) engine))
        ≡ set_to (if is_fraud proof then refunded else released) (get_escrow 1 engine))
    × (lookup 12 (run hashing (calls hashing (course_of 1 100)) engine).frozen_bonds
        ≡ (if is_fraud proof then none else some 0))
course_resolves_example = course_resolves hashing (course_of 1 100) engine one_is_admissible

bond_replaced_example :
    (status_of (get_dispute 1 (both (course_of 1 100) (course_of 2 300) engine hashing))
      ≡ some validation_phase)
    × (status_of (get_dispute 2 (both (course_of 1 100) (course_of 2 300) engine hashing))
        ≡ some validation_phase)
    × (lookup 12 (both (course_of 1 100) (course_of 2 300) engine hashing).frozen_bonds ≡ some 300)
bond_replaced_example =
    bond_replaced hashing (course_of 1 100) (course_of 2 300) engine hashing-IsCollisionFree
      one_is_admissible two_is_admissible (λ e. absurd (omega (arith, e))) refl

run-IsSound_example :
    IsSound hashing (run hashing (calls hashing (course_of 1 100)) (new 100 50 1000 2000))
run-IsSound_example =
    run-IsSound hashing (calls hashing (course_of 1 100)) 100 50 1000 2000 hashing-IsCollisionFree

-- the dispute of job 1 as it is opened
abbrev first_dispute : Dispute
first_dispute = opened 1 1 3 proof 12 100 10 500

abbrev disputing : DisputeEngine
disputing = run hashing (initiate 1 3 proof 12 100 10 8 500 ∷ []) (new 100 50 1000 2000)

filed_first : lookup 1 disputing.disputes ≡ some first_dispute
unfolding lookup new lite_vision.Dispute.Engine.initiate_dispute is_disputed open_dispute opened
    lite_vision.OrdMap.insert lite_vision.Ord.eqb
filed_first = refl

run-IsLater_example :
    (x : Dispute) × (lookup 1
        (run hashing (appeal 1 procedural_error none 5 20 ∷ []) disputing).disputes
      ≡ some x)
    × IsLater first_dispute x
    × (is_disputed first_dispute.job_id
          (run hashing (appeal 1 procedural_error none 5 20 ∷ []) disputing)
        ≡ true)
run-IsLater_example =
    run-IsLater hashing (appeal 1 procedural_error none 5 20 ∷ []) disputing 1 first_dispute
      hashing-IsCollisionFree
      (run-IsSound hashing (initiate 1 3 proof 12 100 10 8 500 ∷ []) 100 50 1000 2000
        hashing-IsCollisionFree)
      filed_first

-- a dispute on the job of the escrow
abbrev opening : Call
opening = initiate 1 3 proof 12 150 10 8 500

opened_first : (call hashing opening engine).1 ≡ true
unfolding initiate_dispute init_escrow new is_disputed lookup lite_vision.OrdMap.insert
    lite_vision.Ord.eqb
opened_first = refl

call-Effect_example :
    (((call hashing opening engine).1 ≡ false) × ((call hashing opening engine).0 ≡ engine))
    ⊎ (((call hashing opening engine).1 ≡ true)
        × Effect hashing opening engine (call hashing opening engine).0)
call-Effect_example = call-Effect hashing opening engine

slashed_fits : (resolution_of first_dispute 10000 100 40 engine).slashed_amount * 4000 < u64_mod
unfolding resolution_of lite_vision.Dispute.Engine.slash_amount is_fraud init_escrow new opened
slashed_fits = omega arith

resolution_shares_example :
    IsShared (resolution_of first_dispute 10000 100 40 engine)
    × ((resolution_of first_dispute 10000 100 40 engine).slashed_amount
        ≤ (resolution_of first_dispute 10000 100 40 engine).challenger_share
          + (resolution_of first_dispute 10000 100 40 engine).verifier_share
          + (resolution_of first_dispute 10000 100 40 engine).treasury_share
          + 2)
unfolding init_escrow new
resolution_shares_example = resolution_shares first_dispute 10000 100 40 engine refl slashed_fits
