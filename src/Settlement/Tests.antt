-- ===== src/Settlement/Tests.antt =====
-- crates/truth/src/settlement.rs: its unit tests, and the theorems at concrete states.
use lite_vision.Prelude.{◌+◌, ◌≡◌, refl, [], ◌∷◌}
use lite_vision.Ord.{nat_ord}
use lite_vision.OrdMap.{lookup}
use lite_vision.Settlement.Escrow
use lite_vision.Settlement.Escrow.{JobEscrow, released}
use lite_vision.Settlement.Registry
use lite_vision.Settlement.Registry.{
  OperatorState, OperatorRegistry, register, update_stake, slash, increase_reputation,
  decrease_reputation, push_index,
}
use lite_vision.Settlement.Registry.Index.{IsIndexed}
use lite_vision.Settlement.Registry.Standing.{IsStanding}
use lite_vision.Settlement.Receipts.{default_conditions}
use lite_vision.Settlement.State.{SettlementState, release_escrow, refund_escrow}
use lite_vision.Settlement.State.Escrows.{payment, locked, escrow_conservation}

abbrev escrow : JobEscrow
escrow = record {
  job_id = 1;
  client_id = 2;
  amount = 1000;
  reserved_for_verification = 1;
  status = Escrow.EscrowStatus.active;
  created_at_block = 100;
  deadline_block = 600;
}

-- test_job_escrow_creation
creation : Escrow.new 1 2 1000 10 100 500 ≡ escrow
unfolding Escrow.new
creation = refl

abbrev operator : OperatorState
operator = record {
  id = 1;
  pubkey = 1;
  stake = 10000;
  reputation = 5000;
  status = Registry.OperatorRegistrationStatus.active;
  region = "us-east";
  capabilities = [];
  slashed_count = 0;
  total_jobs_completed = 0;
  total_compute_units = 0;
  last_update_block = 0;
}

abbrev empty : OperatorRegistry
empty = record { operators = []; stake_index = [] }

empty-IsIndexed : IsIndexed empty
unfolding lookup
empty-IsIndexed = record { keyed = λ id o h. cc; known = λ id o b h. cc; unknown = λ id b h. refl }

lone-IsStanding : IsStanding empty
unfolding lookup
lone-IsStanding = record { capped = λ id o h. cc; trusted = λ id o h up. cc }

abbrev state : SettlementState
state = record {
  job_escrows = (1, escrow) ∷ [];
  operator_registry = empty;
  receipt_anchors = [];
  artifacts = [];
  slashing_conditions = default_conditions;
  slashing_pool = 1000;
  verifier_rewards = (7, 5) ∷ [];
}

escrow_conservation_example :
    (payment (release_escrow 1 state).1 + locked (release_escrow 1 state).0 ≡ locked state)
    × (payment (refund_escrow 1 state).1 + locked (refund_escrow 1 state).0 ≡ locked state)
escrow_conservation_example = escrow_conservation 1 state (tt, tt)
