-- ===== src/ValidatorSet.antt =====
-- crates/truth/src/validator_set.rs: validators, delegations, slashing and quorums. A method that
-- mutates `self` returns the new record, beside its result where it has one. The ids `[u8; 32]` are
-- read as numbers. `uptime_percentage` (a float) is left out.
pub mod Operations
pub mod Accounting
pub mod Stakes
pub mod Activity
pub mod Steps
pub mod Quorum
pub mod Delegation
mod Tests
use Prim.Native.String.{String}
use lite_vision.Prelude.{
  ℕ, ◌+◌, ◌-◌, ◌*◌, ◌/◌, Bool, Option, none, some, List, [], add_u64, mul_u64, ◌==◌, if◌then◌else◌,
}
use lite_vision.OrdMap.{Map}

pub data ValidatorStatus : Type 0 where
  pending active unbonding jailed removed : ValidatorStatus

pub record ValidatorMetadata : Type 0 where
  pub endpoint : String
  pub name : String
  pub commission_rate : ℕ
  pub uptime_blocks : ℕ
  pub missed_blocks : ℕ

pub record Validator : Type 0 where
  pub id : ℕ
  pub public_key : List ℕ
  pub stake : ℕ
  pub delegated_stake : ℕ
  pub total_stake : ℕ
  pub status : ValidatorStatus
  pub metadata : ValidatorMetadata
  pub joined_at : ℕ
  pub unbonding_start : Option ℕ

unfoldable pub validator_new : ℕ → List ℕ → ℕ → Validator
validator_new id public_key stake = record {
  id = id;
  public_key = public_key;
  stake = stake;
  delegated_stake = 0;
  total_stake = stake;
  status = pending;
  metadata = record {
    endpoint = "";
    name = "";
    commission_rate = 500;
    uptime_blocks = 0;
    missed_blocks = 0;
  };
  joined_at = 0;
  unbonding_start = none;
}

unfoldable pub activate : ℕ → Validator → Validator
activate timestamp self = record self { status = active; joined_at = timestamp }

unfoldable pub add_delegation : ℕ → Validator → Validator
add_delegation amount self =
    let delegated = add_u64 self.delegated_stake amount in
    record self { delegated_stake = delegated; total_stake = add_u64 self.stake delegated }

-- `saturating_sub` is `-`
unfoldable pub remove_delegation : ℕ → Validator → Validator
remove_delegation amount self =
    let delegated = self.delegated_stake - amount in
    record self { delegated_stake = delegated; total_stake = add_u64 self.stake delegated }

unfoldable pub voting_power : ℕ → Validator → ℕ
voting_power total_stake self =
    if total_stake == 0 then 0 else mul_u64 self.total_stake 10000 / total_stake

pub record Delegator : Type 0 where
  pub id : ℕ
  pub validator_id : ℕ
  pub staked_amount : ℕ
  pub rewards_accumulated : ℕ

unfoldable pub delegator_new : ℕ → ℕ → ℕ → Delegator
delegator_new id validator_id amount = record {
  id = id;
  validator_id = validator_id;
  staked_amount = amount;
  rewards_accumulated = 0;
}

unfoldable pub add_rewards : ℕ → Delegator → Delegator
add_rewards amount self = record self {
  rewards_accumulated = add_u64 self.rewards_accumulated amount;
}

pub data SlashType : Type 0 where
  double_sign double_propose surround_vote unavailable invalid_vote : SlashType

pub record SlashEvent : Type 0 where
  pub validator_id : ℕ
  pub slash_type : SlashType
  pub evidence : List ℕ
  pub block_height : ℕ
  pub slash_percentage : ℕ
  pub timestamp : ℕ

unfoldable pub slash_amount : ℕ → SlashEvent → ℕ
slash_amount stake self = mul_u64 stake self.slash_percentage / 100

pub data StakingError : Type 0 where
  validator_exists validator_not_found delegator_not_found insufficient_stake : StakingError
  invalid_state_transition slash_amount_too_large : StakingError

pub record ValidatorSet : Type 0 where
  pub validators : Map ℕ Validator
  pub delegators : Map ℕ Delegator
  pub total_stake : ℕ
  pub active_count : ℕ  -- u32
  pub current_epoch : ℕ
