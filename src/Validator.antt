-- ===== src/Validator.antt =====
-- crates/truth/src/validator.rs: a validator of the consensus; the set is in Set. Commissions, which
-- the source computes with floats, are left out.
pub mod Jailing
pub mod Set
use Prim.Native.String.{String}
use lite_vision.Prelude.{
  ℕ, ◌-◌, ◌/◌, Bool, true, false, Option, none, some, add_u64, sub_u64, ltb, leb, if◌then◌else◌,
  Result, ok, err,
}

abbrev pub unbonding_period : ℕ
unbonding_period = 21

abbrev pub jail_period : ℕ
jail_period = 10

pub data ValidatorStatus : Type 0 where
  inactive active jailed unbonding removed : ValidatorStatus

pub record ValidatorMetadata : Type 0 where
  pub name : String
  pub endpoint : Option String
  pub description : String

pub record Validator : Type 0 where
  pub id : ℕ
  pub stake : ℕ
  pub delegated_stake : ℕ
  pub pubkey : ℕ
  pub power : ℕ
  pub status : ValidatorStatus
  pub jailed_until : ℕ
  pub unbonding_start : Option ℕ
  pub commission_rate : ℕ
  pub self_delegation : ℕ
  pub metadata : ValidatorMetadata

unfoldable pub calculate_power : ℕ → ℕ
calculate_power stake = stake / 1000

unfoldable pub new : ℕ → ℕ → ℕ → Validator
new id stake pubkey = record {
  id = id;
  stake = stake;
  delegated_stake = 0;
  pubkey = pubkey;
  power = calculate_power stake;
  status = active;
  jailed_until = 0;
  unbonding_start = none;
  commission_rate = 1000;
  self_delegation = stake;
  metadata = record { name = ""; endpoint = none; description = "" };
}

unfoldable pub with_metadata : String → Option String → Validator → Validator
with_metadata name endpoint self = record self {
  metadata = record { name = name; endpoint = endpoint; description = self.metadata.description };
}

unfoldable pub update_stake : ℕ → Validator → Validator
update_stake new_stake self = record self {
  stake = new_stake;
  self_delegation = new_stake;
  power = calculate_power (add_u64 new_stake self.delegated_stake);
}

unfoldable pub add_delegation : ℕ → Validator → Validator
add_delegation amount self =
    let delegated = add_u64 self.delegated_stake amount in
    record self {
      delegated_stake = delegated;
      power = calculate_power (add_u64 self.stake delegated);
    }

-- the error is a text; which one it is does not matter to the callers
unfoldable pub remove_delegation : ℕ → Validator → Validator × Result String (Unit {0})
remove_delegation amount self =
    if leb amount self.delegated_stake
    then (
      record self {
        delegated_stake = self.delegated_stake - amount;
        power = calculate_power (add_u64 self.stake (self.delegated_stake - amount));
      },
      ok tt,
    )
    else (self, err "Insufficient delegated stake")

unfoldable pub total_stake : Validator → ℕ
total_stake self = add_u64 self.stake self.delegated_stake

unfoldable pub jail : ℕ → ℕ → Validator → Validator
jail current_epoch slash_amount self =
    let stake = self.stake - slash_amount in
    record self {
      status = jailed;
      jailed_until = add_u64 current_epoch jail_period;
      stake = stake;
      power = calculate_power (add_u64 stake self.delegated_stake);
    }

unfoldable pub unjail : ℕ → Validator → Validator × Result String (Unit {0})
unjail current_epoch self =
    if ltb current_epoch self.jailed_until
    then (self, err "Jail period not yet served")
    else (record self { status = active; jailed_until = 0 }, ok tt)

unfoldable pub start_unbonding : ℕ → Validator → Validator
start_unbonding current_epoch self = record self {
  status = unbonding;
  unbonding_start = some current_epoch;
}

unfoldable pub can_unbond : ℕ → Validator → Bool
can_unbond current_epoch self = elim self.unbonding_start [
  | some start ↦ leb (add_u64 start unbonding_period) current_epoch
  | none ↦ false
]

unfoldable pub remove : Validator → Validator
remove self = record self { status = removed }

abbrev pub is_active_status : ValidatorStatus → Bool
is_active_status active = true
is_active_status _ = false

unfoldable pub active_or_inactive : Validator → Bool
active_or_inactive self = is_active_status self.status
