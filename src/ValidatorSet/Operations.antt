-- ===== src/ValidatorSet/Operations.antt =====
-- crates/truth/src/validator_set.rs: the methods of ValidatorSet.
use lite_vision.Prelude.{
  ℕ, ◌-◌, ◌/◌, Bool, true, false, not, Option, none, some, List, [], ◌∷◌, min, add_u64, mul_u64,
  add_u32, ltb, leb, if◌then◌else◌, Result, ok, err, get_or,
}
use lite_vision.Ord.{nat_ord}
use lite_vision.OrdMap.{lookup, insert, remove, contains_key, values}
use lite_vision.ValidatorSet.{
  ValidatorStatus, pending, active, unbonding, jailed, removed, Validator, Delegator, SlashEvent,
  SlashType, double_sign, double_propose, StakingError, validator_exists, validator_not_found,
  delegator_not_found, insufficient_stake, invalid_state_transition, ValidatorSet, activate,
  add_delegation, remove_delegation, slash_amount, delegator_new,
}

abbrev pub Outcome : Type 0 → Type 0
Outcome A = ValidatorSet × Result StakingError A

unfoldable pub new : ValidatorSet
new = record {
  validators = [];
  delegators = [];
  total_stake = 0;
  active_count = 0;
  current_epoch = 0;
}

-- the tests `status == ...`
abbrev pub is_active : ValidatorStatus → Bool
is_active active = true
is_active _ = false

abbrev pub is_pending : ValidatorStatus → Bool
is_pending pending = true
is_pending _ = false

abbrev pub is_unbonding : ValidatorStatus → Bool
is_unbonding unbonding = true
is_unbonding _ = false

abbrev pub is_jailed : ValidatorStatus → Bool
is_jailed jailed = true
is_jailed _ = false

unfoldable pub add_validator : Validator → ℕ → ValidatorSet → Outcome (Unit {0})
add_validator validator min_stake self =
    if ltb validator.stake min_stake
    then (self, err insufficient_stake)
    else if contains_key validator.id self.validators
    then (self, err validator_exists)
    else (
      record self {
        validators = insert validator.id (record validator { status = pending }) self.validators;
        total_stake = add_u64 self.total_stake validator.total_stake;
      },
      ok tt,
    )

unfoldable pub activate_validator : ℕ → ℕ → ValidatorSet → Outcome (Unit {0})
activate_validator validator_id timestamp self = elim (lookup validator_id self.validators) [
  | none ↦ (self, err validator_not_found)
  | some v ↦ if not (is_pending v.status) then (self, err invalid_state_transition) else (
    record self {
      validators = insert validator_id (activate timestamp v) self.validators;
      active_count = add_u32 self.active_count 1;
    },
    ok tt,
  )
]

unfoldable pub remove_validator : ℕ → ValidatorSet → Outcome Validator
remove_validator validator_id self = elim (lookup validator_id self.validators) [
  | none ↦ (self, err validator_not_found)
  | some v ↦ (
    record self {
      validators = remove validator_id self.validators;
      total_stake = self.total_stake - v.total_stake;
      active_count = if is_active v.status then self.active_count - 1 else self.active_count;
    },
    ok v,
  )
]

unfoldable pub start_unbonding : ℕ → ℕ → ValidatorSet → Outcome (Unit {0})
start_unbonding validator_id timestamp self = elim (lookup validator_id self.validators) [
  | none ↦ (self, err validator_not_found)
  | some v ↦ if not (is_active v.status) then (self, err invalid_state_transition) else (
    record self {
      validators =
          insert validator_id (record v { status = unbonding; unbonding_start = some timestamp })
            self.validators;
      active_count = self.active_count - 1;
    },
    ok tt,
  )
]

unfoldable pub complete_unbonding : ℕ → ValidatorSet → Outcome ℕ
complete_unbonding validator_id self = elim (lookup validator_id self.validators) [
  | none ↦ (self, err validator_not_found)
  | some v ↦ if not (is_unbonding v.status) then (self, err invalid_state_transition) else (
    record self {
      validators =
          insert validator_id (record v { status = removed; unbonding_start = none })
            self.validators;
      total_stake = self.total_stake - v.total_stake;
    },
    ok v.stake,
  )
]

-- the status is overwritten before it is compared, as in the source
unfoldable pub jail_validator : ℕ → ValidatorSet → Outcome (Unit {0})
jail_validator validator_id self = elim (lookup validator_id self.validators) [
  | none ↦ (self, err validator_not_found)
  | some v ↦
      let v' = record v { status = jailed } in
      (
        record self {
          validators = insert validator_id v' self.validators;
          active_count = if is_active v'.status then self.active_count - 1 else self.active_count;
        },
        ok tt,
      )
]

unfoldable pub unjail_validator : ℕ → ValidatorSet → Outcome (Unit {0})
unjail_validator validator_id self = elim (lookup validator_id self.validators) [
  | none ↦ (self, err validator_not_found)
  | some v ↦ if not (is_jailed v.status) then (self, err invalid_state_transition) else (
    record self {
      validators = insert validator_id (record v { status = active }) self.validators;
      active_count = add_u32 self.active_count 1;
    },
    ok tt,
  )
]

-- the `match` on the slash type
abbrev pub jails : SlashType → Bool
jails double_sign = true
jails double_propose = true
jails _ = false

-- the validator after a slash
unfoldable pub slashed : SlashEvent → Validator → Validator
slashed event v =
    let stake = v.stake - slash_amount v.stake event in
    record v {
      stake = stake;
      total_stake = add_u64 stake v.delegated_stake;
      status = if jails event.slash_type then jailed else v.status;
    }

unfoldable pub slash : SlashEvent → ValidatorSet → Outcome ℕ
slash event self = elim (lookup event.validator_id self.validators) [
  | none ↦ (self, err validator_not_found)
  | some v ↦
      let amount = slash_amount v.stake event in
      (
        record self {
          validators = insert event.validator_id (slashed event v) self.validators;
          total_stake = self.total_stake - amount;
          active_count =
              if jails event.slash_type then self.active_count - 1 else self.active_count;
        },
        ok amount,
      )
]

-- `entry(delegator_id).or_insert_with(...)`, then `staked_amount += amount`
unfoldable pub credited : ℕ → ℕ → ℕ → Option Delegator → Delegator
credited delegator_id validator_id amount entry =
    let d = get_or entry (delegator_new delegator_id validator_id amount) in
    record d { staked_amount = add_u64 d.staked_amount amount }

unfoldable pub delegate : ℕ → ℕ → ℕ → ValidatorSet → Outcome (Unit {0})
delegate delegator_id validator_id amount self = elim (lookup validator_id self.validators) [
  | none ↦ (self, err validator_not_found)
  | some v ↦ if not (is_active v.status) then (self, err invalid_state_transition) else (
    record self {
      delegators =
          insert delegator_id
            (credited delegator_id validator_id amount (lookup delegator_id self.delegators))
            self.delegators;
      validators = insert validator_id (add_delegation amount v) self.validators;
      total_stake = add_u64 self.total_stake amount;
    },
    ok tt,
  )
]

unfoldable pub undelegate_from : ℕ → ℕ → Delegator → Option Validator → ValidatorSet → Outcome ℕ
undelegate_from delegator_id amount d none self = (self, err validator_not_found)
undelegate_from delegator_id amount d (some v) self =
    let actual = min amount d.staked_amount in
    (
      record self {
        delegators =
            insert delegator_id (record d { staked_amount = d.staked_amount - actual })
              self.delegators;
        validators = insert d.validator_id (remove_delegation actual v) self.validators;
        total_stake = self.total_stake - actual;
      },
      ok actual,
    )

unfoldable pub undelegate : ℕ → ℕ → ValidatorSet → Outcome ℕ
undelegate delegator_id amount self = elim (lookup delegator_id self.delegators) [
  | none ↦ (self, err delegator_not_found)
  | some d ↦ undelegate_from delegator_id amount d (lookup d.validator_id self.validators) self
]

unfoldable pub get_validator : ℕ → ValidatorSet → Option Validator
get_validator validator_id self = lookup validator_id self.validators

-- the filter of `get_active_validators`
unfoldable pub filter_active : List Validator → List Validator
filter_active [] = []
filter_active (v ∷ rest) =
    let tail = filter_active rest in if is_active v.status then v ∷ tail else tail

unfoldable pub get_active_validators : ValidatorSet → List Validator
get_active_validators self = filter_active (values self.validators)

unfoldable pub quorum_threshold : ValidatorSet → ℕ
quorum_threshold self = add_u64 (mul_u64 self.total_stake 2 / 3) 1

unfoldable pub has_quorum : ℕ → ValidatorSet → Bool
has_quorum voting_power self = leb (quorum_threshold self) voting_power

unfoldable pub advance_epoch : ℕ → ValidatorSet → ValidatorSet
advance_epoch new_epoch self = record self { current_epoch = new_epoch }
