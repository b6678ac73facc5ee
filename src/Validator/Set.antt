-- ===== src/Validator/Set.antt =====
-- crates/truth/src/validator.rs: ValidatorSet, but for its rewards and its hash. The amount that a
-- fault costs, which the source computes with floats, is a parameter.
mod Unique
mod Tests
use Prim.Native.String.{String}
use lite_vision.Prelude.{
  ℕ, ◌+◌, ◌-◌, ◌*◌, ◌/◌, ◌==◌, Bool, true, false, not, ◌&&◌, ◌||◌, Option, none, some, List, [],
  ◌∷◌, ◌++◌, map, length, take, ltb, leb, if◌then◌else◌, add_u64, sub_u64, Result, ok, err,
}
use lite_vision.Ord.{nat_ord}
use lite_vision.OrdMap.{Map, lookup, insert, is_some}
use lite_vision.Validator
use lite_vision.Validator.{
  Validator, ValidatorStatus, active, jailed, unbonding, is_active_status, update_stake,
  add_delegation, jail, unjail, start_unbonding, can_unbond,
}

abbrev pub min_stake : ℕ
min_stake = 1000

abbrev pub max_validators : ℕ
max_validators = 100

pub record Delegation : Type 0 where
  pub delegator_id : ℕ
  pub validator_id : ℕ
  pub amount : ℕ
  pub accumulated_rewards : ℕ

unfoldable pub delegation_new : ℕ → ℕ → ℕ → Delegation
delegation_new delegator_id validator_id amount = record {
  delegator_id = delegator_id;
  validator_id = validator_id;
  amount = amount;
  accumulated_rewards = 0;
}

pub data SlashType : Type 0 where
  double_sign equivocation liveness_failure : SlashType

pub record SlashingRecord : Type 0 where
  pub validator_id : ℕ
  pub epoch : ℕ
  pub slash_type : SlashType
  pub slash_amount : ℕ
  pub evidence_hash : ℕ

-- the factors of a double sign and of an equivocation, applied to a total stake
pub record Factors : Type 0 where
  pub double_sign_of : ℕ → ℕ
  pub equivocation_of : ℕ → ℕ

unfoldable pub slash_amount : Factors → SlashType → ℕ → ℕ
slash_amount h double_sign total = h.double_sign_of total
slash_amount h equivocation total = h.equivocation_of total
slash_amount h liveness_failure total = 0

unfoldable pub record_new : Factors → ℕ → ℕ → SlashType → ℕ → ℕ → SlashingRecord
record_new h validator_id epoch slash_type total evidence_hash = record {
  validator_id = validator_id;
  epoch = epoch;
  slash_type = slash_type;
  slash_amount = slash_amount h slash_type total;
  evidence_hash = evidence_hash;
}

pub record ValidatorSet : Type 0 where
  pub validators : List Validator
  pub total_stake : ℕ
  pub delegations : Map ℕ (List Delegation)
  pub slashing_records : List SlashingRecord
  pub current_epoch : ℕ

unfoldable pub set_new : ValidatorSet
set_new = record {
  validators = [];
  total_stake = 0;
  delegations = [];
  slashing_records = [];
  current_epoch = 0;
}

-- `.find(|v| v.id == *id)`
unfoldable pub find : ℕ → List Validator → Option Validator
find id [] = none
find id (v ∷ vs) = let rest = find id vs in if v.id == id then some v else rest

unfoldable pub get : ℕ → ValidatorSet → Option Validator
get id self = find id self.validators

-- get_mut, with what the caller does to the validator
unfoldable pub modify : ℕ → (Validator → Validator) → List Validator → List Validator
modify id f [] = []
modify id f (v ∷ vs) = let rest = modify id f vs in if v.id == id then f v ∷ vs else v ∷ rest

unfoldable pub add : Validator → ValidatorSet → ValidatorSet × Result String (Unit {0})
add v self =
    if leb max_validators (length self.validators)
    then (self, err "Maximum validator count reached")
    else if ltb v.stake min_stake
    then (self, err "Minimum stake 1000 required")
    else if is_some (find v.id self.validators)
    then (self, err "Validator already exists")
    else (
      record self {
        total_stake = add_u64 self.total_stake (Validator.total_stake v);
        validators = self.validators ++ v ∷ [];
      },
      ok tt,
    )

-- `self.validators.remove(pos)`, for the position of the id
unfoldable pub remove_first : ℕ → List Validator → List Validator
remove_first id [] = []
remove_first id (v ∷ vs) = let rest = remove_first id vs in if v.id == id then vs else v ∷ rest

unfoldable pub remove : ℕ → ValidatorSet → ValidatorSet × Option Validator
remove id self = elim (find id self.validators) [
  | none ↦ (self, none)
  | some v ↦ (
    record self {
      validators = remove_first id self.validators;
      total_stake = sub_u64 self.total_stake (Validator.total_stake v);
    },
    some v,
  )
]

unfoldable pub filter_active : List Validator → List Validator
filter_active [] = []
filter_active (v ∷ vs) =
    let rest = filter_active vs in if is_active_status v.status then v ∷ rest else rest

unfoldable pub get_active : ValidatorSet → List Validator
get_active self = filter_active self.validators

unfoldable pub get_active_ids : ValidatorSet → List ℕ
get_active_ids self = map (λ v. v.id) (get_active self)

unfoldable pub threshold : ValidatorSet → ℕ
threshold self = let n = length (get_active self) in if n == 0 then 0 else n * 2 / 3 + 1

-- `.map(|v| v.total_stake()).sum()`
unfoldable pub sum_stakes : List Validator → ℕ
sum_stakes [] = 0
sum_stakes (v ∷ vs) = add_u64 (Validator.total_stake v) (sum_stakes vs)

unfoldable pub total_active_stake : ValidatorSet → ℕ
total_active_stake self = sum_stakes (get_active self)

unfoldable pub bond : ℕ → ℕ → ValidatorSet → ValidatorSet × Result String (Unit {0})
bond id amount self = elim (get id self) [
  | none ↦ (self, err "Validator not found")
  | some v ↦ (
    record self {
      validators = modify id (update_stake (add_u64 v.stake amount)) self.validators;
      total_stake = add_u64 self.total_stake amount;
    },
    ok tt,
  )
]

unfoldable pub unbond_start : ℕ → ValidatorSet → ValidatorSet × Result String (Unit {0})
unbond_start id self = elim (get id self) [
  | none ↦ (self, err "Validator not found")
  | some v ↦ if not (is_active_status v.status) then (self, err "Validator not active") else (
    record self { validators = modify id (start_unbonding self.current_epoch) self.validators },
    ok tt,
  )
]

unfoldable pub unbond_complete : ℕ → ValidatorSet → ValidatorSet × Result String ℕ
unbond_complete id self = elim (get id self) [
  | none ↦ (self, err "Validator not found")
  | some v ↦
      if not (can_unbond self.current_epoch v)
      then (self, err "Unbonding period not complete")
      else (
        record self {
          validators = modify id Validator.remove self.validators;
          total_stake = self.total_stake - v.stake;
        },
        ok v.stake,
      )
]

-- `.entry(id).or_default()`
abbrev entry_or_default : ℕ → Map ℕ (List Delegation) → List Delegation
entry_or_default id delegations = elim (lookup id delegations) [ none ↦ [] | some ds ↦ ds ]

unfoldable pub delegate : ℕ → ℕ → ℕ → ValidatorSet → ValidatorSet × Result String (Unit {0})
delegate delegator_id id amount self = elim (get id self) [
  | none ↦ (self, err "Validator not found")
  | some v ↦
      if not (is_active_status v.status)
      then (self, err "Cannot delegate to inactive validator")
      else (
        record self {
          validators = modify id (add_delegation amount) self.validators;
          total_stake = add_u64 self.total_stake amount;
          delegations =
              insert delegator_id
                (entry_or_default delegator_id self.delegations
                  ++ delegation_new delegator_id id amount ∷ [])
                self.delegations;
        },
        ok tt,
      )
]

unfoldable pub slash : Factors → ℕ → SlashType → ℕ → ValidatorSet → ValidatorSet × Result String ℕ
slash h id slash_type evidence_hash self = elim (get id self) [
  | none ↦ (self, err "Validator not found")
  | some v ↦
      let entry =
        record_new h id self.current_epoch slash_type (Validator.total_stake v) evidence_hash in
      (
        record self {
          validators = modify id (jail self.current_epoch entry.slash_amount) self.validators;
          total_stake = self.total_stake - entry.slash_amount;
          slashing_records = self.slashing_records ++ entry ∷ [];
        },
        ok entry.slash_amount,
      )
]

abbrev is_jailed : ValidatorStatus → Bool
is_jailed jailed = true
is_jailed _ = false

abbrev is_unbonding : ValidatorStatus → Bool
is_unbonding unbonding = true
is_unbonding _ = false

-- the first half of a round of process_epoch_transition
unfoldable pub release : ℕ → Validator → Validator
release epoch v = if is_jailed v.status && leb v.jailed_until epoch then (unjail epoch v).0 else v

unfoldable pub exits : ℕ → Validator → Bool
exits epoch v = is_unbonding v.status && can_unbond epoch v

unfoldable pub epoch_loop : ℕ → List Validator → List Validator × List ℕ
epoch_loop epoch [] = ([], [])
epoch_loop epoch (v ∷ vs) =
    let rest = epoch_loop epoch vs in
    let w = release epoch v in (w ∷ rest.0, if exits epoch w then w.id ∷ rest.1 else rest.1)

unfoldable pub process_epoch_transition : ℕ → ValidatorSet → ValidatorSet × List ℕ
process_epoch_transition epoch self =
    let out = epoch_loop epoch self.validators in
    (record self { current_epoch = epoch; validators = out.0 }, out.1)

-- a stable sort, the largest power first
abbrev pub insert_by_power : Validator → List Validator → List Validator
insert_by_power v [] = v ∷ []
insert_by_power v (w ∷ ws) =
    let rest = insert_by_power v ws in if leb w.power v.power then v ∷ (w ∷ ws) else w ∷ rest

abbrev pub sorted_by_power : List Validator → List Validator
sorted_by_power [] = []
sorted_by_power (v ∷ vs) = insert_by_power v (sorted_by_power vs)

unfoldable pub sort_by_power : ValidatorSet → ValidatorSet
sort_by_power self = record self { validators = sorted_by_power self.validators }

unfoldable pub select_top_validators : ℕ → ValidatorSet → List Validator
select_top_validators n self = take n (sorted_by_power (get_active self))
