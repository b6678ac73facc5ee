-- ===== src/Settlement/Registry.antt =====
-- crates/truth/src/settlement.rs: OperatorRegistry. `get_mut` hands out a reference and is not a
-- function of the model: its callers store the record that they change.
pub mod Index
pub mod Standing
use Prim.Native.String.{String}
use lite_vision.Prelude.{
  ℕ, ◌-◌, ◌/◌, Bool, true, false, not, ◌&&◌, Option, none, some, List, [], ◌∷◌, ◌++◌, min, add_u64,
  add_u32, ltb, leb, ◌==◌, if◌then◌else◌, Result, ok, err,
}
use lite_vision.Ord.{nat_ord}
use lite_vision.OrdMap.{Map, lookup, insert, update, values}
use lite_vision.Settlement.{StateError, operator_not_found, insufficient_stake}

pub data OperatorRegistrationStatus : Type 0 where
  registered active suspended slashed deregistered : OperatorRegistrationStatus

pub record OperatorState : Type 0 where
  pub id : ℕ
  pub pubkey : ℕ
  pub stake : ℕ
  pub reputation : ℕ
  pub status : OperatorRegistrationStatus
  pub region : String
  pub capabilities : List ℕ
  pub slashed_count : ℕ  -- u32
  pub total_jobs_completed : ℕ
  pub total_compute_units : ℕ
  pub last_update_block : ℕ

pub record OperatorRegistry : Type 0 where
  pub operators : Map ℕ OperatorState
  pub stake_index : Map ℕ (List ℕ)

abbrev pub is_active_status : OperatorRegistrationStatus → Bool
is_active_status active = true
is_active_status _ = false

abbrev pub is_suspended_status : OperatorRegistrationStatus → Bool
is_suspended_status suspended = true
is_suspended_status _ = false

unfoldable pub new : OperatorRegistry
new = record { operators = []; stake_index = [] }

-- `ids.retain(|i| *i != id)`
unfoldable pub retain_other : ℕ → List ℕ → List ℕ
retain_other id [] = []
retain_other id (i ∷ ids) = let rest = retain_other id ids in if i == id then rest else i ∷ rest

-- `entry(bucket).or_insert_with(Vec::new).push(id)`
unfoldable pub push_index : ℕ → ℕ → Map ℕ (List ℕ) → Map ℕ (List ℕ)
push_index bucket id = update bucket [] (λ ids. ids ++ id ∷ [])

-- `if let Some(ids) = get_mut(&bucket) { ids.retain(..) }`
unfoldable pub drop_index : ℕ → ℕ → Map ℕ (List ℕ) → Map ℕ (List ℕ)
drop_index bucket id index = elim (lookup bucket index) [
  | some ids ↦ insert bucket (retain_other id ids) index
  | none ↦ index
]

unfoldable pub register : OperatorState → OperatorRegistry → OperatorRegistry
register operator self = record {
  stake_index = push_index (operator.stake / 1000) operator.id self.stake_index;
  operators = insert operator.id operator self.operators;
}

unfoldable pub get : ℕ → OperatorRegistry → Option OperatorState
get id self = lookup id self.operators

unfoldable pub is_active : ℕ → OperatorRegistry → Bool
is_active id self = elim (lookup id self.operators) [
  | some o ↦ is_active_status o.status
  | none ↦ false
]

abbrev pub Outcome : Type 0 → Type 0
Outcome A = OperatorRegistry × Result StateError A

unfoldable pub update_stake : ℕ → ℕ → OperatorRegistry → Outcome (Unit {0})
update_stake id new_stake self = elim (lookup id self.operators) [
  | none ↦ (self, err operator_not_found)
  | some o ↦ (
    record {
      operators = insert id (record o { stake = new_stake }) self.operators;
      stake_index =
          push_index (new_stake / 1000) o.id (drop_index (o.stake / 1000) o.id self.stake_index);
    },
    ok tt,
  )
]

unfoldable pub deactivate : ℕ → OperatorRegistry → OperatorRegistry
deactivate id self = elim (lookup id self.operators) [
  | some o ↦ record self {
    operators = insert id (record o { status = deregistered }) self.operators;
  }
  | none ↦ self
]

-- the bucket is computed from the reduced stake, as in the source
unfoldable pub slash : ℕ → ℕ → OperatorRegistry → Outcome ℕ
slash id amount self = elim (lookup id self.operators) [
  | none ↦ (self, err operator_not_found)
  | some o ↦ if ltb o.stake amount then (self, err insufficient_stake) else (
    record {
      operators =
          insert id
            (record o {
              stake = o.stake - amount;
              slashed_count = add_u32 o.slashed_count 1;
              status = slashed;
            })
            self.operators;
      stake_index = drop_index ((o.stake - amount) / 1000) o.id self.stake_index;
    },
    ok amount,
  )
]

-- the operator after a rise of its reputation
unfoldable pub raised : ℕ → OperatorState → OperatorState
raised delta o =
    let reputation = min (add_u64 o.reputation delta) 10000 in
    record o {
      reputation = reputation;
      status = if is_suspended_status o.status && leb 1000 reputation then active else o.status;
    }

unfoldable pub increase_reputation : ℕ → ℕ → OperatorRegistry → OperatorRegistry
increase_reputation id delta self = elim (lookup id self.operators) [
  | some o ↦ record self { operators = insert id (raised delta o) self.operators }
  | none ↦ self
]

unfoldable pub lowered : ℕ → OperatorState → OperatorState
lowered delta o =
    let reputation = o.reputation - delta in
    record o {
      reputation = reputation;
      status = if is_active_status o.status && ltb reputation 500 then suspended else o.status;
    }

unfoldable pub decrease_reputation : ℕ → ℕ → OperatorRegistry → OperatorRegistry
decrease_reputation id delta self = elim (lookup id self.operators) [
  | some o ↦ record self { operators = insert id (lowered delta o) self.operators }
  | none ↦ self
]

-- the filter of `get_active_operators`
unfoldable pub filter_active : List OperatorState → List OperatorState
filter_active [] = []
filter_active (o ∷ rest) =
    let tail = filter_active rest in if is_active_status o.status then o ∷ tail else tail

unfoldable pub get_active_operators : OperatorRegistry → List OperatorState
get_active_operators self = filter_active (values self.operators)
