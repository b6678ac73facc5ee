-- ===== src/ValidatorSet/Activity.antt =====
-- crates/truth/src/validator_set.rs: the count of active validators.
use lite_vision.Prelude.{
  ℕ, ◌+◌, ◌≤◌, ◌<◌, ◌≡◌, refl, Bool, true, false, not, some, u32_mod, if◌then◌else◌, arith,
  Option-cases, inl, inr,
}
use lite_vision.Ord.{nat_ord}
use lite_vision.OrdMap.{lookup, insert}
use lite_vision.OrdMap.Sorted.{IsSorted, insert-IsSorted, remove-IsSorted}
use lite_vision.OrdMap.Sum.{sum_by, sum_by-insert, sum_by-remove, weight-le}
use lite_vision.ValidatorSet.{active, jailed, Validator, ValidatorSet, activate}
use lite_vision.ValidatorSet.Operations.{
  activate_validator, remove_validator, start_unbonding, jail_validator, unjail_validator,
  is_active, is_pending, is_jailed, Outcome,
}

-- 1 for an active validator
abbrev pub counted : Validator → ℕ
counted v = if is_active v.status then 1 else 0

pub record IsCounted (s : ValidatorSet) : Type 0 where
  pub sorted : IsSorted s.validators
  pub counts : s.active_count ≡ sum_by counted s.validators

store-IsCounted :
    (s t : ValidatorSet) (id : ℕ) (v v' : Validator)
    → IsCounted s
    → lookup id s.validators ≡ some v
    → t.validators ≡ insert id v' s.validators
    → t.active_count + counted v ≡ s.active_count + counted v'
    → IsCounted t
store-IsCounted s t id v v' b found stored moved = record {
  sorted = rw stored (insert-IsSorted id v' s.validators b.sorted);
  counts = ground (arith, sum_by-insert counted id v' s.validators b.sorted, b.counts);
}

counted-le :
    (s : ValidatorSet) (id : ℕ) (v : Validator)
    → IsCounted s
    → lookup id s.validators ≡ some v
    → counted v ≤ s.active_count
counted-le s id v b found = ground (arith, weight-le counted id s.validators, b.counts)

branch-IsCounted :
    {A : Type 0} (c : Bool) (x y : Outcome A)
    → (c ≡ true → IsCounted x.0)
    → (c ≡ false → IsCounted y.0)
    → IsCounted (if c then x else y).0
branch-IsCounted true x y h k = h refl
branch-IsCounted false x y h k = k refl

pub start_unbonding-IsCounted :
    (id time : ℕ) (s : ValidatorSet) → IsCounted s → IsCounted (start_unbonding id time s).0
unfolding start_unbonding
start_unbonding-IsCounted id time s b = elim (Option-cases (lookup id s.validators)) [
  | inl absent ↦ rw (absent, start_unbonding) b
  | inr (v, found) ↦
      rw (found, start_unbonding)
        (branch-IsCounted (not (is_active v.status)) _ _ (λ _. b)
          λ h. store-IsCounted s _ id v _ b found refl (ground (arith, counted-le s id v b found)))
]

pub activate_validator-IsCounted :
    (id time : ℕ) (s : ValidatorSet)
    → s.active_count + 1 < u32_mod
    → IsCounted s
    → IsCounted (activate_validator id time s).0
unfolding activate_validator activate
activate_validator-IsCounted id time s room b = elim (Option-cases (lookup id s.validators)) [
  | inl absent ↦ rw (absent, activate_validator) b
  | inr (v, found) ↦
      rw (found, activate_validator)
        (branch-IsCounted (not (is_pending v.status)) _ _ (λ _. b)
          λ h. store-IsCounted s _ id v (activate time v) b found refl (ground arith))
]

pub unjail_validator-IsCounted :
    (id : ℕ) (s : ValidatorSet)
    → s.active_count + 1 < u32_mod
    → IsCounted s
    → IsCounted (unjail_validator id s).0
unfolding unjail_validator
unjail_validator-IsCounted id s room b = elim (Option-cases (lookup id s.validators)) [
  | inl absent ↦ rw (absent, unjail_validator) b
  | inr (v, found) ↦
      rw (found, unjail_validator)
        (branch-IsCounted (not (is_jailed v.status)) _ _ (λ _. b)
          λ h. store-IsCounted s _ id v _ b found refl (ground arith))
]

pub remove_validator-IsCounted :
    (id : ℕ) (s : ValidatorSet) → IsCounted s → IsCounted (remove_validator id s).0
unfolding remove_validator
remove_validator-IsCounted id s b = elim (Option-cases (lookup id s.validators)) [
  | inl absent ↦ rw (absent, remove_validator) b
  | inr (v, found) ↦
      rw (found, remove_validator)
        (record {
          sorted = remove-IsSorted id s.validators b.sorted;
          counts = ground (arith, sum_by-remove counted id s.validators b.sorted, b.counts);
        })
]

-- Where the count of active validators is exact, jailing an active one leaves it one above their
-- number.
pub jail_active :
    (id : ℕ) (s : ValidatorSet) (v : Validator)
    → IsCounted s
    → lookup id s.validators ≡ some v
    → v.status ≡ active
    → (jail_validator id s).0.active_count ≡ sum_by counted (jail_validator id s).0.validators + 1
unfolding jail_validator
jail_active id s v b found up =
    ground (
      arith,
      sum_by-insert counted id (record v { status = jailed }) s.validators b.sorted,
      b.counts,
    )

-- Where the count of active validators is exact and one more fits in a u32, activation, unbonding,
-- unjailing and removal, successful or refused, keep it exact.
pub operations-IsCounted :
    (id time : ℕ) (s : ValidatorSet)
    → s.active_count + 1 < u32_mod
    → IsCounted s
    → IsCounted (activate_validator id time s).0
      × IsCounted (start_unbonding id time s).0
      × IsCounted (unjail_validator id s).0
      × IsCounted (remove_validator id s).0
operations-IsCounted id time s room b = (
  activate_validator-IsCounted id time s room b,
  start_unbonding-IsCounted id time s b,
  unjail_validator-IsCounted id s room b,
  remove_validator-IsCounted id s b,
)
