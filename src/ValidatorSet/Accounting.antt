-- ===== src/ValidatorSet/Accounting.antt =====
-- crates/truth/src/validator_set.rs: the total stake beside the stakes of the validators, under the
-- operations other than slashing and delegation.
use lite_vision.Prelude.{
  ℕ, ◌+◌, ◌≤◌, ◌<◌, ◌≡◌, ◌≢◌, refl, Bool, true, false, not, none, some, u64_mod, ltb, if◌then◌else◌,
  arith, Option-cases, inl, inr,
}
use lite_vision.Ord.{nat_ord, eq_of_eqb}
use lite_vision.OrdMap.{lookup, insert, contains_key}
use lite_vision.OrdMap.Lookup.{lookup-insert, lookup-remove}
use lite_vision.OrdMap.Sorted.{IsSorted, insert-IsSorted, remove-IsSorted}
use lite_vision.OrdMap.Sum.{sum_by, sum_by-insert, sum_by-remove, weight-le}
use lite_vision.ValidatorSet.{
  ValidatorStatus, pending, active, unbonding, jailed, removed, Validator, ValidatorSet, activate,
}
use lite_vision.ValidatorSet.Operations.{
  new, add_validator, activate_validator, remove_validator, start_unbonding, complete_unbonding,
  jail_validator, unjail_validator, is_active, is_pending, is_unbonding, is_jailed, Outcome,
}

-- what a validator contributes to the total: nothing once it is removed
abbrev pub live_of : ValidatorStatus → ℕ → ℕ
live_of removed total = 0
live_of pending total = total
live_of active total = total
live_of unbonding total = total
live_of jailed total = total

abbrev pub live : Validator → ℕ
live v = live_of v.status v.total_stake

-- own and delegated stake make the total of a validator
abbrev pub Adds : Validator → Type 0
Adds v = v.total_stake ≡ v.stake + v.delegated_stake

pub record IsBalanced (s : ValidatorSet) : Type 0 where
  pub sorted : IsSorted s.validators
  pub sums : s.total_stake ≡ sum_by live s.validators
  pub each : (id : ℕ) (v : Validator) → lookup id s.validators ≡ some v → Adds v
  pub fits : s.total_stake < u64_mod

pub new-IsBalanced : IsBalanced new
unfolding new lookup sum_by
new-IsBalanced = record { sorted = tt; sums = refl; each = λ id v h. cc; fits = omega arith }

-- One validator is replaced, and the total moves as its contribution does.
pub store-IsBalanced :
    (s t : ValidatorSet) (id : ℕ) (v v' : Validator)
    → IsBalanced s
    → lookup id s.validators ≡ some v
    → Adds v'
    → t.validators ≡ insert id v' s.validators
    → t.total_stake + live v ≡ s.total_stake + live v'
    → t.total_stake < u64_mod
    → IsBalanced t
store-IsBalanced s t id v v' b found adds stored moved small = record {
  sorted = rw stored (insert-IsSorted id v' s.validators b.sorted);
  sums = ground (arith, sum_by-insert live id v' s.validators b.sorted, b.sums);
  each = λ j w h. ground (arith, lookup-insert id j v' s.validators, b.each j w, eq_of_eqb id j);
  fits = small;
}

-- a validator that is there contributes at most the total
pub live-le :
    (s : ValidatorSet) (id : ℕ) (v : Validator)
    → IsBalanced s
    → lookup id s.validators ≡ some v
    → live v ≤ s.total_stake
live-le s id v b found = ground (arith, weight-le live id s.validators, b.sums)

-- An operation that tests keeps the balance if both of its branches do.
pub branch-IsBalanced :
    {A : Type 0} (c : Bool) (x y : Outcome A)
    → (c ≡ true → IsBalanced x.0)
    → (c ≡ false → IsBalanced y.0)
    → IsBalanced (if c then x else y).0
branch-IsBalanced true x y h k = h refl
branch-IsBalanced false x y h k = k refl

pub add_validator-IsBalanced :
    (v : Validator) (min_stake : ℕ) (s : ValidatorSet)
    → IsBalanced s
    → Adds v
    → s.total_stake + v.total_stake < u64_mod
    → IsBalanced (add_validator v min_stake s).0
unfolding add_validator
add_validator-IsBalanced v min_stake s b adds room =
    branch-IsBalanced (ltb v.stake min_stake) _ _ (λ _. b)
      λ _.
        branch-IsBalanced (contains_key v.id s.validators) _ _ (λ _. b)
          λ free.
            let v' : Validator = record v { status = pending } in
            let absent : lookup v.id s.validators ≡ none = unfold contains_key in ground arith in
            record {
              sorted = insert-IsSorted v.id v' s.validators b.sorted;
              sums = ground (arith, sum_by-insert live v.id v' s.validators b.sorted, b.sums);
              each = λ j w h.
                  ground
                    (arith, lookup-insert v.id j v' s.validators, b.each j w, eq_of_eqb v.id j);
              fits = omega arith;
            }

pub activate_validator-IsBalanced :
    (id time : ℕ) (s : ValidatorSet) → IsBalanced s → IsBalanced (activate_validator id time s).0
unfolding activate_validator activate
activate_validator-IsBalanced id time s b = elim (Option-cases (lookup id s.validators)) [
  | inl absent ↦ rw (absent, activate_validator) b
  | inr (v, found) ↦
      rw (found, activate_validator)
        (branch-IsBalanced (not (is_pending v.status)) _ _ (λ _. b)
          λ h.
            store-IsBalanced s _ id v (activate time v) b found (b.each id v found) refl
              (ground arith) b.fits)
]

pub start_unbonding-IsBalanced :
    (id time : ℕ) (s : ValidatorSet) → IsBalanced s → IsBalanced (start_unbonding id time s).0
unfolding start_unbonding
start_unbonding-IsBalanced id time s b = elim (Option-cases (lookup id s.validators)) [
  | inl absent ↦ rw (absent, start_unbonding) b
  | inr (v, found) ↦
      rw (found, start_unbonding)
        (branch-IsBalanced (not (is_active v.status)) _ _ (λ _. b)
          λ h. store-IsBalanced s _ id v _ b found (b.each id v found) refl (ground arith) b.fits)
]

pub complete_unbonding-IsBalanced :
    (id : ℕ) (s : ValidatorSet) → IsBalanced s → IsBalanced (complete_unbonding id s).0
unfolding complete_unbonding
complete_unbonding-IsBalanced id s b = elim (Option-cases (lookup id s.validators)) [
  | inl absent ↦ rw (absent, complete_unbonding) b
  | inr (v, found) ↦
      rw (found, complete_unbonding)
        (branch-IsBalanced (not (is_unbonding v.status)) _ _ (λ _. b)
          λ h.
            store-IsBalanced s _ id v _ b found (b.each id v found) refl
              (ground (arith, live-le s id v b found)) (omega (arith, b.fits)))
]

pub unjail_validator-IsBalanced :
    (id : ℕ) (s : ValidatorSet) → IsBalanced s → IsBalanced (unjail_validator id s).0
unfolding unjail_validator
unjail_validator-IsBalanced id s b = elim (Option-cases (lookup id s.validators)) [
  | inl absent ↦ rw (absent, unjail_validator) b
  | inr (v, found) ↦
      rw (found, unjail_validator)
        (branch-IsBalanced (not (is_jailed v.status)) _ _ (λ _. b)
          λ h. store-IsBalanced s _ id v _ b found (b.each id v found) refl (ground arith) b.fits)
]

-- the validator is not one that has left
abbrev pub IsLive : ℕ → ValidatorSet → Type 0
IsLive id s = (v : Validator) → lookup id s.validators ≡ some v → v.status ≢ removed

pub jail_validator-IsBalanced :
    (id : ℕ) (s : ValidatorSet) → IsLive id s → IsBalanced s → IsBalanced (jail_validator id s).0
unfolding jail_validator
jail_validator-IsBalanced id s l b = elim (Option-cases (lookup id s.validators)) [
  | inl absent ↦ rw (absent, jail_validator) b
  | inr (v, found) ↦
      rw (found, jail_validator)
        (store-IsBalanced s _ id v _ b found (b.each id v found) refl (ground (arith, l v found))
          b.fits)
]

pub remove_validator-IsBalanced :
    (id : ℕ) (s : ValidatorSet) → IsLive id s → IsBalanced s → IsBalanced (remove_validator id s).0
unfolding remove_validator
remove_validator-IsBalanced id s l b = elim (Option-cases (lookup id s.validators)) [
  | inl absent ↦ rw (absent, remove_validator) b
  | inr (v, found) ↦
      rw (found, remove_validator)
        (record {
          sorted = remove-IsSorted id s.validators b.sorted;
          sums = ground (arith, sum_by-remove live id s.validators b.sorted, b.sums, l v found);
          each = λ j w h. ground (arith, lookup-remove id j s.validators, b.each j w);
          fits = omega (arith, b.fits);
        })
]
