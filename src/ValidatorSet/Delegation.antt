-- ===== src/ValidatorSet/Delegation.antt =====
-- crates/truth/src/validator_set.rs: what is credited to a delegator.
use lite_vision.Prelude.{ℕ, ◌+◌, ◌*◌, ◌<◌, ◌≡◌, none, some, ok, u64_mod, arith}
use lite_vision.Ord.{nat_ord}
use lite_vision.OrdMap.{lookup}
use lite_vision.OrdMap.Lookup.{lookup-insert_self}
use lite_vision.ValidatorSet.{Validator, ValidatorSet, active, add_delegation, delegator_new}
use lite_vision.ValidatorSet.Operations.{delegate, credited, undelegate, undelegate_from}

-- The first delegation of an account, to an active validator, is accepted and credited to the
-- account twice, while the validator and the total grow by the amount once. (Twice the amount, and
-- both sums, fit in a u64.)
pub delegate_first :
    (who id amount : ℕ) (s : ValidatorSet) (v : Validator)
    → lookup who s.delegators ≡ none
    → lookup id s.validators ≡ some v
    → v.status ≡ active
    → amount * 2 < u64_mod
    → v.delegated_stake + amount < u64_mod
    → s.total_stake + amount < u64_mod
    → ((delegate who id amount s).1 ≡ ok tt)
      × (lookup who (delegate who id amount s).0.delegators
          ≡ some (record {
            id = who;
            validator_id = id;
            staked_amount = amount * 2;
            rewards_accumulated = 0;
          }))
      × (lookup id (delegate who id amount s).0.validators ≡ some (add_delegation amount v))
      × ((add_delegation amount v).delegated_stake ≡ v.delegated_stake + amount)
      × ((delegate who id amount s).0.total_stake ≡ s.total_stake + amount)
unfolding delegate add_delegation credited delegator_new
delegate_first who id amount s v unknown found up fits_two fits fits_total = (
  ground arith,
  ground (
    arith,
    lookup-insert_self who (credited who id amount (lookup who s.delegators)) s.delegators,
  ),
  ground (arith, lookup-insert_self id (add_delegation amount v) s.validators),
  ground arith,
  ground arith,
)

-- After its first delegation, to an active validator, an account can withdraw twice the amount in
-- one call and is paid it. (Twice the amount, and both sums, fit in a u64.)
pub undelegate-delegate_first :
    (who id amount : ℕ) (s : ValidatorSet) (v : Validator)
    → lookup who s.delegators ≡ none
    → lookup id s.validators ≡ some v
    → v.status ≡ active
    → amount * 2 < u64_mod
    → v.delegated_stake + amount < u64_mod
    → s.total_stake + amount < u64_mod
    → (undelegate who (amount * 2) (delegate who id amount s).0).1 ≡ ok (amount * 2)
unfolding undelegate undelegate_from
undelegate-delegate_first who id amount s v unknown found up fits_two fits fits_total =
    let first = delegate_first who id amount s v unknown found up fits_two fits fits_total in
    ground (arith, first)
