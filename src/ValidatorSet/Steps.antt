-- ===== src/ValidatorSet/Steps.antt =====
-- crates/truth/src/validator_set.rs: histories of a validator set.
use lite_vision.Prelude.{ℕ, ◌≡◌, refl, List, arith, ◌+◌, ◌≤◌, ◌<◌, u64_mod}
use lite_vision.ValidatorSet.{Validator, ValidatorMetadata, SlashEvent, ValidatorSet, validator_new}
use lite_vision.ValidatorSet.Operations.{
  new, add_validator, activate_validator, remove_validator, start_unbonding, complete_unbonding,
  jail_validator, unjail_validator, slash, delegate, undelegate, advance_epoch,
}
use lite_vision.ValidatorSet.Stakes.{
  IsCovered, slash-IsBalanced, delegate-IsBalanced, undelegate-IsBalanced,
}
use lite_vision.ValidatorSet.Accounting.{
  IsBalanced, Adds, IsLive, new-IsBalanced, add_validator-IsBalanced, activate_validator-IsBalanced,
  remove_validator-IsBalanced, start_unbonding-IsBalanced, complete_unbonding-IsBalanced,
  jail_validator-IsBalanced, unjail_validator-IsBalanced,
}

-- a validator as Validator::new makes it, with its metadata filled in
unfoldable pub made : ℕ → List ℕ → ℕ → ValidatorMetadata → Validator
made id key own metadata = record (validator_new id key own) { metadata = metadata }

made-Adds :
    (id : ℕ) (key : List ℕ) (own : ℕ) (metadata : ValidatorMetadata)
    → Adds (made id key own metadata) × ((made id key own metadata).total_stake ≡ own)
unfolding made validator_new
made-Adds id key own metadata = (omega arith, refl)

-- A call, successful or refused. The premises are what the caller must see to: no overflow, a
-- percentage of at most 100, no jailing, slashing or removal of a validator that has left, and no
-- withdrawal from one nor beyond what is delegated to the validator.
pub data Step : ValidatorSet → ValidatorSet → Type 0 where
  add :
      (id : ℕ) (key : List ℕ) (own : ℕ) (metadata : ValidatorMetadata) (min_stake : ℕ)
      (s : ValidatorSet)
      → s.total_stake + own < u64_mod
      → Step s (add_validator (made id key own metadata) min_stake s).0
  activate : (id time : ℕ) (s : ValidatorSet) → Step s (activate_validator id time s).0
  leave : (id : ℕ) (s : ValidatorSet) → IsLive id s → Step s (remove_validator id s).0
  unbond : (id time : ℕ) (s : ValidatorSet) → Step s (start_unbonding id time s).0
  unbonded : (id : ℕ) (s : ValidatorSet) → Step s (complete_unbonding id s).0
  jail : (id : ℕ) (s : ValidatorSet) → IsLive id s → Step s (jail_validator id s).0
  unjail : (id : ℕ) (s : ValidatorSet) → Step s (unjail_validator id s).0
  punish :
      (event : SlashEvent) (s : ValidatorSet)
      → event.slash_percentage ≤ 100
      → IsLive event.validator_id s
      → Step s (slash event s).0
  stake :
      (who id amount : ℕ) (s : ValidatorSet)
      → s.total_stake + amount < u64_mod
      → Step s (delegate who id amount s).0
  unstake :
      (who amount : ℕ) (s : ValidatorSet)
      → IsCovered who amount s
      → Step s (undelegate who amount s).0
  epoch : (n : ℕ) (s : ValidatorSet) → Step s (advance_epoch n s)

pub data Reach (s : ValidatorSet) : ValidatorSet → Type 0 where
  here : Reach s s
  next : {t u : ValidatorSet} → Reach s t → Step t u → Reach s u

Step-IsBalanced : {s t : ValidatorSet} → Step s t → IsBalanced s → IsBalanced t
unfolding advance_epoch
Step-IsBalanced (add id key own metadata m s room) b =
    let (adds, total) = made-Adds id key own metadata in
    add_validator-IsBalanced (made id key own metadata) m s b adds (omega (arith, total))
Step-IsBalanced (activate id time s) b = activate_validator-IsBalanced id time s b
Step-IsBalanced (leave id s l) b = remove_validator-IsBalanced id s l b
Step-IsBalanced (unbond id time s) b = start_unbonding-IsBalanced id time s b
Step-IsBalanced (unbonded id s) b = complete_unbonding-IsBalanced id s b
Step-IsBalanced (jail id s l) b = jail_validator-IsBalanced id s l b
Step-IsBalanced (unjail id s) b = unjail_validator-IsBalanced id s b
Step-IsBalanced (punish event s h l) b = slash-IsBalanced event s h l b
Step-IsBalanced (stake who id amount s room) b = delegate-IsBalanced who id amount s room b
Step-IsBalanced (unstake who amount s c) b = undelegate-IsBalanced who amount s c b
Step-IsBalanced (epoch n s) b = record {
  sorted = b.sorted;
  sums = b.sums;
  each = b.each;
  fits = b.fits;
}

-- From the empty set, by any sequence of calls, successful or refused, where the added validators
-- are as Validator::new makes them with any metadata, the total with each stake added or delegated
-- fits in a u64, no validator that has left is jailed, slashed, removed or paid back from, a slash
-- takes at most 100 percent, and a withdrawal pays at most what is delegated to the validator: the
-- total stake is the sum over the validators that have not left, each total is own plus delegated
-- stake, and the total stake fits in a u64.
pub Reach-IsBalanced : {s : ValidatorSet} → Reach new s → IsBalanced s
Reach-IsBalanced here = new-IsBalanced
Reach-IsBalanced (next r step) = Step-IsBalanced step (Reach-IsBalanced r)
