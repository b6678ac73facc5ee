-- ===== src/ValidatorSet/Tests.antt =====
-- crates/truth/src/validator_set.rs: its unit tests, and the theorems at concrete sets.
use mathlib.Core.Option.{some_inj}
use lite_vision.Prelude.{◌+◌, u64_mod, ap, some, ◌*◌, ◌<◌, ◌≡◌, refl, none, [], ◌∷◌, ok, arith}
use lite_vision.Ord.{nat_ord, eqb}
use lite_vision.OrdMap.{lookup, insert, contains_key}
use lite_vision.OrdMap.Sum.{sum_by}
use lite_vision.ValidatorSet.{
  delegator_new, Delegator, Validator, ValidatorSet, SlashEvent, double_sign, active, validator_new,
  activate, slash_amount, add_delegation,
}
use lite_vision.ValidatorSet.Operations.{
  new, credited, delegate, undelegate, add_validator, activate_validator, slash, has_quorum,
  quorum_threshold,
}
use lite_vision.ValidatorSet.Accounting.{IsBalanced}
use lite_vision.ValidatorSet.Steps
use lite_vision.ValidatorSet.Steps.{made, Reach, Reach-IsBalanced}
use lite_vision.ValidatorSet.Stakes.{IsCovered}
use lite_vision.ValidatorSet.Quorum.{quorums_intersect}
use lite_vision.ValidatorSet.Activity.{IsCounted}

-- an active validator with the id 1 and a stake of 1000
abbrev alice : Validator
alice = record {
  id = 1;
  public_key = 1 ∷ 2 ∷ 3 ∷ [];
  stake = 1000;
  delegated_stake = 0;
  total_stake = 1000;
  status = active;
  metadata = record {
    endpoint = "";
    name = "";
    commission_rate = 500;
    uptime_blocks = 0;
    missed_blocks = 0;
  };
  joined_at = 100;
  unbonding_start = none;
}

abbrev one : ValidatorSet
one = record {
  validators = (1, alice) ∷ [];
  delegators = [];
  total_stake = 1000;
  active_count = 1;
  current_epoch = 0;
}

-- test_add_validator, test_activate_validator
activation :
    (activate_validator 1 100 (add_validator (validator_new 1 (1 ∷ 2 ∷ 3 ∷ []) 1000) 500 new).0).0
    ≡ one
unfolding activate_validator activate add_validator validator_new new contains_key lookup insert eqb
activation = refl

-- test_slash
abbrev double : SlashEvent
double = record {
  validator_id = 1;
  slash_type = double_sign;
  evidence = [];
  block_height = 100;
  slash_percentage = 10;
  timestamp = 0;
}

slash_ten : (slash double one).1 ≡ ok 100
unfolding slash lookup eqb slash_amount
slash_ten = refl

-- a validator is added, is given 100 by the delegator 7 and pays back 40
abbrev running : ValidatorSet
running = (activate_validator 1 5 (add_validator (made 1 [] 1000 alice.metadata) 500 new).0).0

abbrev staked : ValidatorSet
staked = (delegate 7 1 100 running).0

stake_fits : running.total_stake + 100 < u64_mod
unfolding activate_validator activate add_validator made validator_new new contains_key lookup
    insert eqb
stake_fits = omega arith

withdraws : IsCovered 7 40 staked
unfolding delegate activate_validator activate add_validator made validator_new new contains_key
    lookup insert eqb add_delegation credited delegator_new
withdraws d v known found =
    let of_one : 1 ≡ d.validator_id = ap (λ (x : Delegator). x.validator_id) (some_inj.0 known) in
    let there : lookup 1 staked.validators ≡ some v = rw (← of_one) at found in
    let is = some_inj.0 there in
    let lent : 100 ≡ v.delegated_stake = ap (λ (x : Validator). x.delegated_stake) is in
    let staked_twice : 200 ≡ d.staked_amount =
      ap (λ (x : Delegator). x.staked_amount) (some_inj.0 known) in
    let up : active ≡ v.status = ap (λ (x : Validator). x.status) is in
    (omega (arith, lent, staked_twice), ground (arith, up))

Reach-IsBalanced_example : IsBalanced (undelegate 7 40 staked).0
Reach-IsBalanced_example = Reach-IsBalanced (
    Reach.next
      (Reach.next
        (Reach.next
          (Reach.next Reach.here
            (Steps.Step.add 1 [] 1000 alice.metadata 500 new (unfold new in omega arith)))
          (Steps.Step.activate 1 5 (add_validator (made 1 [] 1000 alice.metadata) 500 new).0))
        (Steps.Step.stake 7 1 100 running stake_fits))
      (Steps.Step.unstake 7 40 staked withdraws))

quorums_intersect_example : 1000 < 400 * 3
quorums_intersect_example =
    quorums_intersect 700 700 400 one (omega arith) (unfold has_quorum quorum_threshold in refl)
      (unfold has_quorum quorum_threshold in refl) (omega arith)

one-IsCounted : IsCounted one
unfolding sum_by
one-IsCounted = record { sorted = (tt, tt); counts = refl }
