-- ===== src/Settlement/State/Rewards.antt =====
-- crates/truth/src/settlement.rs: the distribution of the slashing pool among the verifiers.
use lite_vision.Prelude.{
  ℕ, suc, ◌+◌, ◌-◌, ◌*◌, ◌/◌, ◌%◌, ◌≤◌, ◌<◌, ◌≡◌, refl, Option, none, some, List, [], ◌∷◌, length,
  u64_mod, get_or, add_u64, arith, ok,
}
use native.Mathlib.Nat.{div-add-mod}
use lite_vision.Ord.{nat_ord}
use lite_vision.OrdMap.{Map, lookup, update}
use lite_vision.OrdMap.Sorted.{IsSorted, update-IsSorted}
use lite_vision.OrdMap.Sum.{sum_by, sum_by-insert, weight, weight-le}
use lite_vision.Settlement.State.{
  SettlementState, reward_all, distribute, distribute_verifier_rewards,
}

-- all rewards together
abbrev pub rewards_of : Map ℕ ℕ → ℕ
rewards_of = sum_by (λ r. r)

weight_lem : (o : Option ℕ) → weight (λ (r : ℕ). r) o ≡ get_or o 0
weight_lem none = refl
weight_lem (some c) = refl

reward_one :
    (v per : ℕ) (m : Map ℕ ℕ)
    → IsSorted m
    → rewards_of m + per < u64_mod
    → rewards_of (update v 0 (λ r. add_u64 r per) m) ≡ rewards_of m + per
unfolding update
reward_one v per m s room = omega (
  arith,
  sum_by-insert (λ (r : ℕ). r) v (add_u64 (get_or (lookup v m) 0) per) m s,
  weight_lem (lookup v m),
  weight-le (λ (r : ℕ). r) v m,
)

rewards_of-reward_all :
    (verifiers : List ℕ) (per : ℕ) (m : Map ℕ ℕ)
    → IsSorted m
    → rewards_of m + length verifiers * per < u64_mod
    → rewards_of (reward_all verifiers per m) ≡ rewards_of m + length verifiers * per
unfolding reward_all
rewards_of-reward_all [] per m s room = omega arith
rewards_of-reward_all (v ∷ vs) per m s room =
    let one = reward_one v per m s (omega arith) in
    omega (
      arith,
      one,
      rewards_of-reward_all vs per (update v 0 (λ r. add_u64 r per) m) (update-IsSorted v 0 _ m s)
          (omega (arith, one)),
    )

-- A distribution to at least one verifier that the pool covers, where the rewards are in ascending
-- order and do not overflow, takes the amount from the pool and credits all of it to the verifiers
-- but the remainder of the division, which nobody gets.
pub distribute_conserves :
    (v : ℕ) (vs : List ℕ) (amount : ℕ) (s : SettlementState)
    → IsSorted s.verifier_rewards
    → amount ≤ s.slashing_pool
    → rewards_of s.verifier_rewards + amount < u64_mod
    → (t : SettlementState) × (distribute_verifier_rewards (v ∷ vs) amount s ≡ some (t, ok tt))
      × (t.slashing_pool + amount ≡ s.slashing_pool)
      × (rewards_of t.verifier_rewards + amount % length (v ∷ vs)
          ≡ rewards_of s.verifier_rewards + amount)
unfolding distribute_verifier_rewards distribute
distribute_conserves v vs amount s sorted enough room =
    let n = suc (length vs) in
    let per = amount / n in
    let exact : n * per + amount % n ≡ amount = div-add-mod amount n in
    let grown =
      rewards_of-reward_all (v ∷ vs) per s.verifier_rewards sorted (omega (arith, exact)) in
    (
      record s {
        slashing_pool = s.slashing_pool - amount;
        verifier_rewards = reward_all (v ∷ vs) per s.verifier_rewards;
      },
      ground arith,
      omega arith,
      omega (arith, exact, grown),
    )
