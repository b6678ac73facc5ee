-- ===== src/ValidatorSet/Stakes.antt =====
-- crates/truth/src/validator_set.rs: the total stake under slashing and delegation.
use lite_vision.Prelude.{
  ℕ, ◌+◌, ◌*◌, ◌≤◌, ◌<◌, ◌≡◌, ◌≢◌, refl, not, some, u64_mod, arith, Option-cases, inl, inr, min,
}
use lite_vision.Ord.{nat_ord}
use lite_vision.OrdMap.{lookup}
use lite_vision.ValidatorSet.{
  removed, Validator, Delegator, SlashEvent, ValidatorSet, add_delegation, remove_delegation,
  slash_amount,
}
use lite_vision.ValidatorSet.Operations.{
  slashed, slash, delegate, undelegate, undelegate_from, is_active,
}
use lite_vision.ValidatorSet.Accounting.{
  live, Adds, IsBalanced, IsLive, store-IsBalanced, live-le, branch-IsBalanced,
}

-- A percentage of at most 100 takes at most the stake.
slash_amount-le :
    (event : SlashEvent) (stake : ℕ)
    → event.slash_percentage ≤ 100
    → slash_amount stake event ≤ stake
unfolding slash_amount
slash_amount-le event stake h =
    let product : stake * event.slash_percentage ≤ stake * 100 = grind arith in
    omega (arith, product)

slashed-Adds :
    (event : SlashEvent) (v : Validator)
    → Adds v
    → v.total_stake < u64_mod
    → event.slash_percentage ≤ 100
    → Adds (slashed event v)
      × ((slashed event v).total_stake + slash_amount v.stake event ≡ v.total_stake)
unfolding slashed
slashed-Adds event v adds small h =
    (omega (arith, slash_amount-le event v.stake h), omega (arith, slash_amount-le event v.stake h))

live-slashed :
    (event : SlashEvent) (v : Validator)
    → v.status ≢ removed
    → (live (slashed event v) ≡ (slashed event v).total_stake) × (live v ≡ v.total_stake)
unfolding slashed
live-slashed event v h = (ground arith, ground arith)

pub slash-IsBalanced :
    (event : SlashEvent) (s : ValidatorSet)
    → event.slash_percentage ≤ 100
    → IsLive event.validator_id s
    → IsBalanced s
    → IsBalanced (slash event s).0
unfolding slash
slash-IsBalanced event s h l b = elim (Option-cases (lookup event.validator_id s.validators)) [
  | inl absent ↦ rw (absent, slash) b
  | inr (v, found) ↦
      let mine = live-le s event.validator_id v b found in
      let (after, before) = live-slashed event v (l v found) in
      let (adds, moved) =
        slashed-Adds event v (b.each event.validator_id v found) (omega (arith, b.fits)) h in
      rw (found, slash)
        (store-IsBalanced s _ event.validator_id v (slashed event v) b found adds refl (omega arith)
          (omega (arith, b.fits)))
]

pub delegate-IsBalanced :
    (who id amount : ℕ) (s : ValidatorSet)
    → s.total_stake + amount < u64_mod
    → IsBalanced s
    → IsBalanced (delegate who id amount s).0
unfolding delegate add_delegation
delegate-IsBalanced who id amount s room b = elim (Option-cases (lookup id s.validators)) [
  | inl absent ↦ rw (absent, delegate) b
  | inr (v, found) ↦
      rw (found, delegate)
        (branch-IsBalanced (not (is_active v.status)) _ _ (λ _. b)
          λ h.
            let mine : v.total_stake ≤ s.total_stake = ground (arith, live-le s id v b found) in
            store-IsBalanced s _ id v (add_delegation amount v) b found
              (ground (arith, b.each id v found)) refl (ground (arith, b.each id v found))
              (omega arith))
]

-- what is withdrawn is part of what is delegated to the validator, which has not left
abbrev pub IsCovered : ℕ → ℕ → ValidatorSet → Type 0
IsCovered who amount s =
    (d : Delegator) (v : Validator)
    → lookup who s.delegators ≡ some d
    → lookup d.validator_id s.validators ≡ some v
    → (min amount d.staked_amount ≤ v.delegated_stake) × (v.status ≢ removed)

pub undelegate-IsBalanced :
    (who amount : ℕ) (s : ValidatorSet)
    → IsCovered who amount s
    → IsBalanced s
    → IsBalanced (undelegate who amount s).0
unfolding undelegate undelegate_from remove_delegation
undelegate-IsBalanced who amount s c b = elim (Option-cases (lookup who s.delegators)) [
  | inl absent ↦ rw (absent, undelegate) b
  | inr (d, known) ↦ elim (Option-cases (lookup d.validator_id s.validators)) [
    | inl absent ↦ rw (known, undelegate) (rw (absent, undelegate_from) b)
    | inr (v, found) ↦
        let actual = min amount d.staked_amount in
        let mine = live-le s d.validator_id v b found in
        rw (known, undelegate)
          (rw (found, undelegate_from)
            (store-IsBalanced s _ d.validator_id v (remove_delegation actual v) b found
              (ground (arith, b.each d.validator_id v found, c d v known found)) refl
              (ground (arith, b.each d.validator_id v found, c d v known found))
              (omega (arith, b.fits))))
  ]
]
