-- ===== src/ValidatorSet/Quorum.antt =====
-- crates/truth/src/validator_set.rs: quorums by stake.
use lite_vision.Prelude.{ℕ, ◌+◌, ◌*◌, ◌≤◌, ◌<◌, ◌≡◌, ◌↔◌, true, u64_mod, arith}
use lite_vision.ValidatorSet.{ValidatorSet}
use lite_vision.ValidatorSet.Operations.{quorum_threshold, has_quorum}

-- Where twice the total stake fits in a u64, a power is a quorum exactly if three times it exceeds
-- twice the total.
pub has_quorum_iff :
    (p : ℕ) (s : ValidatorSet)
    → s.total_stake * 2 < u64_mod
    → (has_quorum p s ≡ true) ↔ (s.total_stake * 2 < p * 3)
unfolding has_quorum quorum_threshold
has_quorum_iff p s room = (λ h. ground arith, λ h. ground arith)

-- Where twice the total stake fits in a u64: two quorums whose powers overlap in r, so that
-- together they are at most the total plus r, share more than a third of the total, 3 r above it.
pub quorums_intersect :
    (p q r : ℕ) (s : ValidatorSet)
    → s.total_stake * 2 < u64_mod
    → has_quorum p s ≡ true
    → has_quorum q s ≡ true
    → p + q ≤ s.total_stake + r
    → s.total_stake < r * 3
quorums_intersect p q r s room hp hq within =
    omega (arith, (has_quorum_iff p s room).0 hp, (has_quorum_iff q s room).0 hq)
