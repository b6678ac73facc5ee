-- ===== src/Dispute/Shares.antt =====
-- crates/intelligence/src/dispute.rs: the amounts of a resolution.
use lite_vision.Prelude.{ℕ, ◌+◌, ◌*◌, ◌/◌, ◌≤◌, ◌<◌, ◌≡◌, mul_u64, u64_mod, if◌then◌else◌, arith}
use lite_vision.Dispute.{Dispute, DisputeResolution, DisputeEngine, default_distribution}
use lite_vision.Dispute.Engine.{is_fraud, slash_amount, resolution_of}

unfoldable pub IsShared : DisputeResolution → Type 0
IsShared r = r.challenger_share + r.verifier_share + r.treasury_share ≤ r.slashed_amount

three_shares :
    (s : ℕ) → mul_u64 s 3000 / 10000 + mul_u64 s 3000 / 10000 + mul_u64 s 4000 / 10000 ≤ s
three_shares s = omega arith

pub resolution_of-IsShared :
    (d : Dispute) (budget cost block : ℕ) (e : DisputeEngine)
    → e.slash_distribution ≡ default_distribution
    → IsShared (resolution_of d budget cost block e)
unfolding IsShared resolution_of default_distribution slash_amount
resolution_of-IsShared d budget cost block e usual = rw usual (
    three_shares (if is_fraud d.fraud_proof then slash_amount budget cost e else d.challenger_bond))

no_dust :
    (s : ℕ)
    → s * 4000 < u64_mod
    → s ≤ mul_u64 s 3000 / 10000 + mul_u64 s 3000 / 10000 + mul_u64 s 4000 / 10000 + 2
no_dust s h = omega arith

-- With the default ratios and a slashed amount whose product with 4000 fits in a u64, the three
-- shares of a resolution add up to at most that amount and fall short of it by at most 2.
pub resolution_shares :
    (d : Dispute) (budget cost block : ℕ) (e : DisputeEngine)
    → e.slash_distribution ≡ default_distribution
    → (resolution_of d budget cost block e).slashed_amount * 4000 < u64_mod
    → IsShared (resolution_of d budget cost block e)
      × ((resolution_of d budget cost block e).slashed_amount
          ≤ (resolution_of d budget cost block e).challenger_share
            + (resolution_of d budget cost block e).verifier_share
            + (resolution_of d budget cost block e).treasury_share
            + 2)
unfolding resolution_of default_distribution slash_amount
resolution_shares d budget cost block e usual fits =
    (resolution_of-IsShared d budget cost block e usual, rw usual (no_dust _ fits))
