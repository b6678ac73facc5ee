-- ===== src/Deterministic/Time.antt =====
-- crates/core/src/deterministic.rs: the order of logical times.
use lite_vision.Prelude.{◌+◌, ◌<◌, ◌≡◌, true, false, u64_mod, u32_mod, arith}
use lite_vision.Deterministic.{LogicalTime, is_after, next_view, next_height}

pub is_after_irrefl : (t : LogicalTime) → is_after t t ≡ false
unfolding is_after
is_after_irrefl t = ground arith

pub is_after_trans :
    (a b c : LogicalTime) → is_after a b ≡ true → is_after b c ≡ true → is_after a c ≡ true
unfolding is_after
is_after_trans a b c h k = ground arith

-- The next view and the next height come after a time, where they do not overflow.
pub is_after-next :
    (t : LogicalTime)
    → t.view + 1 < u32_mod
    → t.height + 1 < u64_mod
    → (is_after (next_view t) t ≡ true) × (is_after (next_height t) (next_view t) ≡ true)
unfolding is_after next_view next_height
is_after-next t h k = (ground arith, ground arith)
