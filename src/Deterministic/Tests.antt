-- ===== src/Deterministic/Tests.antt =====
-- Runs of crates/core/src/deterministic.rs.
use lite_vision.Prelude.{ℕ, ◌≡◌, refl, some, List, [], ◌∷◌, arith, true}
use mathlib.Core.List.{Perm}
use lite_vision.Deterministic.{DeterministicRng, new, shuffle, is_after}
use lite_vision.Deterministic.Shuffle.{shuffle-Perm}

abbrev items : List ℕ
items = 1 ∷ (2 ∷ (3 ∷ (4 ∷ (5 ∷ []))))

shuffle-Perm_example :
    (r : DeterministicRng) × (ys : List ℕ) × (shuffle items (new []) ≡ some (r, ys)) × Perm ys items
shuffle-Perm_example = shuffle-Perm items (new []) (omega arith)

-- test_logical_time_ordering
second_after_first :
    is_after (record { height = 2; view = 0 }) (record { height = 1; view = 5 }) ≡ true
unfolding is_after
second_after_first = refl
