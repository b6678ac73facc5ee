-- ===== src/Deterministic.antt =====
-- crates/core/src/deterministic.rs: DeterministicRng and LogicalTime. `none` stands for a panic.
pub mod Ranges
pub mod Shuffle
pub mod Time
mod Tests
use lite_vision.Prelude.{
  ℕ, zero, suc, ◌+◌, ◌-◌, ◌*◌, ◌/◌, ◌%◌, ◌^◌, ◌==◌, Bool, true, false, not, Option, none, some,
  List, [], ◌∷◌, length, leb, ltb, if◌then◌else◌, add_u64, mul_u64, add_u32, u32_mod,
}

pub record DeterministicRng : Type 0 where
  pub state : ℕ

-- The loop of `new` over the bytes of the seed, from index i on.
unfoldable pub seed_state : ℕ → List ℕ → ℕ → ℕ
seed_state i [] state = state
seed_state i (byte ∷ seed) state =
    seed_state (suc i) seed (if ltb i 8 then add_u64 state (mul_u64 byte (2 ^ (i * 8))) else state)

unfoldable pub new : List ℕ → DeterministicRng
new seed =
    let state = seed_state 0 seed 0 in
    record { state = if state == 0 then 600010225668017197 else state }

-- the state after one draw
unfoldable pub advance : ℕ → ℕ
advance state = add_u64 (mul_u64 state 6364136223846793059) 1442695123162771902

unfoldable pub next_u32 : DeterministicRng → DeterministicRng × ℕ
next_u32 self =
    let state = advance self.state in (record { state = state }, state / u32_mod % u32_mod)

unfoldable pub rand_u64 : DeterministicRng → DeterministicRng × ℕ
rand_u64 self =
    let low = next_u32 self in let high = next_u32 low.0 in (high.0, low.1 + high.1 * u32_mod)

-- `range` is the remainder's divisor, and 0 where it wraps
unfoldable pub rand_range : ℕ → ℕ → DeterministicRng → Option (DeterministicRng × ℕ)
rand_range least most self =
    let range = add_u32 (most - least) 1 in
    let drawn = next_u32 self in
    if leb most least
    then some (self, least)
    else if range == 0
    then none
    else some (drawn.0, add_u32 least (drawn.1 % range))

module _ {ℓ} {A : Type ℓ} where
  unfoldable pub get : ℕ → List A → Option A
  get i [] = none
  get zero (x ∷ xs) = some x
  get (suc i) (x ∷ xs) = get i xs

  unfoldable pub set : ℕ → A → List A → List A
  set i v [] = []
  set zero v (x ∷ xs) = v ∷ xs
  set (suc i) v (x ∷ xs) = x ∷ set i v xs

  -- `slice.swap(i, j)`, which panics out of range
  unfoldable pub swap : ℕ → ℕ → List A → Option (List A)
  swap i j xs = elim (get i xs) [
    | none ↦ none
    | some x ↦ elim (get j xs) [ none ↦ none | some y ↦ some (set i y (set j x xs)) ]
  ]

  -- the index that choose draws; the length is cut to a u32, and `- 1` wraps
  unfoldable pub choose : List A → DeterministicRng → Option (DeterministicRng × Option A)
  choose xs self =
      let last = (length xs + u32_mod - 1) % u32_mod in
      if length xs == 0 then some (self, none) else elim (rand_range 0 last self) [
        | none ↦ none
        | some (r, i) ↦ elim (get i xs) [ none ↦ none | some x ↦ some (r, some x) ]
      ]

  -- the rounds of shuffle for i, i - 1, ... and 1
  unfoldable pub shuffle_from : ℕ → List A → DeterministicRng → Option (DeterministicRng × List A)
  shuffle_from zero xs self = some (self, xs)
  shuffle_from (suc i) xs self = elim (rand_range 0 (suc i % u32_mod) self) [
    | none ↦ none
    | some (r, j) ↦ elim (swap (suc i) j xs) [ none ↦ none | some ys ↦ shuffle_from i ys r ]
  ]

  unfoldable pub shuffle : List A → DeterministicRng → Option (DeterministicRng × List A)
  shuffle xs self = shuffle_from (length xs - 1) xs self

pub record LogicalTime : Type 0 where
  pub height : ℕ
  pub view : ℕ

unfoldable pub next_view : LogicalTime → LogicalTime
next_view self = record self { view = add_u32 self.view 1 }

unfoldable pub next_height : LogicalTime → LogicalTime
next_height self = record { height = add_u64 self.height 1; view = 0 }

unfoldable pub is_after : LogicalTime → LogicalTime → Bool
is_after self other =
    if not (self.height == other.height)
    then ltb other.height self.height
    else ltb other.view self.view
