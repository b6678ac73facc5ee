-- ===== src/Deterministic/Ranges.antt =====
-- crates/core/src/deterministic.rs: what is drawn from a range.
use lite_vision.Prelude.{
  ℕ, zero, suc, ◌+◌, ◌-◌, ◌%◌, ◌≤◌, ◌<◌, ◌≡◌, refl, ap, Bool-cases, false, none, some, List, [],
  ◌∷◌, length, ◌==◌, leb, add_u32, u32_mod, arith, inl, inr,
}
use lite_vision.Deterministic.{DeterministicRng, advance, next_u32, rand_range, get}

-- Anything but the full range of a u32 is drawn from without a panic.
pub rand_range_total :
    (least most : ℕ) (self : DeterministicRng)
    → least ≤ most
    → most < u32_mod
    → most - least + 1 < u32_mod
    → (r : DeterministicRng) × (x : ℕ) × (rand_range least most self ≡ some (r, x))
      × (least ≤ x)
      × (x ≤ most)
unfolding rand_range
rand_range_total least most self h below narrow = elim (Bool-cases (leb most least)) [
  | inl trivial ↦ (self, least, rw trivial refl, omega arith, h)
  | inr proper ↦
      let range : add_u32 (most - least) 1 ≡ suc (most - least) = omega arith in
      let some_range : (add_u32 (most - least) 1 == 0) ≡ false = ground arith in
      let drawn = (next_u32 self).1 % suc (most - least) in
      let inside : drawn ≤ most - least = omega arith in
      (
        (next_u32 self).0,
        least + drawn,
        rw (proper, some_range, range)
            (ap (λ (t : ℕ). some ((next_u32 self).0, t)) (omega (arith, inside))),
        omega arith,
        omega (arith, inside),
      )
]

module _ {ℓ} {A : Type ℓ} where
  pub get_total : (i : ℕ) (xs : List A) → i < length xs → (x : A) × (get i xs ≡ some x)
  unfolding get
  get_total i [] h = absurd (omega arith)
  get_total zero (x ∷ xs) h = (x, refl)
  get_total (suc i) (x ∷ xs) h = get_total i xs (omega arith)

-- The full range of a u32 panics.
pub rand_range_full : (self : DeterministicRng) → rand_range 0 (u32_mod - 1) self ≡ none
unfolding rand_range
rand_range_full self = refl

-- Every draw keeps the lowest bit of the state.
pub next_u32_parity : (self : DeterministicRng) → (next_u32 self).0.state % 2 ≡ self.state % 2
unfolding next_u32 advance
next_u32_parity self = omega arith
