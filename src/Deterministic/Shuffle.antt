-- ===== src/Deterministic/Shuffle.antt =====
-- crates/core/src/deterministic.rs: choose and shuffle.
use lite_vision.Prelude.{
  ℕ, zero, suc, ◌+◌, ◌-◌, ◌%◌, ◌≤◌, ◌<◌, ◌≡◌, refl, ap, ◌∙◌, false, some, List, [], ◌∷◌, length,
  ◌==◌, u32_mod, arith,
}
use mathlib.Core.Option.{none-ne-some, some_inj}
use mathlib.Core.List.{Perm}
use mathlib.Core.List.Perm
use lite_vision.Deterministic.{
  DeterministicRng, rand_range, get, set, swap, choose, shuffle_from, shuffle,
}
use lite_vision.Deterministic.Ranges.{rand_range_total, get_total}

module _ {ℓ} {A : Type ℓ} where
  -- the list without its element i
  unfoldable without : ℕ → List A → List A
  without i [] = []
  without zero (x ∷ xs) = xs
  without (suc i) (x ∷ xs) = x ∷ without i xs

  get-Perm : (i : ℕ) (xs : List A) (x : A) → get i xs ≡ some x → Perm xs (x ∷ without i xs)
  unfolding get without
  get-Perm i [] x e = absurd (none-ne-some x e)
  get-Perm zero (y ∷ xs) x e = rw (some_inj.0 e) (Perm.refl (x ∷ xs))
  get-Perm (suc i) (y ∷ xs) x e =
      Perm.trans (Perm.cons y (get-Perm i xs x e)) (Perm.swap x y (without i xs))

  set-Perm :
      (i : ℕ) (xs : List A) (x v : A) → get i xs ≡ some x → Perm (set i v xs) (v ∷ without i xs)
  unfolding get set without
  set-Perm i [] x v e = absurd (none-ne-some x e)
  set-Perm zero (y ∷ xs) x v e = Perm.refl (v ∷ xs)
  set-Perm (suc i) (y ∷ xs) x v e =
      Perm.trans (Perm.cons y (set-Perm i xs x v e)) (Perm.swap v y (without i xs))

  -- storing at j what is at i leaves it at i
  get-set : (i j : ℕ) (xs : List A) (x : A) → get i xs ≡ some x → get i (set j x xs) ≡ some x
  unfolding get set
  get-set i j [] x e = e
  get-set zero zero (y ∷ xs) x e = refl
  get-set zero (suc j) (y ∷ xs) x e = e
  get-set (suc i) zero (y ∷ xs) x e = e
  get-set (suc i) (suc j) (y ∷ xs) x e = get-set i j xs x e

  exchanged :
      (i j : ℕ) (xs : List A) (x y : A)
      → get i xs ≡ some x
      → get j xs ≡ some y
      → Perm (set i y (set j x xs)) xs
  exchanged i j xs x y at_i at_j =
      let ys = set j x xs in
      let still : get i ys ≡ some x = get-set i j xs x at_i in
      let same_rest : Perm (without i ys) (without j xs) =
        Perm.cons_inv (Perm.trans (Perm.symm (get-Perm i ys x still)) (set-Perm j xs y x at_j)) in
      Perm.trans (Perm.trans (set-Perm i ys x y still) (Perm.cons y same_rest))
        (Perm.symm (get-Perm j xs y at_j))

  length-set : (i : ℕ) (v : A) (xs : List A) → length (set i v xs) ≡ length xs
  unfolding set
  length-set i v [] = refl
  length-set zero v (x ∷ xs) = refl
  length-set (suc i) v (x ∷ xs) = ap suc (length-set i v xs)

  swap_total :
      (i j : ℕ) (xs : List A)
      → i < length xs
      → j < length xs
      → (ys : List A) × (swap i j xs ≡ some ys) × Perm ys xs × (length ys ≡ length xs)
  unfolding swap
  swap_total i j xs hi hj =
      let (x, at_i) = get_total i xs hi in
      let (y, at_j) = get_total j xs hj in
      (
        set i y (set j x xs),
        rw (swap, at_i, at_j) refl,
        exchanged i j xs x y at_i at_j,
        length-set i y (set j x xs) ∙ length-set j x xs,
      )

  one_round :
      (i j : ℕ) (xs ys : List A) (self r : DeterministicRng)
      → rand_range 0 (suc i % u32_mod) self ≡ some (r, j)
      → swap (suc i) j xs ≡ some ys
      → shuffle_from (suc i) xs self ≡ shuffle_from i ys r
  unfolding shuffle_from
  one_round i j xs ys self r drawn swapped = rw (shuffle_from, drawn, swapped) refl

  shuffle_from-Perm :
      (i : ℕ) (xs : List A) (self : DeterministicRng)
      → (suc i ≤ length xs)
      → length xs < u32_mod
      → (r : DeterministicRng) × (ys : List A) × (shuffle_from i xs self ≡ some (r, ys))
        × Perm ys xs
  unfolding shuffle_from
  shuffle_from-Perm zero xs self h small = (self, xs, refl, Perm.refl xs)
  shuffle_from-Perm (suc i) xs self h small =
      let (r, j, drawn, _, below) =
        rand_range_total 0 (suc i % u32_mod) self (omega arith) (omega arith) (omega arith) in
      let (ys, swapped, perm, long) = swap_total (suc i) j xs h (omega (arith, below)) in
      let (last, zs, rest, more) =
        shuffle_from-Perm i ys r (omega (arith, long)) (omega (arith, long)) in
      (last, zs, one_round i j xs ys self r drawn swapped ∙ rest, Perm.trans more perm)

  -- For every state of the generator and every slice shorter than 2 ^ 32, shuffle draws every
  -- index in range, so that it does not panic, and leaves a permutation of the slice.
  pub shuffle-Perm :
      (xs : List A) (self : DeterministicRng)
      → length xs < u32_mod
      → (r : DeterministicRng) × (ys : List A) × (shuffle xs self ≡ some (r, ys)) × Perm ys xs
  unfolding shuffle shuffle_from
  shuffle-Perm [] self small = (self, [], refl, Perm.refl [])
  shuffle-Perm (x ∷ xs) self small =
      let (r, ys, done, perm) = shuffle_from-Perm (length xs) (x ∷ xs) self (omega arith) small in
      let start : suc (length xs) - 1 ≡ length xs = omega arith in
      (r, ys, ap (λ (n : ℕ). shuffle_from n (x ∷ xs) self) start ∙ done, perm)

  -- A slice that is not empty and shorter than 2 ^ 32 is chosen from without a panic, inside it.
  pub choose-get :
      (xs : List A) (self : DeterministicRng)
      → 0 < length xs
      → length xs < u32_mod
      → (r : DeterministicRng) × (i : ℕ) × (x : A) × (choose xs self ≡ some (r, some x))
        × (i < length xs)
        × (get i xs ≡ some x)
  unfolding choose
  choose-get xs self h small =
      let last = (length xs + u32_mod - 1) % u32_mod in
      let shorter : last < length xs = omega arith in
      let (r, i, drawn, _, below) =
        rand_range_total 0 last self (omega arith) (omega arith) (omega (arith, shorter)) in
      let (x, there) = get_total i xs (omega (arith, shorter, below)) in
      let some_length : (length xs == 0) ≡ false = ground (arith, h) in
      (r, i, x, rw (some_length, drawn, there) refl, omega (arith, shorter, below), there)
