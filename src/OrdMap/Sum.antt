-- ===== src/OrdMap/Sum.antt =====
-- Sums over the values of a map, and how a store or a removal moves them.
use lite_vision.Prelude.{ℕ, ◌+◌, ◌≤◌, ◌≡◌, Option, none, some, [], ◌∷◌, arith}
use lite_vision.Ord.{Ord, eqb_self, eq_of_eqb}
use lite_vision.OrdMap.{Map, lookup, insert, remove}
use lite_vision.OrdMap.Sorted.{IsSorted, lookup-IsBelow, IsBelow-trans}

-- what the value at a key counts for
abbrev pub weight {κ} : {V : Type κ} → (V → ℕ) → Option V → ℕ
weight f none = 0
weight f (some v) = f v

module _ {ℓ κ} {K : Type ℓ} {V : Type κ} where
  unfoldable pub sum_by : (V → ℕ) → Map K V → ℕ
  sum_by f [] = 0
  sum_by f ((k, v) ∷ m) = f v + sum_by f m

module _ {ℓ κ} {K : Type ℓ} {V : Type κ} ⦃o : Ord K⦄ (f : V → ℕ) where
  -- A store at a key replaces what the key counted for.
  pub sum_by-insert :
      (k : K) (v : V) (m : Map K V)
      → IsSorted m
      → sum_by f (insert k v m) + weight f (lookup k m) ≡ sum_by f m + f v
  unfolding insert sum_by lookup
  sum_by-insert k v [] s = omega arith
  sum_by-insert k v ((j, w) ∷ m) s = ground (
    arith,
    sum_by-insert k v m s.1,
    eq_of_eqb j k,
    eqb_self k,
    o.cmp_eq k j,
    o.cmp_self k,
    lookup-IsBelow k m,
    IsBelow-trans k j m,
  )

  -- A removal takes away what the key counted for.
  pub sum_by-remove :
      (k : K) (m : Map K V)
      → IsSorted m
      → sum_by f (remove k m) + weight f (lookup k m) ≡ sum_by f m
  unfolding remove sum_by lookup
  sum_by-remove k [] s = omega arith
  sum_by-remove k ((j, w) ∷ m) s =
      ground (arith, sum_by-remove k m s.1, eq_of_eqb j k, eqb_self k, lookup-IsBelow k m)

  pub weight-le : (k : K) (m : Map K V) → weight f (lookup k m) ≤ sum_by f m
  unfolding sum_by lookup
  weight-le k [] = omega arith
  weight-le k ((j, w) ∷ m) = ground (arith, weight-le k m)
