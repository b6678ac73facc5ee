-- ===== src/OrdMap/Sorted.antt =====
-- The order of the keys: every operation keeps it, and two ascending maps that agree at every key
-- are one list.
use lite_vision.Prelude.{◌≡◌, refl, none, some, [], ◌∷◌, arith, inl, inr}
use lite_vision.Ord.{Ord, ◌≺◌, eqb_self, eq_of_eqb, Ordering-cases}
use lite_vision.OrdMap.{Map, lookup, insert, update, remove}

module _ {ℓ κ} {K : Type ℓ} {V : Type κ} ⦃o : Ord K⦄ where
  -- `k` is below every key of the map
  abbrev pub IsBelow : K → Map K V → Type ℓ
  IsBelow k [] = Unit
  IsBelow k ((j, w) ∷ m) = (k ≺ j) × IsBelow k m

  -- strictly ascending keys
  abbrev pub IsSorted : Map K V → Type ℓ
  IsSorted [] = Unit
  IsSorted ((k, v) ∷ m) = IsBelow k m × IsSorted m

  pub IsBelow-trans : (k j : K) (m : Map K V) → k ≺ j → IsBelow j m → IsBelow k m
  IsBelow-trans k j [] h b = tt
  IsBelow-trans k j ((i, w) ∷ m) h b = (o.cmp_trans k j i h b.0, IsBelow-trans k j m h b.1)

  pub lookup-IsBelow : (k : K) (m : Map K V) → IsBelow k m → lookup k m ≡ none
  unfolding lookup
  lookup-IsBelow k [] b = refl
  lookup-IsBelow k ((i, w) ∷ m) b =
      ground (arith, lookup-IsBelow k m b.1, eq_of_eqb i k, o.cmp_self k)

  insert-IsBelow : (i k : K) (v : V) (m : Map K V) → i ≺ k → IsBelow i m → IsBelow i (insert k v m)
  unfolding insert
  insert-IsBelow i k v [] h b = (h, tt)
  insert-IsBelow i k v ((j, w) ∷ m) h b = ground (arith, insert-IsBelow i k v m h b.1)

  pub insert-IsSorted : (k : K) (v : V) (m : Map K V) → IsSorted m → IsSorted (insert k v m)
  unfolding insert
  insert-IsSorted k v [] s = (tt, tt)
  insert-IsSorted k v ((j, w) ∷ m) s = ground (
    arith,
    insert-IsSorted k v m s.1,
    o.cmp_eq k j,
    o.cmp_flip k j,
    IsBelow-trans k j m,
    insert-IsBelow j k v m,
  )

  remove-IsBelow : (i k : K) (m : Map K V) → IsBelow i m → IsBelow i (remove k m)
  unfolding remove
  remove-IsBelow i k [] b = tt
  remove-IsBelow i k ((j, w) ∷ m) b = ground (arith, remove-IsBelow i k m b.1)

  pub remove-IsSorted : (k : K) (m : Map K V) → IsSorted m → IsSorted (remove k m)
  unfolding remove
  remove-IsSorted k [] s = tt
  remove-IsSorted k ((j, w) ∷ m) s =
      ground (arith, remove-IsSorted k m s.1, remove-IsBelow j k m s.0)

  pub update-IsSorted :
      (k : K) (d : V) (f : V → V) (m : Map K V) → IsSorted m → IsSorted (update k d f m)
  unfolding update
  update-IsSorted k d f m s = insert-IsSorted k _ m s

  lookup_head : (k : K) (v : V) (m : Map K V) → lookup k ((k, v) ∷ m) ≡ some v
  unfolding lookup
  lookup_head k v m = rw (eqb_self k)

  -- a key below the first is not there
  lookup_before :
      (k j : K) (w : V) (m : Map K V) → k ≺ j → IsBelow j m → lookup k ((j, w) ∷ m) ≡ none
  lookup_before k j w m h b = lookup-IsBelow k ((j, w) ∷ m) (h, IsBelow-trans k j m h b)

  -- Equal at every key, with equal first keys: the rest is equal at every key.
  lookup_tail :
      (k : K) (v w : V) (m n : Map K V)
      → IsBelow k m
      → IsBelow k n
      → ((i : K) → lookup i ((k, v) ∷ m) ≡ lookup i ((k, w) ∷ n))
      → (i : K) → lookup i m ≡ lookup i n
  unfolding lookup
  lookup_tail k v w m n b c h i =
      ground (arith, h i, eq_of_eqb k i, lookup-IsBelow k m b, lookup-IsBelow k n c)

  lookup_nil : (k : K) → lookup {V = V} k [] ≡ none
  unfolding lookup
  lookup_nil k = refl

  -- with equal first keys
  cons_ext :
      (k j : K) (v w : V) (m n : Map K V)
      → k ≡ j
      → IsBelow j n
      → lookup k ((k, v) ∷ m) ≡ lookup k ((j, w) ∷ n)
      → m ≡ n
      → ◌≡◌ {A = Map K V} ((k, v) ∷ m) ((j, w) ∷ n)
  cons_ext k j v w m n e b h t = ground (arith, lookup_head k v m, lookup_head j w n)

  -- A map is determined by its lookups.
  pub Sorted_ext :
      (m n : Map K V) → IsSorted m → IsSorted n → ((i : K) → lookup i m ≡ lookup i n) → m ≡ n
  Sorted_ext [] [] s t h = refl
  Sorted_ext [] ((j, w) ∷ n) s t h = absurd (cc (h j, lookup_head j w n, lookup_nil j))
  Sorted_ext ((k, v) ∷ m) [] s t h = absurd (cc (h k, lookup_head k v m, lookup_nil k))
  Sorted_ext ((k, v) ∷ m) ((j, w) ∷ n) s t h = elim (Ordering-cases (o.cmp k j)) [
    | inl p ↦ absurd (cc (h k, lookup_head k v m, lookup_before k j w n p t.0))
    | inr (inl p) ↦
        let e : k ≡ j = o.cmp_eq k j p in
        cons_ext k j v w m n e t.0 (h k)
          (Sorted_ext m n s.1 t.1 (lookup_tail k v w m n s.0 (rw e t.0) (rw (← e) at h)))
    | inr (inr p) ↦
        absurd (cc (h j, lookup_head j w n, lookup_before j k v m (o.cmp_flip k j p) s.0))
  ]
