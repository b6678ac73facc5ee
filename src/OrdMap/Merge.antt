-- ===== src/OrdMap/Merge.antt =====
-- Merge loops over a second map: what they do to every key, and when they are commutative,
-- associative and idempotent.
use lite_vision.Prelude.{◌≡◌, refl, Option, none, some, [], ◌∷◌, arith, sym, ◌∙◌}
use lite_vision.Ord.{Ord, eq_of_eqb}
use lite_vision.OrdMap.{Map, lookup, insert, merge_by}
use lite_vision.OrdMap.Lookup.{lookup-insert}
use lite_vision.OrdMap.Sorted.{IsSorted, lookup-IsBelow, insert-IsSorted, Sorted_ext}

-- what a merge makes of the two values at a key
abbrev pub join {κ} : {V : Type κ} → (Option V → V → V) → Option V → Option V → Option V
join h a none = a
join h a (some v) = some (h a v)

module _ {ℓ κ} {K : Type ℓ} {V : Type κ} ⦃o : Ord K⦄ (h : Option V → V → V) where
  pub merge_by-IsSorted : (m n : Map K V) → IsSorted m → IsSorted (merge_by h m n)
  unfolding merge_by
  merge_by-IsSorted m [] s = s
  merge_by-IsSorted m ((k, v) ∷ n) s =
      merge_by-IsSorted (insert k (h (lookup k m) v) m) n (insert-IsSorted k _ m s)

  pub lookup-merge_by :
      (j : K) (m n : Map K V)
      → IsSorted n
      → lookup j (merge_by h m n) ≡ join h (lookup j m) (lookup j n)
  unfolding merge_by lookup
  lookup-merge_by j m [] s = refl
  lookup-merge_by j m ((k, v) ∷ n) s = ground (
    arith,
    lookup-merge_by j (insert k (h (lookup k m) v) m) n s.1,
    lookup-insert k j (h (lookup k m) v) m,
    eq_of_eqb k j,
    lookup-IsBelow k n s.0,
  )

  -- The laws of the join of two values carry over to ascending maps.
  pub merge_by_comm :
      ((a b : Option V) → join h a b ≡ join h b a)
      → (m n : Map K V) → IsSorted m
      → IsSorted n
      → merge_by h m n ≡ merge_by h n m
  merge_by_comm comm m n s t =
      Sorted_ext _ _ (merge_by-IsSorted m n s) (merge_by-IsSorted n m t) λ i.
        lookup-merge_by i m n t ∙ comm (lookup i m) (lookup i n) ∙ sym (lookup-merge_by i n m s)

  pub merge_by_assoc :
      ((a b c : Option V) → join h (join h a b) c ≡ join h a (join h b c))
      → (m n l : Map K V) → IsSorted m
      → IsSorted n
      → IsSorted l
      → merge_by h (merge_by h m n) l ≡ merge_by h m (merge_by h n l)
  merge_by_assoc assoc m n l s t u =
      Sorted_ext _ _ (merge_by-IsSorted _ l (merge_by-IsSorted m n s)) (merge_by-IsSorted m _ s)
        λ i.
          rw
            (
              lookup-merge_by i (merge_by h m n) l u,
              lookup-merge_by i m n t,
              lookup-merge_by i m (merge_by h n l) (merge_by-IsSorted n l t),
              lookup-merge_by i n l u,
            )
            (assoc (lookup i m) (lookup i n) (lookup i l))

  pub merge_by_idem :
      ((a : Option V) → join h a a ≡ a) → (m : Map K V) → IsSorted m → merge_by h m m ≡ m
  merge_by_idem idem m s =
      Sorted_ext _ _ (merge_by-IsSorted m m s) s λ i. lookup-merge_by i m m s ∙ idem (lookup i m)
