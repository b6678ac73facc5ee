-- ===== src/OrdMap/Lookup.antt =====
-- What the operations of a map do to the lookup of every key.
use lite_vision.Prelude.{◌≡◌, refl, ◌||◌, none, some, [], ◌∷◌, if◌then◌else◌, get_or, arith}
use lite_vision.Ord.{Ord, eqb, eqb_self, eq_of_eqb}
use lite_vision.OrdMap.{Map, KeySet, lookup, insert, remove, update, member, add_key, union}

module _ {ℓ κ} {K : Type ℓ} {V : Type κ} ⦃o : Ord K⦄ where
  pub lookup-insert :
      (k j : K) (v : V) (m : Map K V)
      → lookup j (insert k v m) ≡ (if eqb k j then some v else lookup j m)
  unfolding lookup insert
  lookup-insert k j v [] = refl
  lookup-insert k j v ((i, w) ∷ m) = ground (
    arith,
    lookup-insert k j v m,
    eq_of_eqb k j,
    eq_of_eqb i j,
    eqb_self j,
    o.cmp_eq k i,
    o.cmp_self k,
  )

  pub lookup-insert_self : (k : K) (v : V) (m : Map K V) → lookup k (insert k v m) ≡ some v
  lookup-insert_self k v m = rw (lookup-insert, eqb_self k)

  pub lookup-remove :
      (k j : K) (m : Map K V) → lookup j (remove k m) ≡ (if eqb k j then none else lookup j m)
  unfolding lookup remove
  lookup-remove k j [] = ground arith
  lookup-remove k j ((i, w) ∷ m) = ground (
    arith,
    lookup-remove k j m,
    eq_of_eqb k j,
    eq_of_eqb i j,
    eq_of_eqb i k,
    eqb_self j,
    eqb_self i,
  )

  pub lookup-update :
      (k j : K) (d : V) (f : V → V) (m : Map K V)
      → lookup j (update k d f m)
        ≡ (if eqb k j then some (f (get_or (lookup k m) d)) else lookup j m)
  unfolding update
  lookup-update k j d f m = lookup-insert k j _ m

module _ {ℓ} {K : Type ℓ} ⦃o : Ord K⦄ where
  pub member-add_key : (k j : K) (s : KeySet K) → member j (add_key k s) ≡ (eqb k j || member j s)
  unfolding member add_key
  member-add_key k j s = ground (arith, lookup-insert k j tt s)

  -- the union holds the keys of both sets
  pub member-union : (j : K) (s r : KeySet K) → member j (union s r) ≡ (member j r || member j s)
  unfolding union member lookup
  member-union j s [] = refl
  member-union j s ((k, _) ∷ r) =
      ground (arith, member-union j (add_key k s) r, member-add_key k j s)
