-- ===== src/OrdMap.antt =====
-- std::collections::BTreeMap and BTreeSet, as the sources use them: an association list in
-- ascending order of the keys. `HashMap` is modelled by it too; no theorem rests on the order in
-- which a `HashMap` is iterated.
pub mod Lookup
pub mod Sorted
pub mod Merge
pub mod Sum
use Prim.Native.Nat.Ordering.{lt, eq, gt}
use lite_vision.Prelude.{
  ℕ, ◌+◌, Bool, true, false, Option, none, some, List, [], ◌∷◌, if◌then◌else◌, length, get_or, ◌&&◌,
}
use lite_vision.Ord.{Ord, eqb}

abbrev pub Map {ℓ κ} : Type ℓ → Type κ → Type (ℓ ⊔ κ)
Map K V = List (K × V)

abbrev pub is_some {ℓ} : {A : Type ℓ} → Option A → Bool
is_some none = false
is_some (some _) = true

module _ {ℓ κ} {K : Type ℓ} {V : Type κ} ⦃o : Ord K⦄ where
  -- get
  unfoldable pub lookup : K → Map K V → Option V
  lookup k [] = none
  lookup k ((j, v) ∷ m) = if eqb j k then some v else lookup k m

  -- contains_key
  unfoldable pub contains_key : K → Map K V → Bool
  contains_key k m = is_some (lookup k m)

  -- insert: a new key goes to its place in the order, an old one gets the new value
  unfoldable pub insert : K → V → Map K V → Map K V
  insert k v [] = (k, v) ∷ []
  insert k v ((j, w) ∷ m) =
      let rest = insert k v m in
      elim (o.cmp k j) [ lt ↦ (k, v) ∷ (j, w) ∷ m | eq ↦ (k, v) ∷ m | gt ↦ (j, w) ∷ rest ]

  -- remove
  unfoldable pub remove : K → Map K V → Map K V
  remove k [] = []
  remove k ((j, w) ∷ m) = let rest = remove k m in if eqb j k then rest else (j, w) ∷ rest

  -- `let e = m.entry(k).or_insert(d)`, after which `f` is applied to the value behind `e`
  unfoldable pub update : K → V → (V → V) → Map K V → Map K V
  update k d f m = insert k (f (get_or (lookup k m) d)) m

  -- `for (k, v) in &n { ... }` where the body stores at `k` what it makes of the value that is
  -- there and of `v`
  unfoldable pub merge_by : (Option V → V → V) → Map K V → Map K V → Map K V
  merge_by h m [] = m
  merge_by h m ((k, v) ∷ n) = merge_by h (insert k (h (lookup k m) v) m) n

-- values()
module _ {ℓ κ} {K : Type ℓ} {V : Type κ} where
  abbrev pub values : Map K V → List V
  values [] = []
  values ((k, v) ∷ m) = v ∷ values m

-- BTreeSet<K>
abbrev pub KeySet {ℓ} : Type ℓ → Type ℓ
KeySet K = Map K (Unit {0})

module _ {ℓ} {K : Type ℓ} ⦃o : Ord K⦄ where
  -- contains
  unfoldable pub member : K → KeySet K → Bool
  member k s = is_some (lookup k s)

  -- insert
  unfoldable pub add_key : K → KeySet K → KeySet K
  add_key k s = insert k tt s

  -- `for id in other { set.insert(*id) }`
  unfoldable pub union : KeySet K → KeySet K → KeySet K
  union s [] = s
  union s ((k, _) ∷ r) = union (add_key k s) r
