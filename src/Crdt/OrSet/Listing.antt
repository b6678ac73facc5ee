-- ===== src/Crdt/OrSet/Listing.antt =====
-- crates/storage/src/crdt.rs: ORSet::get beside ORSet::contains.
use lite_vision.Prelude.{◌≡◌, refl, Bool, false, ◌||◌, Option, none, some, List, [], ◌∷◌, arith}
use lite_vision.Ord.{Ord, eqb, eqb_self, eq_of_eqb}
use lite_vision.OrdMap.{Map, KeySet, lookup}
use lite_vision.OrdMap.Sorted.{IsSorted, lookup-IsBelow}
use lite_vision.Crdt.OperationId.{OperationId}
use lite_vision.Crdt.OrSet.{OrSet, visible, contains, get, get_loop}

-- the answer of `contains` from the two sets of numbers
abbrev pub shown : Option (KeySet OperationId) → Option (KeySet OperationId) → Bool
shown none t = false
shown (some ids) t = visible ids t

module _ {ℓ} {T : Type ℓ} ⦃o : Ord T⦄ where
  -- `contains` of a Vec
  unfoldable pub has : T → List T → Bool
  has e [] = false
  has e (x ∷ xs) = eqb x e || has e xs

  has-get_loop :
      (e : T) (tombstones elements : Map T (KeySet OperationId))
      → IsSorted elements
      → has e (get_loop tombstones elements) ≡ shown (lookup e elements) (lookup e tombstones)
  unfolding has get_loop lookup
  has-get_loop e tombstones [] s = refl
  has-get_loop e tombstones ((j, ids) ∷ rest) s = ground (
    arith,
    has-get_loop e tombstones rest s.1,
    lookup-IsBelow j rest s.0,
    eq_of_eqb j e,
    eqb_self e,
  )

  -- In a set with ascending elements `get` lists exactly the elements that `contains` accepts.
  pub has-get : (e : T) (s : OrSet T) → IsSorted s.elements → has e (get s) ≡ contains e s
  unfolding get contains
  has-get e s sorted = ground (arith, has-get_loop e s.tombstones s.elements sorted)
