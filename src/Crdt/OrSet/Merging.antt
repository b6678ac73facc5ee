-- ===== src/Crdt/OrSet/Merging.antt =====
-- crates/storage/src/crdt.rs: what ORSet::merge does to the membership of an element.
use lite_vision.Prelude.{◌≡◌, Bool, true, false, not, ◌&&◌, ◌||◌, arith, inl, inr, Bool-cases}
use lite_vision.Ord.{Ord}
use lite_vision.OrdMap.{lookup, member}
use lite_vision.OrdMap.Sorted.{IsSorted}
use lite_vision.Crdt.OperationId.{OperationId, op_ord}
use lite_vision.Crdt.OrSet.{OrSet, contains, merge, was_removed}
use lite_vision.Crdt.OrSet.Ids.{
  ids_of, was_removed_none, member-merge_elements, member-merge_tombstones,
}
use lite_vision.Crdt.OrSet.Contains.{contains-intro, contains-elim, contains-none, contains-congr}

module _ {ℓ} {T : Type ℓ} ⦃o : Ord T⦄ where
  -- the keys of a set that travels are ascending
  pub record IsOrdered (s : OrSet T) : Type ℓ where
    pub elements_sorted : IsSorted s.elements
    pub tombstones_sorted : IsSorted s.tombstones

  -- the element has a tombstone
  abbrev pub removed : T → OrSet T → Bool
  removed e s = was_removed (lookup e s.tombstones)

  merged :
      (e : T) (i : OperationId) (a b : OrSet T)
      → IsOrdered b
      → (member i (ids_of e (merge a b).elements) ≡ (
          (not (removed e a) && member i (ids_of e b.elements)) || member i (ids_of e a.elements)))
        × (member i (ids_of e (merge a b).tombstones)
            ≡ (member i (ids_of e b.tombstones) || member i (ids_of e a.tombstones)))
  unfolding merge
  merged e i a b s = (
    member-merge_elements e i a.tombstones a.elements b.elements s.elements_sorted,
    member-merge_tombstones e i a.tombstones b.tombstones s.tombstones_sorted,
  )

  -- An element that has a tombstone on a replica and is not in its set is not in it after the
  -- merge of any ascending replica.
  pub contains-merge_gone :
      (e : T) (a b : OrSet T)
      → IsOrdered b
      → removed e a ≡ true
      → contains e a ≡ false
      → contains e (merge a b) ≡ false
  contains-merge_gone e a b s gone absent =
      contains-none e (merge a b) (λ i here. ground (arith, merged e i a b s, contains-intro e i a))

  -- what one replica holds of an element without tombstones is in the merge
  spread_left :
      (e : T) (a b : OrSet T)
      → IsOrdered b
      → removed e a ≡ false
      → removed e b ≡ false
      → contains e a ≡ true
      → contains e (merge a b) ≡ true
  spread_left e a b t h k there =
      let (i, here, _) = contains-elim e a there in
      contains-intro e i (merge a b) (ground (arith, merged e i a b t)) (
        ground (
          arith,
          merged e i a b t,
          was_removed_none e a.tombstones i h,
          was_removed_none e b.tombstones i k,
        ))

  spread_right :
      (e : T) (a b : OrSet T)
      → IsOrdered b
      → removed e a ≡ false
      → removed e b ≡ false
      → contains e b ≡ true
      → contains e (merge a b) ≡ true
  spread_right e a b t h k there =
      let (i, here, _) = contains-elim e b there in
      contains-intro e i (merge a b) (ground (arith, merged e i a b t)) (
        ground (
          arith,
          merged e i a b t,
          was_removed_none e a.tombstones i h,
          was_removed_none e b.tombstones i k,
        ))

  -- Where neither of two ascending sets has a tombstone for an element, the merge contains it
  -- exactly if one of them does, and both directions of the merge agree.
  pub contains-merge_fresh :
      (e : T) (a b : OrSet T)
      → IsOrdered a
      → IsOrdered b
      → removed e a ≡ false
      → removed e b ≡ false
      → (contains e (merge a b) ≡ (contains e a || contains e b))
        × (contains e (merge a b) ≡ contains e (merge b a))
  contains-merge_fresh e a b s t h k = (
    elim (Bool-cases (contains e (merge a b))) [
      | inl there ↦
          let (i, here, _) = contains-elim e (merge a b) there in
          ground (
            arith,
            merged e i a b t,
            was_removed_none e a.tombstones i h,
            was_removed_none e b.tombstones i k,
            contains-intro e i a,
            contains-intro e i b,
          )
      | inr gone ↦ ground (arith, spread_left e a b t h k, spread_right e a b t h k)
    ],
    contains-congr e (merge a b) (merge b a)
        (λ i. ground (arith, merged e i a b t, merged e i b a s))
        (λ i. ground (arith, merged e i a b t, merged e i b a s)),
  )

  -- Where one replica has a tombstone for an element and does not contain it, and the other holds
  -- a living number of it that the first has not buried, the first does not contain it after
  -- merging the second, and the second contains it after merging the first.
  pub merge_diverges :
      (e : T) (a b : OrSet T) (i : OperationId)
      → IsOrdered a
      → IsOrdered b
      → removed e a ≡ true
      → contains e a ≡ false
      → member i (ids_of e b.elements) ≡ true
      → member i (ids_of e b.tombstones) ≡ false
      → member i (ids_of e a.tombstones) ≡ false
      → (contains e (merge a b) ≡ false) × (contains e (merge b a) ≡ true)
  merge_diverges e a b i s t gone absent here alive unseen = (
    contains-merge_gone e a b t gone absent,
    contains-intro e i (merge b a) (ground (arith, merged e i b a s))
        (ground (arith, merged e i b a s)),
  )
