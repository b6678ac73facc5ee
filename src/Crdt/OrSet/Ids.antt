-- ===== src/Crdt/OrSet/Ids.antt =====
-- crates/storage/src/crdt.rs: what the loops of ORSet do to the sets of operation numbers.
use lite_vision.Prelude.{
  ◌≡◌, refl, true, false, not, ◌||◌, Option, none, some, [], ◌∷◌, get_or, if◌then◌else◌, arith, inl,
  inr, Bool-cases, Option-cases, sym, ◌∙◌, ◌&&◌,
}
use lite_vision.Ord.{Ord, eqb, eqb_self, eq_of_eqb}
use lite_vision.OrdMap.{Map, KeySet, lookup, update, member, add_key, union}
use lite_vision.OrdMap.Lookup.{lookup-update, member-add_key, member-union}
use lite_vision.OrdMap.Sorted.{IsSorted, lookup-IsBelow}
use lite_vision.Crdt.OperationId.{OperationId, op_ord}
use lite_vision.Crdt.OrSet.{
  OrSet, any_alive, visible, is_empty, contains, was_removed, is_buried, add_ids, merge_elements,
  merge_tombstones,
}

module _ {ℓ} {T : Type ℓ} ⦃o : Ord T⦄ where
  -- the numbers that a map holds of an element: none where the key is missing
  abbrev pub ids_of : T → Map T (KeySet OperationId) → KeySet OperationId
  ids_of e m = get_or (lookup e m) []

-- membership in a set with one more entry in front
pub member_cons :
    (i j : OperationId) (s : KeySet OperationId) → member i ((j, tt) ∷ s) ≡ (eqb j i || member i s)
unfolding member lookup
member_cons i j s = ground arith

pub any_alive-intro :
    (i : OperationId) (ids t : KeySet OperationId)
    → member i ids ≡ true
    → member i t ≡ false
    → any_alive ids t ≡ true
unfolding any_alive
any_alive-intro i [] t h k = unfold member lookup in cc
any_alive-intro i ((j, _) ∷ ids) t h k =
    ground (arith, any_alive-intro i ids t, member_cons i j ids, eq_of_eqb j i)

pub any_alive-elim :
    (ids t : KeySet OperationId)
    → any_alive ids t ≡ true
    → (i : OperationId) × (member i ids ≡ true) × (member i t ≡ false)
unfolding any_alive
any_alive-elim [] t h = cc
any_alive-elim ((j, _) ∷ ids) t h = elim (Bool-cases (member j t)) [
  | inl buried ↦
      let (i, here, alive) = any_alive-elim ids t (ground arith) in
      (i, ground (arith, member_cons i j ids), alive)
  | inr alive ↦ (j, ground (arith, member_cons j j ids, eqb_self j), alive)
]

-- With every number buried nothing is alive.
pub any_alive-none :
    (ids t : KeySet OperationId)
    → ((i : OperationId) → member i ids ≡ true → member i t ≡ true)
    → any_alive ids t ≡ false
any_alive-none ids t h = elim (Bool-cases (any_alive ids t)) [
  | inl some_alive ↦ let (i, here, alive) = any_alive-elim ids t some_alive in cc (h i here)
  | inr none_alive ↦ none_alive
]

-- Sets with the same members have the same living numbers.
pub any_alive-congr :
    (ids ids' t t' : KeySet OperationId)
    → ((i : OperationId) → member i ids ≡ member i ids')
    → ((i : OperationId) → member i t ≡ member i t')
    → any_alive ids t ≡ any_alive ids' t'
any_alive-congr ids ids' t t' h k = elim (Bool-cases (any_alive ids t)) [
  | inl alive ↦
      let (i, here, up) = any_alive-elim ids t alive in
      alive ∙ sym (any_alive-intro i ids' t' (sym (h i) ∙ here) (sym (k i) ∙ up))
  | inr dead ↦ elim (Bool-cases (any_alive ids' t')) [
    | inl alive ↦
        let (i, here, up) = any_alive-elim ids' t' alive in
        cc (any_alive-intro i ids t (h i ∙ here) (k i ∙ up))
    | inr dead' ↦ dead ∙ sym dead'
  ]
]

visible_lem :
    (ids : KeySet OperationId) (t : Option (KeySet OperationId))
    → visible ids t ≡ any_alive ids (get_or t [])
unfolding any_alive member lookup
visible_lem ids (some t) = refl
visible_lem [] none = refl
visible_lem ((i, _) ∷ ids) none = refl

module _ {ℓ} {T : Type ℓ} ⦃o : Ord T⦄ where
  -- `contains` in terms of the two sets of numbers
  pub contains_lem :
      (e : T) (s : OrSet T) → contains e s ≡ any_alive (ids_of e s.elements) (ids_of e s.tombstones)
  unfolding contains any_alive
  contains_lem e s = elim (Option-cases (lookup e s.elements)) [
    | inl absent ↦ rw (absent, contains)
    | inr (ids, present) ↦ rw (present, contains) (visible_lem ids (lookup e s.tombstones))
  ]

  -- `was_removed` asks for a number among the tombstones.
  pub was_removed_none :
      (e : T) (m : Map T (KeySet OperationId)) (i : OperationId)
      → was_removed (lookup e m) ≡ false
      → member i (ids_of e m) ≡ false
  unfolding member lookup
  was_removed_none e m i h = elim (Option-cases (lookup e m)) [
    | inl absent ↦ rw absent
    | inr (ids, present) ↦ rw present (empty ids (rw present at h))
  ]
    where
      empty : (ids : KeySet OperationId) → not (is_empty ids) ≡ false → member i ids ≡ false
      empty [] h = refl
      empty (_ ∷ _) h = cc

  pub ids_of-update :
      (e j : T) (f : KeySet OperationId → KeySet OperationId) (m : Map T (KeySet OperationId))
      → ids_of j (update e [] f m) ≡ (if eqb e j then f (ids_of e m) else ids_of j m)
  ids_of-update e j f m = ground (arith, lookup-update e j [] f m)

is_buried_lem :
    (i : OperationId) (t : Option (KeySet OperationId)) → is_buried i t ≡ member i (get_or t [])
unfolding member lookup
is_buried_lem i none = refl
is_buried_lem i (some t) = refl

pub member_nil : (i : OperationId) → member i [] ≡ false
unfolding member lookup
member_nil i = refl

-- The inner loop adds every number that is not buried.
pub member-add_ids :
    (buried : Option (KeySet OperationId)) (i : OperationId) (mine ids : KeySet OperationId)
    → member i (add_ids buried mine ids)
      ≡ ((member i ids && not (member i (get_or buried []))) || member i mine)
unfolding add_ids
member-add_ids buried i mine [] = ground (arith, member_nil i)
member-add_ids buried i mine ((j, _) ∷ ids) = ground (
  arith,
  member-add_ids buried i (if is_buried j buried then mine else add_key j mine) ids,
  member-add_key j i mine,
  is_buried_lem j buried,
  member_cons i j ids,
  eq_of_eqb j i,
)

module _ {ℓ} {T : Type ℓ} ⦃o : Ord T⦄ where
  -- After the loop over the tombstones of the other set a number is buried if it was in either.
  pub member-merge_tombstones :
      (e : T) (i : OperationId) (mine other : Map T (KeySet OperationId))
      → IsSorted other
      → member i (ids_of e (merge_tombstones mine other))
        ≡ (member i (ids_of e other) || member i (ids_of e mine))
  unfolding merge_tombstones lookup
  member-merge_tombstones e i mine [] s = ground (arith, member_nil i)
  member-merge_tombstones e i mine ((j, t) ∷ rest) s = ground (
    arith,
    member-merge_tombstones e i (update j [] (λ u. union u t) mine) rest s.1,
    ids_of-update j e (λ u. union u t) mine,
    member-union i (ids_of j mine) t,
    lookup-IsBelow j rest s.0,
    eq_of_eqb j e,
    member_nil i,
  )

  -- one round of the loop over the elements of the other set
  abbrev merge_round :
      Map T (KeySet OperationId)
      → T
      → KeySet OperationId
      → Map T (KeySet OperationId)
      → Map T (KeySet OperationId)
  merge_round tombstones j ids mine =
      if was_removed (lookup j tombstones)
      then mine
      else update j [] (λ self_ids. add_ids (lookup j tombstones) self_ids ids) mine

  member-merge_round :
      (e j : T) (i : OperationId) (ids : KeySet OperationId)
      (tombstones mine : Map T (KeySet OperationId))
      → member i (ids_of e (merge_round tombstones j ids mine)) ≡ (
          (eqb j e && not (was_removed (lookup j tombstones)) && member i ids)
          || member i (ids_of e mine))
  member-merge_round e j i ids tombstones mine =
      elim (Bool-cases (was_removed (lookup j tombstones))) [
        | inl old ↦ rw old (ground arith)
        | inr fresh ↦ rw fresh (
            ground (
              arith,
              was_removed_none j tombstones i fresh,
              ids_of-update j e (λ u. add_ids (lookup j tombstones) u ids) mine,
              member-add_ids (lookup j tombstones) i (ids_of j mine) ids,
              eq_of_eqb j e,
            ))
      ]

  -- The loop over the elements of the other set skips an element that has a tombstone here, and
  -- takes over every number of any other.
  pub member-merge_elements :
      (e : T) (i : OperationId) (tombstones mine other : Map T (KeySet OperationId))
      → IsSorted other
      → member i (ids_of e (merge_elements tombstones mine other)) ≡ (
          (not (was_removed (lookup e tombstones)) && member i (ids_of e other))
          || member i (ids_of e mine))
  unfolding merge_elements lookup
  member-merge_elements e i tombstones mine [] s = ground (arith, member_nil i)
  member-merge_elements e i tombstones mine ((j, ids) ∷ rest) s = ground (
    arith,
    member-merge_elements e i tombstones (merge_round tombstones j ids mine) rest s.1,
    member-merge_round e j i ids tombstones mine,
    lookup-IsBelow j rest s.0,
    eq_of_eqb j e,
    member_nil i,
  )
