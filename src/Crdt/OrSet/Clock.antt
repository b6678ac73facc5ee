-- ===== src/Crdt/OrSet/Clock.antt =====
-- crates/storage/src/crdt.rs: the clock of an ORSet beside the numbers that the set has seen.
use lite_vision.Prelude.{
  ℕ, ◌+◌, ◌≤◌, ◌<◌, ◌≡◌, refl, true, false, ◌||◌, ◌&&◌, none, some, u64_mod, arith, Option-cases,
  ◌⊎◌, inl, inr, [],
}
use lite_vision.Ord.{Ord, eqb, eq_of_eqb}
use lite_vision.OrdMap.{lookup, update, member, add_key}
use lite_vision.Crdt.OrSet.Largest.{max_id-member}
use lite_vision.OrdMap.Lookup.{member-add_key}
use lite_vision.OrdMap.Sorted.{IsSorted}
use lite_vision.Crdt.OperationId.{OperationId, op_ord}
use lite_vision.Crdt.OrSet.{OrSet, new, next_op_id, add, remove, merge, max_id}
use lite_vision.Crdt.OrSet.Ids.{
  ids_of, ids_of-update, member-merge_elements, member-merge_tombstones, member_nil,
}

module _ {ℓ} {T : Type ℓ} ⦃o : Ord T⦄ where
  -- No number among the elements or the tombstones has a logical clock above that of the set.
  pub record IsClocked (s : OrSet T) : Type ℓ where
    pub seen :
        (e : T) (i : OperationId)
        → member i (ids_of e s.elements) ≡ true
        → i.logical_clock ≤ s.clock
    pub buried :
        (e : T) (i : OperationId)
        → member i (ids_of e s.tombstones) ≡ true
        → i.logical_clock ≤ s.clock

  pub new-IsClocked : (r : ℕ) → IsClocked (new {T = T} r)
  unfolding new lookup
  new-IsClocked r = record {
    seen = λ e i h. cc (member_nil i);
    buried = λ e i h. cc (member_nil i);
  }

  -- the number that `add` makes
  abbrev pub fresh : OrSet T → OperationId
  fresh s = (next_op_id s).1

  pub member-add :
      (e j : T) (i : OperationId) (s : OrSet T)
      → member i (ids_of j (add e s).elements)
        ≡ ((eqb e j && eqb (fresh s) i) || member i (ids_of j s.elements))
  unfolding add
  member-add e j i s = ground (
    arith,
    ids_of-update e j (add_key (fresh s)) s.elements,
    member-add_key (fresh s) i (ids_of e s.elements),
    eq_of_eqb e j,
  )

  pub clock-add :
      (e : T) (s : OrSet T)
      → s.clock + 1 < u64_mod
      → ((add e s).clock ≡ s.clock + 1)
        × ((fresh s).logical_clock ≡ s.clock + 1)
        × ((add e s).tombstones ≡ s.tombstones)
        × ((add e s).replica_id ≡ s.replica_id)
        × ((fresh s).replica_id ≡ s.replica_id)
  unfolding add next_op_id
  clock-add e s room = (omega arith, omega arith, refl, refl, refl)

  pub add-IsClocked :
      (e : T) (s : OrSet T) → s.clock + 1 < u64_mod → IsClocked s → IsClocked (add e s)
  add-IsClocked e s room h =
      let (above, number, kept, _, _) = clock-add e s room in
      record {
        seen = λ j i m.
            ground
              (arith, member-add e j i s, h.seen j i, eq_of_eqb (fresh s) i, clock-add e s room);
        buried = λ j i m. ground (arith, h.buried j i, clock-add e s room);
      }

  -- The number that `add` makes is in neither set of any element.
  pub fresh_lem :
      (e : T) (s : OrSet T)
      → s.clock + 1 < u64_mod
      → IsClocked s
      → (member (fresh s) (ids_of e s.elements) ≡ false)
        × (member (fresh s) (ids_of e s.tombstones) ≡ false)
  fresh_lem e s room h = (
    ground (arith, h.seen e (fresh s), clock-add e s room),
    ground (arith, h.buried e (fresh s), clock-add e s room),
  )

  -- `remove` leaves everything but the tombstones of its element, which gain the largest number.
  pub remove_cases :
      (e : T) (s : OrSet T)
      → ((max_id (ids_of e s.elements) ≡ none) × (remove e s ≡ (s, false)))
        ⊎ ((top : OperationId) × (max_id (ids_of e s.elements) ≡ some top)
            × (remove e s
                ≡ (record s { tombstones = update e [] (add_key top) s.tombstones }, true)))
  unfolding remove max_id
  remove_cases e s = elim (Option-cases (lookup e s.elements)) [
    | inl absent ↦ inl (rw absent, rw (absent, remove))
    | inr (ids, present) ↦ elim (Option-cases (max_id ids)) [
      | inl empty ↦ inl (rw present empty, rw (present, remove) (rw empty))
      | inr (top, found) ↦ inr (top, rw present found, rw (present, remove) (rw found))
    ]
  ]

  pub remove-IsClocked : (e : T) (s : OrSet T) → IsClocked s → IsClocked (remove e s).0
  remove-IsClocked e s h = elim (remove_cases e s) [
    | inl (_, same) ↦ rw same h
    | inr (top, found, stored) ↦ rw stored (record {
      seen = h.seen;
      buried = λ j i m. ground (
        arith,
        h.buried j i,
        h.seen e i,
        ids_of-update e j (add_key top) s.tombstones,
        member-add_key top i (ids_of e s.tombstones),
        eq_of_eqb top i,
        eq_of_eqb e j,
        max_id-member (ids_of e s.elements) found,
      );
    })
  ]

  pub merge-IsClocked :
      (a b : OrSet T)
      → IsSorted b.elements
      → IsSorted b.tombstones
      → IsClocked a
      → IsClocked b
      → IsClocked (merge a b)
  unfolding merge
  merge-IsClocked a b s t h k = record {
    seen = λ e i m. ground (
      arith,
      h.seen e i,
      k.seen e i,
      member-merge_elements e i a.tombstones a.elements b.elements s,
    );
    buried = λ e i m. ground (
      arith,
      h.buried e i,
      k.buried e i,
      member-merge_tombstones e i a.tombstones b.tombstones t,
    );
  }
