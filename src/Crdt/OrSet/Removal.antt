-- ===== src/Crdt/OrSet/Removal.antt =====
-- crates/storage/src/crdt.rs: what ORSet::remove does to the membership of its element.
use Prim.Native.Nat.Ordering.{gt}
use lite_vision.Prelude.{
  ◌+◌, ◌<◌, ◌≤◌, ◌≡◌, ◌≢◌, refl, ap, sym, ◌∙◌, true, false, ◌||◌, some, u64_mod, arith, inl, inr,
  Bool-cases,
}
use lite_vision.Ord.{Ord, eqb, eqb_self, eq_of_eqb}
use lite_vision.OrdMap.{member, add_key}
use lite_vision.OrdMap.Lookup.{member-add_key}
use lite_vision.Crdt.OperationId.{OperationId, op_ord, op_cmp}
use lite_vision.Crdt.OrSet.{OrSet, add, remove, contains, max_id}
use lite_vision.Crdt.OrSet.Ids.{ids_of, ids_of-update}
use lite_vision.Crdt.OrSet.Largest.{max_id_top, max_id_exists}
use lite_vision.Crdt.OrSet.Clock.{
  IsClocked, fresh, fresh_lem, member-add, clock-add, add-IsClocked, remove_cases,
}
use lite_vision.Crdt.OrSet.Contains.{contains-intro, contains-none}

module _ {ℓ} {T : Type ℓ} ⦃o : Ord T⦄ where
  -- what `remove` leaves where the element has a number
  member-remove :
      (e : T) (s : OrSet T) (top i : OperationId)
      → max_id (ids_of e s.elements) ≡ some top
      → ((remove e s).1 ≡ true)
        × ((remove e s).0.elements ≡ s.elements)
        × (member i (ids_of e (remove e s).0.tombstones)
            ≡ (eqb top i || member i (ids_of e s.tombstones)))
  member-remove e s top i found = elim (remove_cases e s) [
    | inl (empty, _) ↦ cc
    | inr (top', found', stored) ↦ rw stored (
      refl,
      refl,
      ground (
        arith,
        ids_of-update e e (add_key top') s.tombstones,
        eqb_self e,
        member-add_key top' i (ids_of e s.tombstones),
      ),
    )
  ]

  -- One removal buries one number: an element that holds another living number stays.
  pub contains-remove_other :
      (e : T) (s : OrSet T) (top i : OperationId)
      → max_id (ids_of e s.elements) ≡ some top
      → i ≢ top
      → member i (ids_of e s.elements) ≡ true
      → member i (ids_of e s.tombstones) ≡ false
      → contains e (remove e s).0 ≡ true
  contains-remove_other e s top i found ne here alive =
      let (_, kept, buried) = member-remove e s top i found in
      contains-intro e i (remove e s).0 (rw kept here)
        (ground (arith, buried, eq_of_eqb top i, λ (p : top ≡ i). ne (sym p)))

  -- For an ascending set whose clock is above every number it holds and can still count twice: an
  -- element that its replica adds twice and then removes stays in the set, although `remove`
  -- answers true.
  pub contains-remove-add_twice :
      (e : T) (s : OrSet T)
      → s.clock + 2 < u64_mod
      → IsClocked s
      → (contains e (remove e (add e (add e s))).0 ≡ true) × ((remove e (add e (add e s))).1 ≡ true)
  contains-remove-add_twice e s room h =
      let s' = add e s in
      let first = fresh s in
      let second = fresh s' in
      let step = clock-add e s (omega arith) in
      let room' : s'.clock + 1 < u64_mod = omega (arith, step) in
      let step' = clock-add e s' room' in
      let new = fresh_lem e s (omega arith) h in
      let new' = fresh_lem e s' room' (add-IsClocked e s (omega arith) h) in
      let has_first : member first (ids_of e (add e s').elements) ≡ true =
        ground
          (arith, member-add e e first s', member-add e e first s, eqb_self e, eqb_self first) in
      let has_second : member second (ids_of e (add e s').elements) ≡ true =
        ground (arith, member-add e e second s', eqb_self e, eqb_self second) in
      let differ : first ≢ second =
        λ p. omega (arith, step, step', ap (λ (i : OperationId). i.logical_clock) p) in
      let (top, found) = max_id_exists second (ids_of e (add e s').elements) has_second in
      (
        elim (Bool-cases (eqb top first)) [
          | inl same ↦
              contains-remove_other e (add e s') top second found
                (λ p. differ (sym (p ∙ eq_of_eqb top first same))) has_second
                (ground (arith, new', step'))
          | inr other ↦
              contains-remove_other e (add e s') top first found (λ p. cc (p, eqb_self top))
                has_first (ground (arith, new, step, step'))
        ],
        (member-remove e (add e s') top top found).0,
      )

  -- no number of the element is above the one that `add` makes
  largest :
      (e : T) (s : OrSet T)
      → s.clock + 1 < u64_mod
      → IsClocked s
      → ((i : OperationId) → member i (ids_of e s.elements) ≡ true → i.replica_id ≤ s.replica_id)
      → (i : OperationId) → member i (ids_of e (add e s).elements) ≡ true
      → op_cmp i (fresh s) ≢ gt
  largest e s room h low i here above =
      ground
        (arith, member-add e e i s, eq_of_eqb (fresh s) i, low i, h.seen e i, clock-add e s room)

  -- For an ascending set whose clock is above every number it holds and can still count: an
  -- element that is not in the set, and no number of which is from a higher replica, is not in the
  -- set after it has been added and removed, and `remove` answers true.
  pub contains-remove-add :
      (e : T) (s : OrSet T)
      → s.clock + 1 < u64_mod
      → IsClocked s
      → contains e s ≡ false
      → ((i : OperationId) → member i (ids_of e s.elements) ≡ true → i.replica_id ≤ s.replica_id)
      → (contains e (remove e (add e s)).0 ≡ false) × ((remove e (add e s)).1 ≡ true)
  contains-remove-add e s room h absent low =
      let number = fresh s in
      let step = clock-add e s room in
      let has : member number (ids_of e (add e s).elements) ≡ true =
        ground (arith, member-add e e number s, eqb_self e, eqb_self number) in
      let found = max_id_top number (ids_of e (add e s).elements) has (largest e s room h low) in
      (
        contains-none e (remove e (add e s)).0 (λ i here. ground (
          arith,
          member-remove e (add e s) number i found,
          member-add e e i s,
          step,
          contains-intro e i s,
          eqb_self e,
        )),
        (member-remove e (add e s) number number found).0,
      )
