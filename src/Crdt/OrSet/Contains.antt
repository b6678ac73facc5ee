-- ===== src/Crdt/OrSet/Contains.antt =====
-- crates/storage/src/crdt.rs: what ORSet::contains answers after `add` and `remove`.
use lite_vision.Prelude.{
  ◌+◌, ◌<◌, ◌≡◌, refl, sym, ◌∙◌, true, false, ◌||◌, u64_mod, arith, inl, inr, Bool-cases,
}
use lite_vision.Ord.{Ord, eqb, eqb_self, eq_of_eqb}
use lite_vision.OrdMap.{member, add_key}
use lite_vision.Crdt.OperationId.{OperationId, op_ord}
use lite_vision.Crdt.OrSet.{OrSet, add, remove, contains}
use lite_vision.Crdt.OrSet.Ids.{
  ids_of, ids_of-update, contains_lem, any_alive-intro, any_alive-elim, any_alive-none,
  any_alive-congr,
}
use lite_vision.Crdt.OrSet.Clock.{IsClocked, fresh, fresh_lem, member-add, clock-add, remove_cases}

module _ {ℓ} {T : Type ℓ} ⦃o : Ord T⦄ where
  -- a number of the element that is not buried
  pub contains-intro :
      (e : T) (i : OperationId) (s : OrSet T)
      → member i (ids_of e s.elements) ≡ true
      → member i (ids_of e s.tombstones) ≡ false
      → contains e s ≡ true
  contains-intro e i s h k = contains_lem e s ∙ any_alive-intro i _ _ h k

  pub contains-elim :
      (e : T) (s : OrSet T)
      → contains e s ≡ true
      → (i : OperationId) × (member i (ids_of e s.elements) ≡ true)
        × (member i (ids_of e s.tombstones) ≡ false)
  contains-elim e s h = any_alive-elim _ _ (sym (contains_lem e s) ∙ h)

  pub contains-none :
      (e : T) (s : OrSet T)
      → ((i : OperationId)
          → member i (ids_of e s.elements) ≡ true
          → member i (ids_of e s.tombstones) ≡ true)
      → contains e s ≡ false
  contains-none e s h = contains_lem e s ∙ any_alive-none _ _ h

  pub contains-congr :
      (e : T) (s t : OrSet T)
      → ((i : OperationId) → member i (ids_of e s.elements) ≡ member i (ids_of e t.elements))
      → ((i : OperationId) → member i (ids_of e s.tombstones) ≡ member i (ids_of e t.tombstones))
      → contains e s ≡ contains e t
  contains-congr e s t h k = contains_lem e s ∙ any_alive-congr _ _ _ _ h k ∙ sym (contains_lem e t)

  -- For an ascending set whose clock is above every number it holds and can still count, after
  -- `add e` the set contains e and exactly the elements that it contained before.
  pub contains-add :
      (e j : T) (s : OrSet T)
      → s.clock + 1 < u64_mod
      → IsClocked s
      → contains j (add e s) ≡ (eqb e j || contains j s)
  contains-add e j s room h = elim (Bool-cases (eqb e j)) [
    | inl same ↦ rw (← eq_of_eqb e j same) (
        rw (eqb_self e) (
          contains-intro e (fresh s) (add e s)
            (ground (arith, member-add e e (fresh s) s, eqb_self e, eqb_self (fresh s)))
            (ground (arith, fresh_lem e s room h, clock-add e s room))))
    | inr other ↦ rw other (
        contains-congr j (add e s) s (λ i. ground (arith, member-add e j i s))
          (λ i. ground (arith, clock-add e s room)))
  ]

  -- `remove` changes no other element, and answers `true` for an element of the set.
  pub contains-remove_ne :
      (e j : T) (s : OrSet T) → eqb e j ≡ false → contains j (remove e s).0 ≡ contains j s
  contains-remove_ne e j s h = elim (remove_cases e s) [
    | inl (_, same) ↦ rw same
    | inr (top, found, stored) ↦ rw stored (
        contains-congr j _ s (λ i. refl)
          (λ i. ground (arith, ids_of-update e j (add_key top) s.tombstones)))
  ]
