-- ===== src/Crdt/OrSet/Tests.antt =====
-- crates/storage/src/crdt.rs: the unit tests of ORSet, and its theorems at concrete sets.
use lite_vision.Prelude.{ℕ, ◌≡◌, refl, true, false, ◌||◌, [], ◌∷◌, arith}
use lite_vision.Ord.{nat_ord, eqb}
use lite_vision.OrdMap.{lookup, insert, update, member, add_key}
use lite_vision.Crdt.OperationId.{OperationId, op_ord}
use lite_vision.Crdt.OrSet.{
  OrSet, new, add, remove, contains, merge, any_alive, max_id, max_from, next_op_id,
}
use lite_vision.Crdt.OrSet.Clock.{new-IsClocked}
use lite_vision.Crdt.OrSet.Contains.{contains-add}
use lite_vision.Crdt.OrSet.Merging.{IsOrdered, contains-merge_fresh, merge_diverges}

abbrev stamp : ℕ → ℕ → OperationId
stamp replica clock = record { replica_id = replica; logical_clock = clock }

abbrev empty : OrSet ℕ
empty = new 1

-- test_or_set_add_remove
removal_run :
    (contains 42 (remove 42 (add 100 (add 42 empty))).0 ≡ false)
    × (contains 100 (remove 42 (add 100 (add 42 empty))).0 ≡ true)
unfolding contains remove add next_op_id new lookup insert update eqb add_key any_alive member
    max_id max_from
removal_run = (refl, refl)

contains-add_example : contains 42 (add 42 empty) ≡ (eqb {K = ℕ} 42 42 || contains 42 empty)
unfolding new
contains-add_example = contains-add 42 42 empty (omega arith) (new-IsClocked 1)

-- two replicas that both hold 7, which the first then removes and the second adds again
abbrev gone : OrSet ℕ
gone = record {
  elements = (7, (stamp 1 1, tt) ∷ []) ∷ [];
  tombstones = (7, (stamp 1 1, tt) ∷ []) ∷ [];
  clock = 1;
  replica_id = 1;
}

abbrev kept : OrSet ℕ
kept = record {
  elements = (7, (stamp 1 1, tt) ∷ (stamp 2 2, tt) ∷ []) ∷ [];
  tombstones = [];
  clock = 2;
  replica_id = 2;
}

abbrev other : OrSet ℕ
other = record {
  elements = (9, (stamp 3 1, tt) ∷ []) ∷ [];
  tombstones = [];
  clock = 1;
  replica_id = 3;
}

gone-IsOrdered : IsOrdered gone
gone-IsOrdered = record { elements_sorted = (tt, tt); tombstones_sorted = (tt, tt) }

kept-IsOrdered : IsOrdered kept
kept-IsOrdered = record { elements_sorted = (tt, tt); tombstones_sorted = tt }

other-IsOrdered : IsOrdered other
other-IsOrdered = record { elements_sorted = (tt, tt); tombstones_sorted = tt }

contains-merge_fresh_example :
    (contains 9 (merge kept other) ≡ (contains 9 kept || contains 9 other))
    × (contains 9 (merge kept other) ≡ contains 9 (merge other kept))
contains-merge_fresh_example =
    contains-merge_fresh 9 kept other kept-IsOrdered other-IsOrdered (unfold lookup in refl)
      (unfold lookup in refl)

merge_diverges_example :
    (contains 7 (merge gone kept) ≡ false) × (contains 7 (merge kept gone) ≡ true)
merge_diverges_example =
    merge_diverges 7 gone kept (stamp 2 2) gone-IsOrdered kept-IsOrdered (unfold lookup eqb in refl)
      (unfold contains lookup eqb any_alive member in refl) (unfold lookup eqb member in refl)
      (unfold lookup eqb member in refl) (unfold lookup eqb member in refl)
