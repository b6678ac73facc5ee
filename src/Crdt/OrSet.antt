-- ===== src/Crdt/OrSet.antt =====
-- crates/storage/src/crdt.rs: ORSet, the observed-remove set, with the operations in the order of
-- the source. A method that mutates `self` returns the new set.
pub mod Ids
pub mod Listing
pub mod Largest
pub mod Clock
pub mod Contains
pub mod Removal
pub mod Merging
mod Tests
use Prim.Native.Nat.Ordering.{gt}
use lite_vision.Prelude.{
  ℕ, max, Ordering, Bool, true, false, not, Option, none, some, List, [], ◌∷◌, add_u64, get_or,
  if◌then◌else◌, ◌||◌,
}
use lite_vision.Ord.{Ord}
use lite_vision.OrdMap.{Map, KeySet, lookup, insert, update, member, add_key, union}
use lite_vision.Crdt.OperationId.{OperationId, op_cmp, op_ord}

pub record OrSet {ℓ} (T : Type ℓ) : Type ℓ where
  pub elements : Map T (KeySet OperationId)
  pub tombstones : Map T (KeySet OperationId)
  pub clock : ℕ
  pub replica_id : ℕ

-- `is_empty`
abbrev pub is_empty : KeySet OperationId → Bool
is_empty [] = true
is_empty (_ ∷ _) = false

-- `ids.iter().max()`: the last of the largest
unfoldable pub max_from : OperationId → KeySet OperationId → OperationId
max_from best [] = best
max_from best ((i, _) ∷ ids) = max_from (elim (op_cmp best i) [ gt ↦ best | _ ↦ i ]) ids

unfoldable pub max_id : KeySet OperationId → Option OperationId
max_id [] = none
max_id ((i, _) ∷ ids) = some (max_from i ids)

-- `ids.iter().any(|id| !tombstones.contains(id))`
unfoldable pub any_alive : KeySet OperationId → KeySet OperationId → Bool
any_alive [] tombstones = false
any_alive ((i, _) ∷ ids) tombstones = not (member i tombstones) || any_alive ids tombstones

-- the test that `contains` and `get` share
abbrev pub visible : KeySet OperationId → Option (KeySet OperationId) → Bool
visible ids (some tombstones) = any_alive ids tombstones
visible ids none = not (is_empty ids)

-- `self.tombstones.get(element).map(|t| !t.is_empty()).unwrap_or(false)`
abbrev pub was_removed : Option (KeySet OperationId) → Bool
was_removed none = false
was_removed (some t) = not (is_empty t)

-- `self.tombstones.get(element).map(|t| t.contains(id)).unwrap_or(false)`
abbrev pub is_buried : OperationId → Option (KeySet OperationId) → Bool
is_buried i none = false
is_buried i (some t) = member i t

-- the inner loop over `other_ids`
unfoldable pub add_ids :
    Option (KeySet OperationId) → KeySet OperationId → KeySet OperationId → KeySet OperationId
add_ids buried self_ids [] = self_ids
add_ids buried self_ids ((i, _) ∷ ids) =
    add_ids buried (if is_buried i buried then self_ids else add_key i self_ids) ids

module _ {ℓ} {T : Type ℓ} ⦃o : Ord T⦄ where
  unfoldable pub new : ℕ → OrSet T
  new replica_id = record { elements = []; tombstones = []; clock = 0; replica_id = replica_id }

  unfoldable pub next_op_id : OrSet T → OrSet T × OperationId
  next_op_id self =
      let clock : ℕ = add_u64 self.clock 1 in
      (
        record self { clock = clock },
        record { replica_id = self.replica_id; logical_clock = clock },
      )

  unfoldable pub add : T → OrSet T → OrSet T
  unfolding next_op_id
  add element self =
      let (self', op_id) = next_op_id self in
      record self' { elements = update element [] (add_key op_id) self'.elements }

  -- the body of `remove` for the ids of the element
  abbrev remove_ids : T → OrSet T → Option OperationId → OrSet T × Bool
  remove_ids element self (some top) =
      (record self { tombstones = update element [] (add_key top) self.tombstones }, true)
  remove_ids element self none = (self, false)

  unfoldable pub remove : T → OrSet T → OrSet T × Bool
  remove element self = elim (lookup element self.elements) [
    | some ids ↦ remove_ids element self (max_id ids)
    | none ↦ (self, false)
  ]

  unfoldable pub contains : T → OrSet T → Bool
  contains element self = elim (lookup element self.elements) [
    | some ids ↦ visible ids (lookup element self.tombstones)
    | none ↦ false
  ]

  -- the loop of `get` over the entries of `elements`
  unfoldable pub get_loop : Map T (KeySet OperationId) → Map T (KeySet OperationId) → List T
  get_loop tombstones [] = []
  get_loop tombstones ((element, ids) ∷ rest) =
      let tail = get_loop tombstones rest in
      if visible ids (lookup element tombstones) then element ∷ tail else tail

  unfoldable pub get : OrSet T → List T
  get self = get_loop self.tombstones self.elements

  -- the first loop of `merge`, over `other.elements`
  unfoldable pub merge_elements :
      Map T (KeySet OperationId)
      → Map T (KeySet OperationId)
      → Map T (KeySet OperationId)
      → Map T (KeySet OperationId)
  merge_elements tombstones mine [] = mine
  merge_elements tombstones mine ((element, other_ids) ∷ rest) =
      merge_elements tombstones
        (if was_removed (lookup element tombstones)
          then mine
          else update element []
              (λ self_ids. add_ids (lookup element tombstones) self_ids other_ids) mine)
        rest

  -- the second loop, over `other.tombstones`
  unfoldable pub merge_tombstones :
      Map T (KeySet OperationId) → Map T (KeySet OperationId) → Map T (KeySet OperationId)
  merge_tombstones mine [] = mine
  merge_tombstones mine ((element, other_tombstones) ∷ rest) =
      merge_tombstones (update element [] (λ t. union t other_tombstones) mine) rest

  unfoldable pub merge : OrSet T → OrSet T → OrSet T
  merge self other = record self {
    elements = merge_elements self.tombstones self.elements other.elements;
    tombstones = merge_tombstones self.tombstones other.tombstones;
    clock = max self.clock other.clock;
  }
