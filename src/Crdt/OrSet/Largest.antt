-- ===== src/Crdt/OrSet/Largest.antt =====
-- crates/storage/src/crdt.rs: the largest number of a set, which ORSet::remove buries.
use Prim.Native.Nat.Ordering.{gt}
use lite_vision.Prelude.{◌≡◌, ◌≢◌, refl, ap, true, some, [], ◌∷◌, arith, ◌⊎◌, inl}
use lite_vision.Ord.{eqb_self, eq_of_eqb, gt_of_lt}
use lite_vision.OrdMap.{KeySet, member}
use lite_vision.Crdt.OperationId.{OperationId, op_cmp, op_ord}
use lite_vision.Crdt.OrSet.{max_id, max_from}
use lite_vision.Crdt.OrSet.Ids.{member_cons, member_nil}

-- The result is the first candidate or one of the set.
max_from-member :
    (b : OperationId) (ids : KeySet OperationId)
    → (max_from b ids ≡ b) ⊎ (member (max_from b ids) ids ≡ true)
unfolding max_from
max_from-member b [] = inl refl
max_from-member b ((i, _) ∷ ids) = ground (
  arith,
  max_from-member b ids,
  max_from-member i ids,
  member_cons (max_from b ids) i ids,
  member_cons (max_from i ids) i ids,
  eqb_self i,
)

pub max_id-member :
    (ids : KeySet OperationId) {top : OperationId} → max_id ids ≡ some top → member top ids ≡ true
unfolding max_id
max_id-member [] h = cc
max_id-member ((i, _) ∷ ids) {top} h =
    ground (arith, max_from-member i ids, member_cons top i ids, eqb_self i)

-- A number of the set that none exceeds is the result.
max_from_top :
    (top b : OperationId) (ids : KeySet OperationId)
    → op_cmp b top ≢ gt
    → ((i : OperationId) → member i ids ≡ true → op_cmp i top ≢ gt)
    → (b ≡ top) ⊎ (member top ids ≡ true)
    → max_from b ids ≡ top
unfolding max_from
max_from_top top b [] hb h here = ground (arith, member_nil top)
max_from_top top b ((i, _) ∷ ids) hb h here =
    let later : (j : OperationId) → member j ids ≡ true → op_cmp j top ≢ gt =
      λ j m. h j (ground (arith, member_cons j i ids)) in
    let first : op_cmp i top ≢ gt = h i (ground (arith, member_cons i i ids, eqb_self i)) in
    ground (
      arith,
      max_from_top top b ids hb later,
      max_from_top top i ids first later,
      gt_of_lt b i,
      op_ord.cmp_eq b i,
      member_cons top i ids,
      eq_of_eqb i top,
    )

-- so it is the number that `remove` buries
pub max_id_top :
    (top : OperationId) (ids : KeySet OperationId)
    → member top ids ≡ true
    → ((i : OperationId) → member i ids ≡ true → op_cmp i top ≢ gt)
    → max_id ids ≡ some top
unfolding max_id
max_id_top top [] here h = ground (arith, member_nil top)
max_id_top top ((i, _) ∷ ids) here h = ap some (
    max_from_top top i ids (h i (ground (arith, member_cons i i ids, eqb_self i)))
      (λ j m. h j (ground (arith, member_cons j i ids)))
      (ground (arith, member_cons top i ids, eq_of_eqb i top)))

-- A set with a member has a largest one.
pub max_id_exists :
    (i : OperationId) (ids : KeySet OperationId)
    → member i ids ≡ true
    → (top : OperationId) × (max_id ids ≡ some top)
unfolding max_id
max_id_exists i [] h = cc (member_nil i)
max_id_exists i ((j, _) ∷ ids) h = (max_from j ids, refl)
