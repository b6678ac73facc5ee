-- ===== src/Crdt/OperationId.antt =====
-- crates/storage/src/crdt.rs: OperationId, its derived order and `OperationId::max`.
use lite_vision.Prelude.{ℕ, ◌≡◌, ap, Ordering, ◌≤◌, ltb, if◌then◌else◌, arith}
use Prim.Native.Nat.Ordering.{eq}
use lite_vision.Ord.{Ord, pair_cmp, pair_cmp_self, pair_cmp-eq, pair_cmp_flip, pair_cmp_trans}

pub record OperationId : Type 0 where
  pub replica_id : ℕ  -- u64
  pub logical_clock : ℕ  -- u64

-- the fields, in the order of their declaration
abbrev pub fields : OperationId → ℕ × ℕ
fields i = (i.replica_id, i.logical_clock)

-- the derived `cmp`
abbrev pub op_cmp : OperationId → OperationId → Ordering
op_cmp a b = pair_cmp (fields a) (fields b)

pub op_cmp-eq : (a b : OperationId) → op_cmp a b ≡ eq → a ≡ b
op_cmp-eq a b h =
    ap (λ (p : ℕ × ℕ). let r : OperationId = record { replica_id = p.0; logical_clock = p.1 } in r)
      (pair_cmp-eq (fields a) (fields b) h)

instance abbrev pub op_ord : Ord OperationId
op_ord = record {
  cmp = op_cmp;
  cmp_self = λ a. pair_cmp_self (fields a);
  cmp_eq = op_cmp-eq;
  cmp_flip = λ a b. pair_cmp_flip (fields a) (fields b);
  cmp_trans = λ a b c. pair_cmp_trans (fields a) (fields b) (fields c);
}

-- OperationId::max: by the clock first, then by the replica
unfoldable pub op_max : OperationId → OperationId → OperationId
op_max a b =
    if ltb b.logical_clock a.logical_clock
    then a
    else if ltb a.logical_clock b.logical_clock
    then b
    else if ltb b.replica_id a.replica_id
    then a
    else b

-- `OperationId::max` is a maximum that does not depend on the order of its arguments: it is
-- commutative, associative and idempotent, and no clock is above that of the result.
pub op_max_laws :
    (a b c : OperationId)
    → (op_max a b ≡ op_max b a)
      × (op_max (op_max a b) c ≡ op_max a (op_max b c))
      × (op_max a a ≡ a)
      × (a.logical_clock ≤ (op_max a b).logical_clock)
unfolding op_max
op_max_laws a b c = (ground arith, ground arith, ground arith, ground arith)
