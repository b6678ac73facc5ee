-- ===== src/Crdt/VersionVector/Laws.antt =====
-- crates/storage/src/crdt.rs: merges and the order of version vectors.
use lite_vision.Prelude.{
  ℕ, max, ◌≤◌, ◌≡◌, refl, ap, ◌∙◌, ◌↔◌, true, Option, none, some, [], ◌∷◌, get_or, if◌then◌else◌,
  add_u64, arith,
}
use lite_vision.Ord.{nat_ord, eqb, eq_of_eqb, eqb_self}
use lite_vision.OrdMap.{Map, lookup, merge_by}
use lite_vision.OrdMap.Lookup.{lookup-update}
use lite_vision.OrdMap.Sorted.{IsSorted, lookup-IsBelow}
use lite_vision.OrdMap.Merge.{join, lookup-merge_by, merge_by-IsSorted}
use lite_vision.Crdt.VersionVector.{
  VersionVector, max_clock, increment, get, merge, dominates, dominates_all,
}

-- the laws of the join of two clocks
pub max_clock_comm : (a b : Option ℕ) → join max_clock a b ≡ join max_clock b a
max_clock_comm none none = refl
max_clock_comm none (some b) = ground arith
max_clock_comm (some a) none = ground arith
max_clock_comm (some a) (some b) = ground arith

pub max_clock_assoc :
    (a b c : Option ℕ)
    → join max_clock (join max_clock a b) c ≡ join max_clock a (join max_clock b c)
max_clock_assoc a b none = refl
max_clock_assoc a none (some c) = ground arith
max_clock_assoc none (some b) (some c) = ground arith
max_clock_assoc (some a) (some b) (some c) = ground arith

pub max_clock_idem : (a : Option ℕ) → join max_clock a a ≡ a
max_clock_idem none = refl
max_clock_idem (some a) = ground arith

get_or-join : (a b : Option ℕ) → get_or (join max_clock a b) 0 ≡ max (get_or a 0) (get_or b 0)
get_or-join none none = ground arith
get_or-join none (some b) = ground arith
get_or-join (some a) none = ground arith
get_or-join (some a) (some b) = ground arith

pub get_or-merge_by :
    (k : ℕ) (m n : Map ℕ ℕ)
    → IsSorted n
    → get_or (lookup k (merge_by max_clock m n)) 0
      ≡ max (get_or (lookup k m) 0) (get_or (lookup k n) 0)
get_or-merge_by k m n s =
    ap (λ (o : Option ℕ). get_or o 0) (lookup-merge_by max_clock k m n s)
    ∙ get_or-join (lookup k m) (lookup k n)

-- Merging takes the larger clock at every replica.
pub get-merge :
    (k : ℕ) (v w : VersionVector) → IsSorted w.clocks → get k (merge v w) ≡ max (get k v) (get k w)
unfolding get merge
get-merge k v w s = get_or-merge_by k v.clocks w.clocks s

-- An increment adds one, modulo 2 ^ 64, to the clock of its replica, and to no other.
pub get-increment :
    (r k : ℕ) (v : VersionVector)
    → get k (increment r v) ≡ (if eqb r k then add_u64 (get k v) 1 else get k v)
unfolding get increment
get-increment r k v =
    ground (arith, lookup-update r k 0 (λ (c : ℕ). add_u64 c 1) v.clocks, eq_of_eqb r k)

dominates_all_sound :
    (v : VersionVector) (m : Map ℕ ℕ) (k : ℕ)
    → IsSorted m
    → dominates_all v m ≡ true
    → get_or (lookup k m) 0 ≤ get k v
unfolding dominates_all lookup
dominates_all_sound v [] k s h = omega arith
dominates_all_sound v ((j, c) ∷ m) k s h =
    ground (arith, dominates_all_sound v m k s.1, eq_of_eqb j k)

dominates_all_complete :
    (v : VersionVector) (m : Map ℕ ℕ)
    → IsSorted m
    → ((k : ℕ) → get_or (lookup k m) 0 ≤ get k v)
    → dominates_all v m ≡ true
unfolding dominates_all lookup
dominates_all_complete v [] s h = refl
dominates_all_complete v ((j, c) ∷ m) s h =
    let later : (k : ℕ) → get_or (lookup k m) 0 ≤ get k v =
      λ k. ground (arith, h k, eq_of_eqb j k, lookup-IsBelow k m) in
    ground (arith, dominates_all_complete v m s.1 later, h j, eqb_self j)

-- For a second vector in ascending order, `dominates` decides the pointwise order of the clocks.
pub dominates_iff :
    (v w : VersionVector)
    → IsSorted w.clocks
    → (dominates v w ≡ true) ↔ ((k : ℕ) → get k w ≤ get k v)
unfolding dominates
dominates_iff v w s = (
  λ h k. unfold get in dominates_all_sound v w.clocks k s h,
  λ h. dominates_all_complete v w.clocks s (unfold get in h),
)

pub merge_upper :
    (v w : VersionVector)
    → IsSorted v.clocks
    → IsSorted w.clocks
    → (dominates (merge v w) v ≡ true) × (dominates (merge v w) w ≡ true)
merge_upper v w s t = (
  (dominates_iff (merge v w) v s).1 (λ k. omega (arith, get-merge k v w t)),
  (dominates_iff (merge v w) w t).1 (λ k. omega (arith, get-merge k v w t)),
)

-- The merge of two ascending version vectors dominates both, and every vector that dominates both
-- dominates it.
pub merge_lub :
    (v w u : VersionVector)
    → IsSorted v.clocks
    → IsSorted w.clocks
    → dominates u v ≡ true
    → dominates u w ≡ true
    → (dominates (merge v w) v ≡ true)
      × (dominates (merge v w) w ≡ true)
      × (dominates u (merge v w) ≡ true)
merge_lub v w u s t h l = (
  (merge_upper v w s t).0,
  (merge_upper v w s t).1,
  (dominates_iff u (merge v w) (unfold merge in merge_by-IsSorted max_clock v.clocks w.clocks s)).1
      λ k.
        omega (arith, get-merge k v w t, (dominates_iff u v s).0 h k, (dominates_iff u w t).0 l k),
)

pub dominates_self : (v : VersionVector) → IsSorted v.clocks → dominates v v ≡ true
dominates_self v s = (dominates_iff v v s).1 (λ k. omega arith)
