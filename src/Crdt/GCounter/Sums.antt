-- ===== src/Crdt/GCounter/Sums.antt =====
-- crates/storage/src/crdt.rs: what an increment does to the value that a counter reports.
use lite_vision.Prelude.{
  ℕ, ◌+◌, ◌%◌, ◌<◌, ◌≡◌, refl, Option, none, some, [], ◌∷◌, get_or, add_u64, sub_u64, u64_mod,
  arith,
}
use lite_vision.Ord.{nat_ord}
use lite_vision.OrdMap.{Map, lookup, update, values}
use lite_vision.OrdMap.Sorted.{IsSorted}
use lite_vision.OrdMap.Sum.{sum_by, sum_by-insert, weight}
use lite_vision.Crdt.GCounter.{
  GCounter, PnCounter, increment, sum_from, get, pn_increment, pn_decrement, pn_get,
}

-- the sum of the counts without the wrap-around
abbrev pub total : Map ℕ ℕ → ℕ
total = sum_by (λ c. c)

sum_from_lem :
    (acc : ℕ) (m : Map ℕ ℕ)
    → acc % u64_mod ≡ acc
    → sum_from acc (values m) ≡ (acc + total m) % u64_mod
unfolding sum_from sum_by
sum_from_lem acc [] h = omega arith
sum_from_lem acc ((k, v) ∷ m) h = omega (arith, sum_from_lem (add_u64 acc v) m (omega arith))

get_lem : (c : GCounter) → get c ≡ total c.counts % u64_mod
unfolding get
get_lem c = omega (arith, sum_from_lem 0 c.counts (omega arith))

weight_lem : (o : Option ℕ) → weight (λ (c : ℕ). c) o ≡ get_or o 0
weight_lem none = refl
weight_lem (some c) = refl

-- A slot of a counter grows by one, and no slot of an u64 counter has reached 2 ^ 64 - 1: the sum
-- grows by one.
total-update :
    (k : ℕ) (m : Map ℕ ℕ)
    → IsSorted m
    → get_or (lookup k m) 0 + 1 < u64_mod
    → total (update k 0 (λ c. add_u64 c 1) m) ≡ total m + 1
unfolding update
total-update k m s h = omega (
  arith,
  sum_by-insert (λ (c : ℕ). c) k (add_u64 (get_or (lookup k m) 0) 1) m s,
  weight_lem (lookup k m),
)

-- An increment adds one to the reported value, modulo 2 ^ 64, unless the slot of the replica
-- itself is full.
pub get-increment :
    (c : GCounter)
    → IsSorted c.counts
    → get_or (lookup c.replica_id c.counts) 0 + 1 < u64_mod
    → get (increment c) ≡ add_u64 (get c) 1
unfolding increment
get-increment c s h = omega (
  arith,
  get_lem c,
  total-update c.replica_id c.counts s h,
  get_lem (record c { counts = update c.replica_id 0 (λ c. add_u64 c 1) c.counts }),
)

-- With ascending keys and own slots that can still count, an increment moves the reported value of
-- a PNCounter by one up, a decrement by one down, and both together leave it.
pub pn_get-steps :
    (c : PnCounter)
    → IsSorted c.positive.counts
    → IsSorted c.negative.counts
    → get_or (lookup c.positive.replica_id c.positive.counts) 0 + 1 < u64_mod
    → get_or (lookup c.negative.replica_id c.negative.counts) 0 + 1 < u64_mod
    → (pn_get (pn_increment c) ≡ add_u64 (pn_get c) 1)
      × (pn_get (pn_decrement c) ≡ sub_u64 (pn_get c) 1)
      × (pn_get (pn_decrement (pn_increment c)) ≡ pn_get c)
unfolding pn_get pn_increment pn_decrement
pn_get-steps c s t h k = (
  omega (arith, get-increment c.positive s h, get_lem c.positive, get_lem c.negative),
  omega (arith, get-increment c.negative t k, get_lem c.positive, get_lem c.negative),
  omega (
    arith,
    get-increment c.positive s h,
    get-increment c.negative t k,
    get_lem c.positive,
    get_lem c.negative,
  ),
)
