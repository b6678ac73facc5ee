-- ===== src/Crdt/GCounter/Laws.antt =====
-- crates/storage/src/crdt.rs: merges of counters.
use lite_vision.Prelude.{ℕ, ◌≡◌, ap}
use lite_vision.Ord.{nat_ord}
use lite_vision.OrdMap.{Map}
use lite_vision.OrdMap.Sorted.{IsSorted}
use lite_vision.OrdMap.Merge.{merge_by_comm, merge_by_assoc, merge_by_idem}
use lite_vision.Crdt.VersionVector.{max_clock}
use lite_vision.Crdt.VersionVector.Laws.{max_clock_comm, max_clock_assoc, max_clock_idem}
use lite_vision.Crdt.GCounter.{GCounter, PnCounter, get, merge, pn_get, pn_merge}

-- Merging counters with ascending keys is commutative in the counts, associative and idempotent,
-- and both directions report the same value.
pub merge_laws :
    (a b c : GCounter)
    → IsSorted a.counts
    → IsSorted b.counts
    → IsSorted c.counts
    → ((merge a b).counts ≡ (merge b a).counts)
      × (merge (merge a b) c ≡ merge a (merge b c))
      × (merge a a ≡ a)
      × (get (merge a b) ≡ get (merge b a))
unfolding merge get
merge_laws a b c s t u =
    let comm = merge_by_comm max_clock max_clock_comm a.counts b.counts s t in
    (
      comm,
      ap (λ (m : Map ℕ ℕ). record a { counts = m })
          (merge_by_assoc max_clock max_clock_assoc a.counts b.counts c.counts s t u),
      ap (λ (m : Map ℕ ℕ). record a { counts = m })
          (merge_by_idem max_clock max_clock_idem a.counts s),
      rw comm,
    )

-- Two replicas of a PNCounter with ascending keys that have merged one another report the same
-- value.
pub pn_converges :
    (a b : PnCounter)
    → IsSorted a.positive.counts
    → IsSorted a.negative.counts
    → IsSorted b.positive.counts
    → IsSorted b.negative.counts
    → pn_get (pn_merge a b) ≡ pn_get (pn_merge b a)
unfolding pn_get pn_merge
pn_converges a b s t u v = rw (
  (merge_laws a.positive b.positive a.positive s u s).3,
  (merge_laws a.negative b.negative a.negative t v t).3,
)
