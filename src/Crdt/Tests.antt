-- ===== src/Crdt/Tests.antt =====
-- crates/storage/src/crdt.rs: its unit tests, and the theorems at concrete states.
use lite_vision.Prelude.{ℕ, max, ◌≡◌, refl, false, some, [], ◌∷◌, add_u64, arith}
use lite_vision.Ord.{nat_ord, pair_ord, eqb}
use lite_vision.OrdMap.{Map, lookup, insert, merge_by}
use lite_vision.Crdt.OperationId.{OperationId}
use lite_vision.Crdt.VersionVector
use lite_vision.Crdt.VersionVector.{VersionVector, dominates, dominates_all}
use lite_vision.Crdt.GCounter
use lite_vision.Crdt.GCounter.{
  GCounter, PnCounter, pn_new, pn_get, pn_merge, pn_increment, pn_decrement, sum_from,
}
use lite_vision.Crdt.GCounter.Laws.{merge_laws}
use lite_vision.Crdt.GCounter.Sums.{get-increment}
use lite_vision.Crdt.LwwRegister.{LwwRegister}
use lite_vision.Crdt.Graph.{CrdtGraph}
use lite_vision.Crdt.AntiEntropy.{AntiEntropy, AntiEntropyAgent}

abbrev stamp : ℕ → ℕ → OperationId
stamp replica clock = record { replica_id = replica; logical_clock = clock }

-- test_version_vector
abbrev left : VersionVector
left = record { clocks = (1, 2) ∷ (3, 1) ∷ [] }

abbrev right : VersionVector
right = record { clocks = (1, 1) ∷ (2, 4) ∷ [] }

abbrev both : VersionVector
both = record { clocks = (1, 2) ∷ (2, 4) ∷ (3, 2) ∷ [] }

left_behind : dominates left right ≡ false
unfolding dominates dominates_all VersionVector.get lookup eqb
left_behind = refl

-- test_gcounter_merge
abbrev counter_one : GCounter
counter_one = record { counts = (1, 2) ∷ []; replica_id = 1 }

abbrev counter_two : GCounter
counter_two = record { counts = (1, 1) ∷ (2, 1) ∷ []; replica_id = 2 }

counters_merge : GCounter.get (GCounter.merge counter_one counter_two) ≡ 3
unfolding GCounter.get GCounter.merge sum_from merge_by lookup insert eqb
counters_merge = refl

merge_laws_example :
    ((GCounter.merge counter_one counter_two).counts
      ≡ (GCounter.merge counter_two counter_one).counts)
    × (GCounter.merge (GCounter.merge counter_one counter_two) counter_one
        ≡ GCounter.merge counter_one (GCounter.merge counter_two counter_one))
    × (GCounter.merge counter_one counter_one ≡ counter_one)
    × (GCounter.get (GCounter.merge counter_one counter_two)
        ≡ GCounter.get (GCounter.merge counter_two counter_one))
merge_laws_example =
    merge_laws counter_one counter_two counter_one (ground arith) (ground arith) (ground arith)

get-increment_example :
    GCounter.get (GCounter.increment counter_one) ≡ add_u64 (GCounter.get counter_one) 1
get-increment_example = get-increment counter_one (ground arith) (unfold lookup eqb in omega arith)

abbrev ledger : PnCounter
ledger = record { positive = counter_one; negative = record { counts = []; replica_id = 1 } }

abbrev debts : PnCounter
debts = record { positive = counter_two; negative = counter_one }

abbrev early : LwwRegister ℕ
early = record { value = some 10; timestamp = 100; replica_id = 1 }

abbrev late : LwwRegister ℕ
late = record { value = some 20; timestamp = 100; replica_id = 2 }

abbrev lone : CrdtGraph
lone = record {
  nodes = record { elements = []; tombstones = []; clock = 0; replica_id = 1 };
  edges = [];
  edge_tombstones = [];
  clock = 0;
  replica_id = 1;
}

abbrev ours : Map ℕ ℕ
ours = (1, 5) ∷ []

abbrev theirs : Map ℕ ℕ
theirs = (1, 6) ∷ (2, 7) ∷ []

-- an agent that takes over the larger number
abbrev larger : AntiEntropyAgent ℕ
larger = record { Delta = ℕ; compute_delta = λ a b. b; apply_delta = λ s d. max s d }

abbrev here_now : AntiEntropy ℕ
here_now = record { state = 3; version_vector = left }

abbrev there_now : AntiEntropy ℕ
there_now = record { state = 8; version_vector = right }
