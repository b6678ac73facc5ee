-- ===== src/Crdt/Graph.antt =====
-- crates/storage/src/crdt.rs: CRDTGraph.
pub mod Edges
use lite_vision.Prelude.{
  ℕ, max, Bool, true, false, not, Option, none, some, List, [], ◌∷◌, add_u64, if◌then◌else◌,
}
use lite_vision.Ord.{nat_ord, pair_ord}
use lite_vision.OrdMap.{Map, KeySet, lookup, update, contains_key, add_key, union}
use lite_vision.Crdt.OperationId.{OperationId, op_ord}
use lite_vision.Crdt.OrSet
use lite_vision.Crdt.OrSet.{OrSet, merge_tombstones}

pub record CrdtGraph : Type 0 where
  pub nodes : OrSet ℕ
  pub edges : Map ℕ (OrSet ℕ)
  pub edge_tombstones : Map (ℕ × ℕ) (KeySet OperationId)
  pub clock : ℕ
  pub replica_id : ℕ

unfoldable pub new : ℕ → CrdtGraph
new replica_id = record {
  nodes = OrSet.new replica_id;
  edges = [];
  edge_tombstones = [];
  clock = 0;
  replica_id = replica_id;
}

unfoldable pub add_node : ℕ → CrdtGraph → CrdtGraph
add_node node_id self = record self { nodes = OrSet.add node_id self.nodes }

unfoldable pub add_edge : ℕ → ℕ → CrdtGraph → CrdtGraph
add_edge from to self = record self {
  clock = add_u64 self.clock 1;
  edges = update from (OrSet.new self.replica_id) (OrSet.add to) self.edges;
}

unfoldable pub remove_edge : ℕ → ℕ → CrdtGraph → CrdtGraph
remove_edge from to self =
    let clock : ℕ = add_u64 self.clock 1 in
    let op_id : OperationId = record { replica_id = self.replica_id; logical_clock = clock } in
    record self {
      clock = clock;
      edge_tombstones = update (from, to) [] (add_key op_id) self.edge_tombstones;
    }

-- the filter of `get_neighbors`
unfoldable pub keep_edges : CrdtGraph → ℕ → List ℕ → List ℕ
keep_edges self node [] = []
keep_edges self node (neighbor ∷ rest) =
    let tail = keep_edges self node rest in
    if not (contains_key (node, neighbor) self.edge_tombstones) then neighbor ∷ tail else tail

unfoldable pub get_neighbors : ℕ → CrdtGraph → List ℕ
get_neighbors node self = elim (lookup node self.edges) [
  | some set ↦ keep_edges self node (OrSet.get set)
  | none ↦ []
]

-- the loop of `merge` over `other.edges`
unfoldable pub merge_edges : ℕ → Map ℕ (OrSet ℕ) → Map ℕ (OrSet ℕ) → Map ℕ (OrSet ℕ)
merge_edges replica_id mine [] = mine
merge_edges replica_id mine ((from, other_edges) ∷ rest) =
    merge_edges replica_id
      (update from (OrSet.new replica_id) (λ self_edges. OrSet.merge self_edges other_edges) mine)
      rest

-- the loop over the tombstones is the one of ORSet, at pairs of nodes
unfoldable pub merge : CrdtGraph → CrdtGraph → CrdtGraph
merge self other = record self {
  nodes = OrSet.merge self.nodes other.nodes;
  edges = merge_edges self.replica_id self.edges other.edges;
  edge_tombstones = merge_tombstones self.edge_tombstones other.edge_tombstones;
  clock = max self.clock other.clock;
}
