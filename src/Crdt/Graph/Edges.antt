-- ===== src/Crdt/Graph/Edges.antt =====
-- crates/storage/src/crdt.rs: the neighbours that CRDTGraph reports.
use lite_vision.Prelude.{
  ℕ, ◌≡◌, refl, Bool, true, false, not, ◌&&◌, ◌||◌, Option, none, some, List, [], ◌∷◌, arith,
  Option-cases, inl, inr,
}
use lite_vision.Ord.{nat_ord, pair_ord, eqb, eqb_self, eq_of_eqb}
use lite_vision.OrdMap.{Map, KeySet, lookup, update, contains_key, union}
use lite_vision.OrdMap.Lookup.{lookup-update}
use lite_vision.OrdMap.Sorted.{IsSorted}
use lite_vision.Crdt.OperationId.{OperationId, op_ord}
use lite_vision.Crdt.OrSet
use lite_vision.Crdt.OrSet.{OrSet, merge_tombstones}
use lite_vision.Crdt.OrSet.Listing.{has, has-get}
use lite_vision.Crdt.Graph.{
  CrdtGraph, add_node, add_edge, remove_edge, keep_edges, get_neighbors, merge,
}

has-keep_edges :
    (g : CrdtGraph) (node to : ℕ) (xs : List ℕ)
    → has to (keep_edges g node xs) ≡ (has to xs && not (contains_key (node, to) g.edge_tombstones))
unfolding has keep_edges
has-keep_edges g node to [] = refl
has-keep_edges g node to (x ∷ xs) = ground (arith, has-keep_edges g node to xs, eq_of_eqb x to)

-- the answer of `contains` on the edges of a node
abbrev pub linked : ℕ → Option (OrSet ℕ) → Bool
linked to none = false
linked to (some set) = OrSet.contains to set

-- the edge sets are ascending
pub record IsOrdered (g : CrdtGraph) : Type 0 where
  pub edges_sorted : (n : ℕ) (s : OrSet ℕ) → lookup n g.edges ≡ some s → IsSorted s.elements

-- A node is reported as a neighbour exactly if its edge set contains it and the edge has no
-- tombstone.
pub has-get_neighbors :
    (node to : ℕ) (g : CrdtGraph)
    → IsOrdered g
    → has to (get_neighbors node g)
      ≡ (linked to (lookup node g.edges) && not (contains_key (node, to) g.edge_tombstones))
has-get_neighbors node to g s = elim (Option-cases (lookup node g.edges)) [
  | inl absent ↦ unfold get_neighbors has in ground arith
  | inr (set, found) ↦
      unfold get_neighbors in
      ground (
        arith,
        has-keep_edges g node to (OrSet.get set),
        has-get to set (s.edges_sorted node set found),
      )
]

-- A removed edge is not reported, whatever the edge sets hold.
removed_edge_hidden :
    (node to : ℕ) (g : CrdtGraph)
    → contains_key (node, to) g.edge_tombstones ≡ true
    → has to (get_neighbors node g) ≡ false
unfolding get_neighbors has
removed_edge_hidden node to g h = elim (Option-cases (lookup node g.edges)) [
  | inl absent ↦ ground arith
  | inr (set, found) ↦ ground (arith, has-keep_edges g node to (OrSet.get set))
]

-- a tombstone stays
contains_key-update :
    (k j : ℕ × ℕ) (f : KeySet OperationId → KeySet OperationId)
    (m : Map (ℕ × ℕ) (KeySet OperationId))
    → contains_key j (update k [] f m) ≡ (eqb k j || contains_key j m)
unfolding contains_key
contains_key-update k j f m = ground (arith, lookup-update k j [] f m)

contains_key-merge_tombstones :
    (k : ℕ × ℕ) (mine other : Map (ℕ × ℕ) (KeySet OperationId))
    → contains_key k mine ≡ true
    → contains_key k (merge_tombstones mine other) ≡ true
unfolding merge_tombstones
contains_key-merge_tombstones k mine [] h = h
contains_key-merge_tombstones k mine ((j, t) ∷ rest) h =
    contains_key-merge_tombstones k (update j [] (λ u. union u t) mine) rest
      (ground (arith, contains_key-update j k (λ u. union u t) mine))

-- The operations of a graph, in any order and with any graphs merged in.
pub data Step : CrdtGraph → CrdtGraph → Type 0 where
  node : (n : ℕ) (g : CrdtGraph) → Step g (add_node n g)
  edge : (a b : ℕ) (g : CrdtGraph) → Step g (add_edge a b g)
  cut : (a b : ℕ) (g : CrdtGraph) → Step g (remove_edge a b g)
  join : (other g : CrdtGraph) → Step g (merge g other)

pub data Reach (g : CrdtGraph) : CrdtGraph → Type 0 where
  here : Reach g g
  next : {h k : CrdtGraph} → Reach g h → Step h k → Reach g k

contains_key-remove_edge :
    (k : ℕ × ℕ) (a b : ℕ) (g : CrdtGraph)
    → contains_key k (remove_edge a b g).edge_tombstones
      ≡ (eqb (a, b) k || contains_key k g.edge_tombstones)
unfolding remove_edge
contains_key-remove_edge k a b g = contains_key-update (a, b) k _ g.edge_tombstones

Step-buried :
    (k : ℕ × ℕ) {g h : CrdtGraph}
    → Step g h
    → contains_key k g.edge_tombstones ≡ true
    → contains_key k h.edge_tombstones ≡ true
unfolding add_node add_edge merge
Step-buried k (node n g) b = b
Step-buried k (edge x y g) b = b
Step-buried k (cut x y g) b = ground (arith, contains_key-remove_edge k x y g)
Step-buried k (join other g) b =
    contains_key-merge_tombstones k g.edge_tombstones other.edge_tombstones b

Reach-buried :
    (k : ℕ × ℕ) {g h : CrdtGraph}
    → contains_key k g.edge_tombstones ≡ true
    → Reach g h
    → contains_key k h.edge_tombstones ≡ true
Reach-buried k b here = b
Reach-buried k b (next r s) = Step-buried k s (Reach-buried k b r)

-- Once an edge has been removed, no sequence of additions, removals and merges makes the graph
-- report it again.
removed_edge_stays :
    (from to : ℕ) (g : CrdtGraph) {h : CrdtGraph}
    → Reach (remove_edge from to g) h
    → has to (get_neighbors from h) ≡ false
removed_edge_stays from to g {h} r = removed_edge_hidden from to h (
    Reach-buried (from, to) {g = remove_edge from to g}
      (ground
        (arith, contains_key-remove_edge (from, to) from to g, eqb_self {K = ℕ × ℕ} (from, to)))
      r)
