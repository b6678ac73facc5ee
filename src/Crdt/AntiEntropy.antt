-- ===== src/Crdt/AntiEntropy.antt =====
-- crates/storage/src/crdt.rs: ORMap with merge_or_map, and AntiEntropy. The agent of a
-- synchronisation is a trait that the program leaves to its users: a parameter.
use lite_vision.Prelude.{
  ◌≡◌, true, false, Option, none, some, [], ◌∷◌, if◌then◌else◌, arith, Option-cases, Bool-cases,
  inl, inr,
}
use lite_vision.Ord.{Ord, nat_ord, eq_of_eqb}
use lite_vision.OrdMap.{Map, lookup, insert}
use lite_vision.OrdMap.Lookup.{lookup-insert}
use lite_vision.OrdMap.Sorted.{IsSorted, lookup-IsBelow}
use lite_vision.Crdt.VersionVector
use lite_vision.Crdt.VersionVector.{VersionVector, dominates}
use lite_vision.Crdt.VersionVector.Laws.{merge_upper, dominates_self}

-- the first value that there is
abbrev pub or_else {κ} : {V : Type κ} → Option V → Option V → Option V
or_else (some a) b = some a
or_else none b = b

module _ {ℓ κ} {K : Type ℓ} {V : Type κ} ⦃o : Ord K⦄ where
  -- `merge_value` takes shared references and returns nothing: a value that is there stays
  unfoldable pub merge_or_map : Map K V → Map K V → Map K V
  merge_or_map left [] = left
  merge_or_map left ((key, value) ∷ right) =
      merge_or_map (elim (lookup key left) [ some existing ↦ left | none ↦ insert key value left ])
        right

  -- The merge of two maps, the right one ascending, has the left value at every key where there is
  -- one, and else the right one.
  pub lookup-merge_or_map :
      (k : K) (left right : Map K V)
      → IsSorted right
      → lookup k (merge_or_map left right) ≡ or_else (lookup k left) (lookup k right)
  unfolding merge_or_map lookup
  lookup-merge_or_map k left [] s = ground arith
  lookup-merge_or_map k left ((j, v) ∷ right) s = elim (Option-cases (lookup j left)) [
    | inl absent ↦ rw absent (
        ground (
          arith,
          lookup-merge_or_map k (insert j v left) right s.1,
          lookup-insert j k v left,
          lookup-IsBelow j right s.0,
          eq_of_eqb j k,
        ))
    | inr (w, present) ↦ rw present (
        ground
          (arith, lookup-merge_or_map k left right s.1, lookup-IsBelow j right s.0, eq_of_eqb j k))
  ]

pub record AntiEntropy {ℓ} (S : Type ℓ) : Type ℓ where
  pub state : S
  pub version_vector : VersionVector

-- the trait AntiEntropyAgent
pub record AntiEntropyAgent {ℓ} (S : Type ℓ) : Type (ℓ + 1) where
  pub Delta : Type ℓ
  pub compute_delta : S → S → Delta
  pub apply_delta : S → Delta → S

module _ {ℓ} {S : Type ℓ} (agent : AntiEntropyAgent S) where
  unfoldable pub new : S → AntiEntropy S
  new state = record { state = state; version_vector = VersionVector.new }

  unfoldable pub sync : AntiEntropy S → AntiEntropy S → AntiEntropy S
  sync self other = if dominates self.version_vector other.version_vector then self else record {
    state = agent.apply_delta self.state (agent.compute_delta self.state other.state);
    version_vector = VersionVector.merge self.version_vector other.version_vector;
  }

  sync_old :
      (self other : AntiEntropy S)
      → dominates self.version_vector other.version_vector ≡ true
      → sync self other ≡ self
  unfolding sync
  sync_old self other old = rw old

  sync_new :
      (self other : AntiEntropy S)
      → dominates self.version_vector other.version_vector ≡ false
      → (sync self other).version_vector
        ≡ VersionVector.merge self.version_vector other.version_vector
  unfolding sync
  sync_new self other new = rw new

  sync_covers :
      (self other : AntiEntropy S)
      → IsSorted self.version_vector.clocks
      → IsSorted other.version_vector.clocks
      → (dominates (sync self other).version_vector self.version_vector ≡ true)
        × (dominates (sync self other).version_vector other.version_vector ≡ true)
  sync_covers self other s t =
      elim (Bool-cases (dominates self.version_vector other.version_vector)) [
        | inl old ↦ rw (sync_old self other old) (dominates_self self.version_vector s, old)
        | inr new ↦
            rw (sync_new self other new) (merge_upper self.version_vector other.version_vector s t)
      ]

  -- Whatever the agent, for two replicas with ascending version vectors: after a synchronisation
  -- the vector dominates both earlier ones, and a second synchronisation with the same replica
  -- changes nothing.
  pub sync_settles :
      (self other : AntiEntropy S)
      → IsSorted self.version_vector.clocks
      → IsSorted other.version_vector.clocks
      → (dominates (sync self other).version_vector self.version_vector ≡ true)
        × (dominates (sync self other).version_vector other.version_vector ≡ true)
        × (sync (sync self other) other ≡ sync self other)
  sync_settles self other s t =
      let (mine, theirs) = sync_covers self other s t in
      (mine, theirs, sync_old (sync self other) other theirs)
