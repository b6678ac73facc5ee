-- ===== src/Crdt/VersionVector.antt =====
-- crates/storage/src/crdt.rs: VersionVector. The merge of clocks by maximum is GCounter's too.
pub mod Laws
use lite_vision.Prelude.{
  ℕ, max, Bool, true, false, ◌&&◌, Option, List, [], ◌∷◌, ltb, not, add_u64, get_or, if◌then◌else◌,
}
use lite_vision.Ord.{nat_ord}
use lite_vision.OrdMap.{Map, lookup, update, merge_by}

-- `let e = entry(k).or_insert(0); *e = (*e).max(c)`, on the value that is there
abbrev pub max_clock : Option ℕ → ℕ → ℕ
max_clock old c = max (get_or old 0) c

pub record VersionVector : Type 0 where
  pub clocks : Map ℕ ℕ

abbrev pub new : VersionVector
new = record { clocks = [] }

unfoldable pub increment : ℕ → VersionVector → VersionVector
increment replica_id v = record v { clocks = update replica_id 0 (λ c. add_u64 c 1) v.clocks }

unfoldable pub get : ℕ → VersionVector → ℕ
get replica_id v = get_or (lookup replica_id v.clocks) 0

unfoldable pub merge : VersionVector → VersionVector → VersionVector
merge self other = record self { clocks = merge_by max_clock self.clocks other.clocks }

-- the loop of `dominates`
unfoldable pub dominates_all : VersionVector → Map ℕ ℕ → Bool
dominates_all self [] = true
dominates_all self ((replica_id, clock) ∷ rest) =
    if ltb (get replica_id self) clock then false else dominates_all self rest

unfoldable pub dominates : VersionVector → VersionVector → Bool
dominates self other = dominates_all self other.clocks
