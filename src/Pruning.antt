-- ===== src/Pruning.antt =====
-- crates/truth/src/pruning.rs: StatePruner. A VecDeque is a list, the front first.
pub mod Exact
mod Tests
use lite_vision.Prelude.{
  ℕ, ◌+◌, ◌-◌, ◌==◌, Bool, true, false, not, ◌||◌, Option, none, some, List, [], ◌∷◌, ◌++◌, length,
  ltb, if◌then◌else◌, add_u64,
}
use lite_vision.Ord.{nat_ord}
use lite_vision.OrdMap.{Map, lookup, insert, remove, values, is_some}

pub record PruningConfig : Type 0 where
  pub enabled : Bool
  pub retention_blocks : ℕ
  pub min_height_to_prune : ℕ
  pub batch_size : ℕ

unfoldable pub default_config : PruningConfig
default_config = record {
  enabled = true;
  retention_blocks = 10000;
  min_height_to_prune = 100;
  batch_size = 1000;
}

unfoldable pub with_retention : ℕ → PruningConfig → PruningConfig
with_retention blocks self = record self { retention_blocks = blocks }

unfoldable pub disabled : PruningConfig → PruningConfig
disabled self = record self { enabled = false }

pub record BlockArchive : Type 0 where
  pub height : ℕ
  pub hash : ℕ
  pub state_root : ℕ
  pub block_size_bytes : ℕ
  pub tx_count : ℕ

pub record ArchiveStats : Type 0 where
  pub total_blocks : ℕ
  pub total_size_bytes : ℕ
  pub earliest_height : ℕ
  pub latest_height : ℕ

pub record StatePruner : Type 0 where
  pub config : PruningConfig
  pub blocks : Map ℕ BlockArchive
  pub heights : List ℕ

unfoldable pub new : PruningConfig → StatePruner
new config = record { config = config; blocks = []; heights = [] }

-- VecDeque::contains
abbrev pub contains : ℕ → List ℕ → Bool
contains height [] = false
contains height (h ∷ hs) = (h == height) || contains height hs

unfoldable pub archive_block : BlockArchive → StatePruner → StatePruner
archive_block archive self = record self {
  blocks = insert archive.height archive self.blocks;
  heights =
      if not (contains archive.height self.heights)
      then self.heights ++ archive.height ∷ []
      else self.heights;
}

unfoldable pub retention_height : ℕ → StatePruner → ℕ
retention_height current_height self = current_height - self.config.retention_blocks

unfoldable pub should_prune : ℕ → StatePruner → Bool
should_prune current_height self =
    if not self.config.enabled
    then false
    else ltb self.config.min_height_to_prune (current_height - self.config.retention_blocks)

-- `.filter(|&&h| h < cutoff)`
unfoldable pub filter_below : ℕ → List ℕ → List ℕ
filter_below cutoff [] = []
filter_below cutoff (h ∷ hs) =
    let rest = filter_below cutoff hs in if ltb h cutoff then h ∷ rest else rest

unfoldable pub get_blocks_to_prune : ℕ → StatePruner → List ℕ
get_blocks_to_prune current_height self =
    if not (should_prune current_height self)
    then []
    else filter_below (current_height - self.config.retention_blocks) self.heights

-- `if let Some(pos) = heights.iter().position(|&h| h == height) { heights.remove(pos); }`
unfoldable pub remove_first : ℕ → List ℕ → List ℕ
remove_first height [] = []
remove_first height (h ∷ hs) =
    let rest = remove_first height hs in if h == height then hs else h ∷ rest

-- the loop of prune, with its count
unfoldable pub prune_loop : List ℕ → StatePruner → ℕ → StatePruner × ℕ
prune_loop [] self count = (self, count)
prune_loop (height ∷ hs) self count =
    let kept = prune_loop hs self count in
    let pruned =
      prune_loop hs
        (record self {
          blocks = remove height self.blocks;
          heights = remove_first height self.heights;
        })
        (count + 1) in
    if is_some (lookup height self.blocks) then pruned else kept

unfoldable pub prune : List ℕ → StatePruner → StatePruner × ℕ
prune hs self = prune_loop hs self 0

unfoldable pub get_archive : ℕ → StatePruner → Option BlockArchive
get_archive height self = lookup height self.blocks

-- `.map(|b| b.block_size_bytes).sum()`
unfoldable pub total_size : List BlockArchive → ℕ
total_size [] = 0
total_size (b ∷ bs) = add_u64 b.block_size_bytes (total_size bs)

abbrev first_or_zero : List ℕ → ℕ
first_or_zero [] = 0
first_or_zero (h ∷ _) = h

abbrev last_or_zero : List ℕ → ℕ
last_or_zero [] = 0
last_or_zero (h ∷ []) = h
last_or_zero (_ ∷ (h ∷ hs)) = last_or_zero (h ∷ hs)

unfoldable pub get_stats : StatePruner → ArchiveStats
get_stats self = record {
  total_blocks = length self.blocks;
  total_size_bytes = total_size (values self.blocks);
  earliest_height = first_or_zero self.heights;
  latest_height = last_or_zero self.heights;
}

-- `.map(|a| a.hash == expected_hash).unwrap_or(false)`
unfoldable pub verify_archive : ℕ → ℕ → StatePruner → Bool
verify_archive height expected_hash self = elim (lookup height self.blocks) [
  | none ↦ false
  | some a ↦ a.hash == expected_hash
]
