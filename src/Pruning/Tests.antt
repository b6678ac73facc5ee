-- ===== src/Pruning/Tests.antt =====
-- Runs of crates/truth/src/pruning.rs.
use lite_vision.Prelude.{ℕ, ◌≡◌, none, List, [], ◌∷◌, if◌then◌else◌}
use lite_vision.Pruning.{
  PruningConfig, BlockArchive, default_config, with_retention, new, prune, get_blocks_to_prune,
  get_archive,
}
use lite_vision.Pruning.Exact.{Call, archives, prunes, run, is_old, prune-is_old}

abbrev block : ℕ → BlockArchive
block height = record {
  height = height;
  hash = height;
  state_root = 0;
  block_size_bytes = 10;
  tx_count = 1;
}

abbrev config : PruningConfig
config = with_retention 50 default_config

abbrev history : List Call
history = archives (block 120) ∷ (archives (block 180) ∷ (prunes (7 ∷ []) ∷ []))

prune-is_old_example :
    get_archive 120
      (prune (get_blocks_to_prune 200 (run history (new config))) (run history (new config))).0
    ≡ (if is_old 200 120 (run history (new config))
        then none
        else get_archive 120 (run history (new config)))
prune-is_old_example = prune-is_old history config 200 120
