-- ===== src/Sync/Tests.antt =====
-- Runs of crates/truth/src/sync.rs.
use lite_vision.Prelude.{ℕ, ◌≡◌, ◌≤◌, ◌+◌, true, refl, List, [], ◌∷◌, if◌then◌else◌}
use lite_vision.Pruning.Exact.{count}
use lite_vision.Sync.{
  SyncHeader, StateSync, new, process_headers, get_missing_heights, is_synced, has_header,
  headers_loop, filter_missing, max_height,
}
use lite_vision.Sync.Heights.{IsAscending, is_within, process_headers_fills}

abbrev header : ℕ → SyncHeader
header height = record {
  height = height;
  hash = height;
  parent_hash = 0;
  timestamp = 100;
  validator_set_hash = 2;
}

-- 3 is sent twice
abbrev sent : List SyncHeader
sent = header 3 ∷ (header 1 ∷ (header 3 ∷ []))

abbrev synced : StateSync
synced = (process_headers sent new).0

answered : (process_headers sent new).1 ≡ 1 ∷ (3 ∷ [])
unfolding process_headers headers_loop has_header new
answered = refl

missing : get_missing_heights 1 4 synced ≡ 2 ∷ (4 ∷ [])
unfolding get_missing_heights filter_missing process_headers headers_loop has_header new
missing = refl

-- a gap below the highest header does not matter to is_synced
gap_is_synced : is_synced 3 synced ≡ true
unfolding is_synced max_height process_headers headers_loop has_header new
gap_is_synced = refl

process_headers_fills_example :
    IsAscending (process_headers sent new).1
    × (count 3 (process_headers sent new).1 ≤ 1)
    × (count 3 (get_missing_heights 1 4 new)
        ≡ count 3 (get_missing_heights 1 4 synced)
          + (if is_within 1 4 3 then count 3 (process_headers sent new).1 else 0))
process_headers_fills_example = process_headers_fills sent new 1 4 3
