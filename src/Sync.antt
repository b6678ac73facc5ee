-- ===== src/Sync.antt =====
-- crates/truth/src/sync.rs: StateSync, with its requests and headers, and LightState. The hash of a
-- block is a parameter.
mod Heights
mod Tests
use lite_vision.Prelude.{
  ℕ, zero, suc, ◌+◌, ◌-◌, ◌==◌, max, Bool, true, false, not, ◌&&◌, ◌||◌, List, [], ◌∷◌, ◌++◌, map,
  leb, if◌then◌else◌, add_u64,
}
use lite_vision.Ord.{nat_ord}
use lite_vision.OrdMap.{Map, insert}
use lite_vision.Block.{BlockHeader, Block}

pub data SyncRequestType : Type 0 where
  headers blocks state all : SyncRequestType

pub record SyncRequest : Type 0 where
  pub start_height : ℕ
  pub end_height : ℕ
  pub peer_id : ℕ
  pub request_type : SyncRequestType

unfoldable pub request_new : ℕ → ℕ → ℕ → SyncRequestType → SyncRequest
request_new start_height end_height peer_id request_type = record {
  start_height = start_height;
  end_height = end_height;
  peer_id = peer_id;
  request_type = request_type;
}

unfoldable pub request_headers : ℕ → ℕ → SyncRequest
request_headers height peer_id = record {
  start_height = height;
  end_height = add_u64 height 100;
  peer_id = peer_id;
  request_type = headers;
}

unfoldable pub request_state : ℕ → ℕ → SyncRequest
request_state height peer_id = record {
  start_height = height;
  end_height = height;
  peer_id = peer_id;
  request_type = state;
}

pub record SyncHeader : Type 0 where
  pub height : ℕ
  pub hash : ℕ
  pub parent_hash : ℕ
  pub timestamp : ℕ
  pub validator_set_hash : ℕ

unfoldable pub header_from_block : (Block → ℕ) → Block → SyncHeader
header_from_block block_hash block = record {
  height = block.header.height;
  hash = block_hash block;
  parent_hash = block.header.parent_hash;
  timestamp = block.header.timestamp;
  validator_set_hash = block.header.validator_set_hash;
}

pub record StateSync : Type 0 where
  pub pending_requests : Map ℕ SyncRequest
  pub received_headers : List SyncHeader
  pub received_blocks : List Block

unfoldable pub new : StateSync
new = record { pending_requests = []; received_headers = []; received_blocks = [] }

unfoldable pub request_sync : ℕ → ℕ → StateSync → StateSync × SyncRequest
request_sync height peer_id self =
    let request = request_headers height peer_id in
    (record self { pending_requests = insert height request self.pending_requests }, request)

-- Vec::sort
abbrev insert_sorted : ℕ → List ℕ → List ℕ
insert_sorted x [] = x ∷ []
insert_sorted x (y ∷ ys) =
    let rest = insert_sorted x ys in if leb x y then x ∷ (y ∷ ys) else y ∷ rest

abbrev pub sort : List ℕ → List ℕ
sort [] = []
sort (x ∷ xs) = insert_sorted x (sort xs)

-- `.any(|h| h.height == height)`
unfoldable pub has_header : ℕ → List SyncHeader → Bool
has_header height [] = false
has_header height (h ∷ hs) = (h.height == height) || has_header height hs

-- the loop of process_headers: the received headers and the heights
unfoldable pub headers_loop : List SyncHeader → List SyncHeader → List ℕ → List SyncHeader × List ℕ
headers_loop [] received heights = (received, heights)
headers_loop (h ∷ hs) received heights =
    let kept = headers_loop hs received heights in
    let pushed = headers_loop hs (received ++ h ∷ []) (heights ++ h.height ∷ []) in
    if not (has_header h.height received) then pushed else kept

unfoldable pub process_headers : List SyncHeader → StateSync → StateSync × List ℕ
process_headers hs self =
    let out = headers_loop hs self.received_headers [] in
    (record self { received_headers = out.0 }, sort out.1)

unfoldable pub has_block : ℕ → List Block → Bool
has_block height [] = false
has_block height (b ∷ bs) = (b.header.height == height) || has_block height bs

unfoldable pub blocks_loop : List Block → List Block → List ℕ → List Block × List ℕ
blocks_loop [] received heights = (received, heights)
blocks_loop (b ∷ bs) received heights =
    let kept = blocks_loop bs received heights in
    let pushed = blocks_loop bs (received ++ b ∷ []) (heights ++ b.header.height ∷ []) in
    if not (has_block b.header.height received) then pushed else kept

unfoldable pub process_blocks : List Block → StateSync → StateSync × List ℕ
process_blocks bs self =
    let out = blocks_loop bs self.received_blocks [] in
    (record self { received_blocks = out.0 }, sort out.1)

-- the heights of a range that starts at the first number, of the length of the second, but for
-- those that have been received
unfoldable pub filter_missing : List SyncHeader → ℕ → ℕ → List ℕ
filter_missing received height zero = []
filter_missing received height (suc n) =
    let rest = filter_missing received (height + 1) n in
    if not (has_header height received) then height ∷ rest else rest

unfoldable pub get_missing_heights : ℕ → ℕ → StateSync → List ℕ
get_missing_heights from_height to_height self =
    filter_missing self.received_headers from_height (to_height + 1 - from_height)

-- `.map(|h| h.height).max().unwrap_or(0)`
unfoldable pub max_height : List SyncHeader → ℕ
max_height [] = 0
max_height (h ∷ hs) = max h.height (max_height hs)

unfoldable pub is_synced : ℕ → StateSync → Bool
is_synced target_height self = leb target_height (max_height self.received_headers)

unfoldable pub clear : StateSync → StateSync
clear self = record { pending_requests = []; received_headers = []; received_blocks = [] }

pub record LightState : Type 0 where
  pub height : ℕ
  pub hash : ℕ
  pub state_root : ℕ
  pub validator_set_hash : ℕ
  pub app_hash : ℕ

unfoldable pub light_new : (Block → ℕ) → ℕ → Block → ℕ → LightState
light_new block_hash height block app_hash = record {
  height = height;
  hash = block_hash block;
  state_root = block.header.state_root;
  validator_set_hash = block.header.validator_set_hash;
  app_hash = app_hash;
}

unfoldable pub light_verify : LightState → LightState → Bool
light_verify other self =
    (self.height == other.height)
    && ((self.hash == other.hash) && (self.state_root == other.state_root))
