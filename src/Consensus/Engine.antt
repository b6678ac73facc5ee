-- ===== src/Consensus/Engine.antt =====
-- crates/truth/src/consensus.rs: the methods of ConsensusEngine.
use Prim.Native.String.{String}
use lite_vision.Prelude.{
  ℕ, zero, suc, ◌+◌, ◌*◌, ◌/◌, ◌%◌, Bool, true, false, not, ◌&&◌, ◌||◌, Option, none, some, List,
  [], ◌∷◌, ◌++◌, map, length, leb, ◌==◌, add_u64, add_u32, if◌then◌else◌, Result, ok, err, bytes32,
}
use lite_vision.Ord.{nat_ord}
use lite_vision.OrdMap.{Map, insert}
use lite_vision.Validator.{Validator, active_or_inactive}
use lite_vision.Consensus.{
  Consensus, ConsensusState, idle, proposing, pre_voting, pre_committing, finalized, Vote, VoteType,
  pre_vote, pre_commit, is_pre_vote, is_pre_commit, same_type, QuorumCertificate, vote_new, qc_new,
  add_signature, consensus_default,
}

pub record ConsensusEngine : Type 0 where
  pub validators : List Validator
  pub threshold : ℕ
  pub view_timeout_ms : ℕ

-- `validators.iter().filter(|v| v.active_or_inactive())`
unfoldable pub active_of : List Validator → List Validator
active_of [] = []
active_of (v ∷ vs) = let rest = active_of vs in if active_or_inactive v then v ∷ rest else rest

-- the engine beside the state that it starts with
unfoldable pub new : List Validator → ℕ → ConsensusEngine × Consensus
new validators view_timeout_ms = (
  record {
    validators = validators;
    threshold = length (active_of validators) * 2 / 3 + 1;
    view_timeout_ms = view_timeout_ms;
  },
  consensus_default,
)

-- `active[idx].id`; the index is in range, and 0 is never returned for want of an entry
unfoldable pub id_at : ℕ → List Validator → ℕ
id_at i [] = 0
id_at zero (v ∷ vs) = v.id
id_at (suc i) (v ∷ vs) = id_at i vs

unfoldable pub proposer_among : List Validator → ℕ → ℕ → ℕ
proposer_among [] height round = 0
proposer_among (v ∷ vs) height round = id_at (add_u64 height round % length (v ∷ vs)) (v ∷ vs)

-- a usize of 64 bits
unfoldable pub get_proposer : ConsensusEngine → ℕ → ℕ → ℕ
get_proposer self height round = proposer_among (active_of self.validators) height round

unfoldable pub is_leader : ConsensusEngine → ℕ → ℕ → ℕ → Bool
is_leader self validator_id height round = get_proposer self height round == validator_id

unfoldable pub start_new_view : ConsensusEngine → ℕ → ℕ → Consensus → Consensus
start_new_view self height round state = record state {
  height = height;
  round = round;
  state = proposing;
  votes = [];
  proposer = get_proposer self height round;
}

abbrev pub is_proposing : ConsensusState → Bool
is_proposing proposing = true
is_proposing _ = false

abbrev pub is_finalized : ConsensusState → Bool
is_finalized finalized = true
is_finalized _ = false

abbrev pub is_idle : ConsensusState → Bool
is_idle idle = true
is_idle _ = false

-- `if let Some(parent_qc) = qc { ... }`
unfoldable pub lock_parent : Option QuorumCertificate → Consensus → Consensus
lock_parent none state = state
lock_parent (some parent_qc) state = record state {
  locked_block = some parent_qc.block_hash;
  locked_qc = some parent_qc;
}

-- `if state.proposer != proposer { state.proposer = proposer; }`
unfoldable pub set_proposer : ℕ → Consensus → Consensus
set_proposer proposer state =
    if not (state.proposer == proposer) then record state { proposer = proposer } else state

-- the block is returned as it came, so it is left out
unfoldable pub propose :
    ConsensusEngine → Option QuorumCertificate → Consensus → Consensus × Result String (Unit {0})
propose self qc state =
    if not (is_proposing state.state) then (state, err "Invalid state for proposal") else (
      record (lock_parent qc (set_proposer (get_proposer self state.height state.round) state)) {
        state = pre_voting;
      },
      ok tt,
    )

unfoldable pub vote : ℕ → ℕ → VoteType → List ℕ → Consensus → Vote
vote validator_id block_hash vote_type signature state =
    vote_new validator_id state.height state.round vote_type block_hash signature

-- `votes.values().filter(|v| v.vote_type == t).count()`
unfoldable pub count_type : VoteType → Map ℕ Vote → ℕ
count_type t [] = 0
count_type t ((_, v) ∷ votes) =
    let rest = count_type t votes in if same_type t v.vote_type then suc rest else rest

-- the loop that collects the signatures
unfoldable pub collect : VoteType → ℕ → Map ℕ Vote → QuorumCertificate → QuorumCertificate
collect t hash [] qc = qc
collect t hash ((id, v) ∷ votes) qc = collect t hash votes (
    if same_type t v.vote_type && v.block_hash == hash then add_signature id v.signature qc else qc)

abbrev pub Outcome : Type 0
Outcome = Consensus × Result String (Option QuorumCertificate)

-- `locked_block != Some(hash)` or none
abbrev pub not_locked_on : ℕ → Option ℕ → Bool
not_locked_on hash none = true
not_locked_on hash (some b) = not (b == hash)

-- the bytes of the sorted ids, one after the other
unfoldable pub bytes_of : List ℕ → List ℕ
bytes_of [] = []
bytes_of (id ∷ ids) = bytes32 id ++ bytes_of ids

unfoldable pub insert_sorted : ℕ → List ℕ → List ℕ
insert_sorted id [] = id ∷ []
insert_sorted id (j ∷ js) =
    let rest = insert_sorted id js in if leb id j then id ∷ j ∷ js else j ∷ rest

-- `sort` of the ids
unfoldable pub sort : List ℕ → List ℕ
sort [] = []
sort (id ∷ ids) = insert_sorted id (sort ids)

module _ (blake3 : List ℕ → ℕ) where
  unfoldable pub get_validator_set_hash : ConsensusEngine → ℕ
  get_validator_set_hash self = blake3 (bytes_of (sort (map (λ v. v.id) self.validators)))

  -- the part under the write lock
  unfoldable pub store_prevote : ConsensusEngine → Vote → Consensus → Outcome
  store_prevote self v state =
      let votes = insert v.validator_id v state.votes in
      let qc =
        collect pre_vote v.block_hash votes
          (qc_new v.block_hash state.height state.round pre_vote (get_validator_set_hash self)) in
      if leb self.threshold (count_type pre_vote votes)
      then (
        record state {
          votes = votes;
          state = pre_committing;
          prevote_qc = some qc;
          locked_block =
              if not_locked_on v.block_hash state.locked_block
              then some v.block_hash
              else state.locked_block;
          locked_qc =
              if not_locked_on v.block_hash state.locked_block then some qc else state.locked_qc;
        },
        ok (some qc),
      )
      else (record state { votes = votes }, ok none)

  -- `at_height` and `at_round` are the states of the two reads before
  unfoldable pub receive_prevote_at :
      ConsensusEngine → Vote → Consensus → Consensus → Consensus → Outcome
  receive_prevote_at self v at_height at_round state =
      if not (v.height == at_height.height)
      then (state, err "Vote height mismatch")
      else if not (v.round == at_round.round)
      then (state, err "Vote round mismatch")
      else if not (is_pre_vote v.vote_type)
      then (state, err "Invalid vote type for PreVote phase")
      else store_prevote self v state

  -- no other task between the reads and the write
  unfoldable pub receive_prevote : ConsensusEngine → Vote → Consensus → Outcome
  receive_prevote self v state = receive_prevote_at self v state state state

  -- `now` is the system time in seconds
  unfoldable pub store_precommit : ConsensusEngine → ℕ → Vote → Consensus → Outcome
  store_precommit self now v state =
      let votes = insert v.validator_id v state.votes in
      let qc =
        collect pre_commit v.block_hash votes
          (qc_new v.block_hash state.height state.round pre_commit (get_validator_set_hash self)) in
      if leb self.threshold (count_type pre_commit votes)
      then (
        record state {
          votes = votes;
          state = finalized;
          precommit_qc = some qc;
          last_commit_timestamp = now;
        },
        ok (some qc),
      )
      else (record state { votes = votes }, ok none)

  unfoldable pub receive_precommit_at :
      ConsensusEngine → ℕ → Vote → Consensus → Consensus → Consensus → Outcome
  receive_precommit_at self now v at_height at_round state =
      if not (v.height == at_height.height)
      then (state, err "Vote height mismatch")
      else if not (v.round == at_round.round)
      then (state, err "Vote round mismatch")
      else if not (is_pre_commit v.vote_type)
      then (state, err "Invalid vote type for PreCommit phase")
      else store_precommit self now v state

  unfoldable pub receive_precommit : ConsensusEngine → ℕ → Vote → Consensus → Outcome
  receive_precommit self now v state = receive_precommit_at self now v state state state

  unfoldable pub receive_vote : ConsensusEngine → ℕ → Vote → Consensus → Outcome
  receive_vote self now v state = elim v.vote_type [
    | pre_vote ↦ receive_prevote self v state
    | pre_commit ↦ receive_precommit self now v state
  ]

unfoldable pub commit : QuorumCertificate → Consensus → Consensus × Result String (Unit {0})
commit qc state =
    if not (is_finalized state.state)
    then (state, err "Cannot commit: not in Finalized state")
    else (record state { precommit_qc = some qc; state = idle }, ok tt)

unfoldable pub advance_to_next_view : ConsensusEngine → Consensus → Consensus
advance_to_next_view self state =
    let round = add_u32 state.round 1 in
    record state {
      round = round;
      state = proposing;
      votes = [];
      proposer = get_proposer self state.height round;
    }

unfoldable pub advance_to_next_height : Consensus → Consensus
advance_to_next_height state = record state {
  height = add_u64 state.height 1;
  round = 0;
  state = idle;
  votes = [];
  locked_block = none;
  locked_qc = none;
  prevote_qc = none;
  precommit_qc = none;
}

unfoldable pub has_quorum : ConsensusEngine → VoteType → Consensus → Bool
has_quorum self t state = leb self.threshold (count_type t state.votes)

unfoldable pub can_produce : Consensus → Bool
can_produce state = is_idle state.state || is_proposing state.state
