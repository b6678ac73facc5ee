-- ===== src/Consensus.antt =====
-- crates/truth/src/consensus.rs: the BFT round of a node. `Arc<RwLock<Consensus>>` is a state that a
-- call takes and returns: each method holds the lock while it works, but receive_prevote and
-- receive_precommit, which first check the vote against the states of two earlier reads. The hash
-- blake3 and the clock are parameters. `Vote::hash`, `QuorumCertificate::hash` (bincode), and
-- propose_block and finalize_block, which build on the ledger's state, are left out.
pub mod Engine
pub mod Votes
pub mod Views
pub mod Certificates
pub mod Proposer
pub mod Races
mod Tests
use Prim.Native.String.{String}
use lite_vision.Prelude.{
  ℕ, ◌+◌, ◌*◌, ◌/◌, Bool, true, false, Option, none, some, List, [], ◌∷◌, ◌++◌, length, leb, ◌==◌,
  if◌then◌else◌,
}
use lite_vision.OrdMap.{Map}

pub data ConsensusState : Type 0 where
  idle proposing pre_voting pre_committing finalized : ConsensusState

pub data VoteType : Type 0 where
  pre_vote pre_commit : VoteType

pub record Vote : Type 0 where
  pub validator_id : ℕ
  pub height : ℕ
  pub round : ℕ  -- u32
  pub vote_type : VoteType
  pub block_hash : ℕ
  pub signature : List ℕ

abbrev pub is_pre_vote : VoteType → Bool
is_pre_vote pre_vote = true
is_pre_vote pre_commit = false

abbrev pub is_pre_commit : VoteType → Bool
is_pre_commit pre_vote = false
is_pre_commit pre_commit = true

-- `==` of vote types
abbrev pub same_type : VoteType → VoteType → Bool
same_type pre_vote t = is_pre_vote t
same_type pre_commit t = is_pre_commit t

unfoldable pub vote_new : ℕ → ℕ → ℕ → VoteType → ℕ → List ℕ → Vote
vote_new validator_id height round vote_type block_hash signature = record {
  validator_id = validator_id;
  height = height;
  round = round;
  vote_type = vote_type;
  block_hash = block_hash;
  signature = signature;
}

pub record QuorumCertificate : Type 0 where
  pub block_hash : ℕ
  pub height : ℕ
  pub round : ℕ
  pub vote_type : VoteType
  pub signatures : List (ℕ × List ℕ)
  pub validator_set_hash : ℕ

unfoldable pub qc_new : ℕ → ℕ → ℕ → VoteType → ℕ → QuorumCertificate
qc_new block_hash height round vote_type validator_set_hash = record {
  block_hash = block_hash;
  height = height;
  round = round;
  vote_type = vote_type;
  signatures = [];
  validator_set_hash = validator_set_hash;
}

unfoldable pub add_signature : ℕ → List ℕ → QuorumCertificate → QuorumCertificate
add_signature validator_id signature self = record self {
  signatures = self.signatures ++ (validator_id, signature) ∷ [];
}

unfoldable pub weight : QuorumCertificate → ℕ
weight self = length self.signatures

-- lengths do not reach the range of an usize, so the arithmetic does not wrap
unfoldable pub is_quorum : ℕ → ℕ → QuorumCertificate → Bool
is_quorum total_validators threshold self =
    let quorum_threshold = total_validators * 2 / 3 + 1 in
    let required = if threshold == 0 then quorum_threshold else threshold in
    leb required (length self.signatures)

pub record Consensus : Type 0 where
  pub height : ℕ
  pub round : ℕ
  pub state : ConsensusState
  pub proposer : ℕ
  pub locked_block : Option ℕ
  pub locked_qc : Option QuorumCertificate
  pub prevote_qc : Option QuorumCertificate
  pub precommit_qc : Option QuorumCertificate
  pub votes : Map ℕ Vote
  pub last_commit_timestamp : ℕ

unfoldable pub consensus_default : Consensus
consensus_default = record {
  height = 0;
  round = 0;
  state = idle;
  proposer = 0;
  locked_block = none;
  locked_qc = none;
  prevote_qc = none;
  precommit_qc = none;
  votes = [];
  last_commit_timestamp = 0;
}
