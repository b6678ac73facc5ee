-- ===== src/Consensus/Tests.antt =====
-- crates/truth/src/consensus.rs: its unit tests, and the theorems at concrete states.
use lite_vision.Prelude.{ℕ, ◌≡◌, refl, ◌≤◌, some, none, List, [], ◌∷◌, length, arith, ok}
use lite_vision.Ord.{nat_ord}
use lite_vision.Consensus.{
  Vote, VoteType, pre_vote, Consensus, consensus_default, QuorumCertificate, weight,
}
use lite_vision.Consensus.Engine.{
  receive_prevote_at, advance_to_next_height, ConsensusEngine, new, start_new_view, receive_vote,
  receive_prevote, get_proposer, proposer_among, id_at, active_of, propose,
}
use lite_vision.Consensus.Certificates.{IsAnswer, receive_vote-IsAnswer, split_votes_certify}
use lite_vision.Consensus.Views.{IsSound, Reach-IsSound}
use lite_vision.Consensus.Views.Reach.{here, next}
use lite_vision.Consensus.Views.Step.{view, proposal, vote}
use lite_vision.OrdMap.{insert, lookup}
use lite_vision.OrdMap.Sum.{sum_by}
use lite_vision.OrdMap.Sorted.{IsSorted}
use lite_vision.Consensus.Votes.{for_block, of_type}
use lite_vision.Consensus.Races.{stale_vote_stored}
use lite_vision.Validator.{Validator}
use lite_vision.Validator

abbrev four : List Validator
four =
    Validator.new 1 1000 1
    ∷ Validator.new 2 1000 2
    ∷ Validator.new 3 1000 3
    ∷ Validator.new 4 1000 4
    ∷ []

abbrev engine : ConsensusEngine
engine = record { validators = four; threshold = 3; view_timeout_ms = 5000 }

-- test_consensus_engine_initialization
initialization : (new four 5000).0 ≡ engine
unfolding new active_of Validator.active_or_inactive Validator.new
initialization = refl

-- test_leader_selection_round_robin
round_robin :
    (get_proposer engine 0 0 ≡ 1) × (get_proposer engine 0 1 ≡ 2) × (get_proposer engine 0 4 ≡ 1)
unfolding get_proposer proposer_among id_at active_of Validator.active_or_inactive Validator.new
round_robin = (refl, refl, refl)

abbrev hash : List ℕ → ℕ
hash bytes = length bytes

abbrev ballot : ℕ → VoteType → ℕ → Vote
ballot id t block = record {
  validator_id = id;
  height = 0;
  round = 0;
  vote_type = t;
  block_hash = block;
  signature = id ∷ [];
}

-- two prevotes for block 7
abbrev split : Consensus
split = record consensus_default {
  votes = (1, ballot 1 pre_vote 7) ∷ (2, ballot 2 pre_vote 7) ∷ [];
}

split-IsSorted : IsSorted split.votes
unfolding consensus_default
split-IsSorted = ((refl, tt), (tt, tt))

receive_vote-IsAnswer_example :
    IsAnswer 3 pre_vote 7 (receive_vote hash engine 0 (ballot 3 pre_vote 7) split)
receive_vote-IsAnswer_example =
    receive_vote-IsAnswer hash engine 0 (ballot 3 pre_vote 7) split split-IsSorted

split-alone : sum_by (for_block pre_vote 8) split.votes ≡ 0
unfolding sum_by consensus_default
split-alone = refl

split-enough : 3 ≤ sum_by (of_type pre_vote) (insert 3 (ballot 3 pre_vote 8) split.votes)
unfolding sum_by insert consensus_default
split-enough = omega arith

-- test_locked_block_updates with votes for two blocks: the third voter is alone for block 8
split_votes_certify_example :
    (qc : QuorumCertificate) × ((receive_prevote hash engine (ballot 3 pre_vote 8) split).1
      ≡ ok (some qc))
    × (qc.block_hash ≡ 8)
    × (weight qc ≡ 1)
    × ((receive_prevote hash engine (ballot 3 pre_vote 8) split).0.locked_block ≡ some 8)
unfolding consensus_default
split_votes_certify_example =
    split_votes_certify hash engine (ballot 3 pre_vote 8) split split-IsSorted refl refl refl
      split-alone split-enough

abbrev voted : Consensus
voted =
    (receive_vote hash engine 0 (ballot 2 pre_vote 7)
      (propose engine none (start_new_view engine 0 0 consensus_default)).0).0

Reach-IsSound_example : IsSound voted
Reach-IsSound_example = Reach-IsSound hash (
    next (next (next here (view 0 0 consensus_default)) (proposal none _))
      (vote 0 (ballot 2 pre_vote 7) _))

-- a vote for height 0 that is checked before the node moves on to height 1, and stored after
stale_vote_stored_example :
    let t =
      (receive_prevote_at hash engine
        (ballot 1 pre_vote 7)
        consensus_default
        consensus_default
        (advance_to_next_height consensus_default)).0 in
    (lookup 1 t.votes ≡ some (ballot 1 pre_vote 7)) × (¬ IsSound t)
unfolding consensus_default advance_to_next_height
stale_vote_stored_example =
    stale_vote_stored hash engine (ballot 1 pre_vote 7) consensus_default
      (advance_to_next_height consensus_default) refl refl refl (λ e. omega arith)
