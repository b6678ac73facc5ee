-- ===== src/Governance.antt =====
-- crates/truth/src/governance.rs: proposals and votes. `none` stands for a panic; texts of errors are
-- the constructors of VoteError.
pub mod Tally
mod Tests
use Prim.Native.String.{String}
use lite_vision.Prelude.{
  ℕ, ◌*◌, ◌/◌, Bool, true, false, not, ◌&&◌, Option, none, some, List, [], ◌∷◌, ◌++◌, leb,
  if◌then◌else◌, add_u64, mul_u64, Result, ok, err,
}
use lite_vision.Ord.{nat_ord}
use lite_vision.OrdMap.{Map, lookup, insert}

pub data ProposalType : Type 0 where
  parameter_change : (key value : String) → ProposalType
  software_upgrade : (version : String) → ProposalType
  slash_validator : (validator_id : ℕ) (reason : String) → ProposalType
  partition_create : (partition_id : ℕ) → ProposalType
  partition_delete : (partition_id : ℕ) → ProposalType

pub data ProposalStatus : Type 0 where
  voting passed rejected executed canceled : ProposalStatus

pub record Proposal : Type 0 where
  pub id : ℕ
  pub proposal_type : ProposalType
  pub title : String
  pub description : String
  pub proposer : ℕ
  pub vote_start : ℕ
  pub vote_end : ℕ
  pub status : ProposalStatus
  pub execution_result : Option String

pub data VoteOption : Type 0 where
  yes_vote no_vote abstain : VoteOption

pub record Vote : Type 0 where
  pub voter : ℕ
  pub proposal_id : ℕ
  pub vote_option : VoteOption
  pub stake_weight : ℕ

pub record GovernanceParams : Type 0 where
  pub voting_period : ℕ
  pub quorum : ℕ
  pub threshold : ℕ
  pub max_proposals : ℕ

pub record Governance : Type 0 where
  pub proposals : Map ℕ Proposal
  pub votes : Map ℕ (List Vote)
  pub params : GovernanceParams
  pub next_proposal_id : ℕ

unfoldable pub new : Governance
new = record {
  proposals = [];
  votes = [];
  params = record {
    voting_period = 86400;
    quorum = 500000000;
    threshold = 667000000;
    max_proposals = 100;
  };
  next_proposal_id = 1;
}

unfoldable pub create_proposal :
    ProposalType → String → String → ℕ → ℕ → Governance → Governance × ℕ
create_proposal proposal_type title description proposer current_time self =
    let id = self.next_proposal_id in
    let proposal : Proposal = record {
      id = id;
      proposal_type = proposal_type;
      title = title;
      description = description;
      proposer = proposer;
      vote_start = current_time;
      vote_end = add_u64 current_time self.params.voting_period;
      status = voting;
      execution_result = none;
    } in
    (
      record self {
        proposals = insert id proposal self.proposals;
        votes = insert id [] self.votes;
        next_proposal_id = add_u64 id 1;
      },
      id,
    )

pub data VoteError : Type 0 where
  proposal_not_found not_in_voting_period : VoteError

abbrev pub is_voting : ProposalStatus → Bool
is_voting voting = true
is_voting _ = false

unfoldable pub cast_vote :
    ℕ → ℕ → VoteOption → ℕ → Governance → Option (Governance × Result VoteError (Unit {0}))
cast_vote proposal_id voter vote_option stake_weight self =
    let vote : Vote = record {
      voter = voter;
      proposal_id = proposal_id;
      vote_option = vote_option;
      stake_weight = stake_weight;
    } in
    elim (lookup proposal_id self.proposals) [
      | none ↦ some (self, err proposal_not_found)
      | some proposal ↦
          if not (is_voting proposal.status)
          then some (self, err not_in_voting_period)
          else elim (lookup proposal_id self.votes) [
            | none ↦ none
            | some votes ↦
                some (
                  record self { votes = insert proposal_id (votes ++ vote ∷ []) self.votes },
                  ok tt,
                )
          ]
    ]

pub record Counts : Type 0 where
  pub yes_weight : ℕ
  pub no_weight : ℕ
  pub abstained : ℕ

-- one round of the loop of tally
abbrev pub counted : Vote → Counts → Counts
counted v c = elim v.vote_option [
  | yes_vote ↦ record c { yes_weight = add_u64 c.yes_weight v.stake_weight }
  | no_vote ↦ record c { no_weight = add_u64 c.no_weight v.stake_weight }
  | abstain ↦ record c { abstained = add_u64 c.abstained v.stake_weight }
]

unfoldable pub count_votes : List Vote → Counts → Counts
count_votes [] c = c
count_votes (v ∷ vs) c = count_votes vs (counted v c)

-- the status that tally answers
unfoldable pub outcome : Counts → GovernanceParams → ProposalStatus
outcome c params =
    let total = add_u64 (add_u64 c.yes_weight c.no_weight) c.abstained in
    if leb params.quorum total && leb (mul_u64 total params.threshold / 1000000000) c.yes_weight
    then passed
    else if leb params.quorum total
    then rejected
    else voting

unfoldable pub tally : ℕ → Governance → Option (Counts × ProposalStatus)
tally proposal_id self = elim (lookup proposal_id self.votes) [
  | none ↦ none
  | some votes ↦
      let counts = count_votes votes (record { yes_weight = 0; no_weight = 0; abstained = 0 }) in
      some (counts, outcome counts self.params)
]
