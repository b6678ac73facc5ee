-- ===== src/Governance/Tests.antt =====
-- Runs of crates/truth/src/governance.rs.
use lite_vision.Prelude.{◌+◌, ◌/◌, ◌<◌, ◌*◌, ◌≡◌, refl, none, some, [], ok, arith}
use lite_vision.Ord.{nat_ord, eqb}
use lite_vision.OrdMap.{lookup, insert}
use lite_vision.Governance.{
  Governance, Proposal, ProposalStatus, voting, passed, software_upgrade, yes_vote, no_vote, Counts,
  new, create_proposal, cast_vote, count_votes, tally,
}
use lite_vision.Governance.Tally.{none_counted, voted_twice, nobody_passes}

abbrev opened : Governance
opened = (create_proposal (software_upgrade "v2") "upgrade" "" 3 100 new).0

abbrev proposal : Proposal
proposal = record {
  id = 1;
  proposal_type = software_upgrade "v2";
  title = "upgrade";
  description = "";
  proposer = 3;
  vote_start = 100;
  vote_end = 86500;
  status = voting;
  execution_result = none;
}

proposal_found : lookup 1 opened.proposals ≡ some proposal
unfolding lookup create_proposal new insert eqb
proposal_found = refl

no_votes_yet : lookup 1 opened.votes ≡ some []
unfolding lookup create_proposal new insert eqb
no_votes_yet = refl

voted_twice_example :
    (f : Governance) × (h : Governance) × (d : Counts) × (t : ProposalStatus) × (cast_vote 1 8
        yes_vote 70 opened
      ≡ some (f, ok tt))
    × (cast_vote 1 8 yes_vote 70 f ≡ some (h, ok tt))
    × (tally 1 h ≡ some (d, t))
    × (d.yes_weight ≡ (count_votes [] none_counted).yes_weight + 2 * 70)
unfolding count_votes
voted_twice_example =
    voted_twice 1 8 70 opened proposal [] proposal_found refl no_votes_yet (omega arith)

-- a little more than 2 ^ 64 / 667000000 against, nothing for it
nobody_passes_example :
    (h : Governance) × (d : Counts) × (cast_vote
        (create_proposal (software_upgrade "v2") "upgrade" "" 3 100 new).1
        8
        no_vote
        27656287967
        (create_proposal (software_upgrade "v2") "upgrade" "" 3 100 new).0
      ≡ some (h, ok tt))
    × (tally (create_proposal (software_upgrade "v2") "upgrade" "" 3 100 new).1 h
        ≡ some (d, passed))
    × (d.yes_weight ≡ 0)
    × (d.no_weight ≡ 27656287967)
    × (0 < 27656287967 * new.params.threshold / 1000000000)
unfolding new
nobody_passes_example =
    nobody_passes (software_upgrade "v2") "upgrade" "" 3 100 8 27656287967 new (omega arith)
      (omega arith) (omega arith) (omega arith)
