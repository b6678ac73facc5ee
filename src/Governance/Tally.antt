-- ===== src/Governance/Tally.antt =====
-- crates/truth/src/governance.rs: what is counted, and what passes.
use Prim.Native.String.{String}
use lite_vision.Prelude.{
  ℕ, ◌+◌, ◌*◌, ◌/◌, ◌%◌, ◌≤◌, ◌<◌, ◌≡◌, refl, ap, ◌∙◌, true, some, List, [], ◌∷◌, ◌++◌, leb,
  add_u64, mul_u64, u64_mod, arith, ok,
}
use lite_vision.Ord.{nat_ord}
use lite_vision.OrdMap.{lookup, insert}
use lite_vision.OrdMap.Lookup.{lookup-insert_self}
use lite_vision.Governance.{
  Governance, GovernanceParams, Proposal, ProposalStatus, yes_vote, no_vote, VoteOption,
  ProposalType, create_proposal, passed, is_voting, Vote, Counts, counted, count_votes, outcome,
  tally, cast_vote,
}

count_votes-append :
    (vs : List Vote) (v : Vote) (c : Counts)
    → count_votes (vs ++ v ∷ []) c ≡ counted v (count_votes vs c)
unfolding count_votes
count_votes-append [] v c = refl
count_votes-append (w ∷ vs) v c = count_votes-append vs v (counted w c)

abbrev ballot : ℕ → ℕ → VoteOption → ℕ → Vote
ballot id voter option weight = record {
  voter = voter;
  proposal_id = id;
  vote_option = option;
  stake_weight = weight;
}

accepted :
    (id voter : ℕ) (option : VoteOption) (weight : ℕ) (g : Governance) (p : Proposal)
    (vs : List Vote)
    → lookup id g.proposals ≡ some p
    → is_voting p.status ≡ true
    → lookup id g.votes ≡ some vs
    → cast_vote id voter option weight g
      ≡ some
          (record g { votes = insert id (vs ++ ballot id voter option weight ∷ []) g.votes }, ok tt)
unfolding cast_vote
accepted id voter option weight g p vs found up listed = rw (cast_vote, found, up, listed) refl

abbrev pub none_counted : Counts
none_counted = record { yes_weight = 0; no_weight = 0; abstained = 0 }

counted_twice :
    (vs : List Vote) (v w : Vote)
    → count_votes ((vs ++ v ∷ []) ++ w ∷ []) none_counted
      ≡ counted w (counted v (count_votes vs none_counted))
counted_twice vs v w =
    count_votes-append (vs ++ v ∷ []) w none_counted
    ∙ ap (counted w) (count_votes-append vs v none_counted)

-- For a proposal in its voting period that has a list of votes: one voter can vote for it twice,
-- both votes are accepted, and the weight for it grows by twice the weight stated. (The sum fits
-- in a u64.)
pub voted_twice :
    (id voter weight : ℕ) (g : Governance) (p : Proposal) (vs : List Vote)
    → lookup id g.proposals ≡ some p
    → is_voting p.status ≡ true
    → lookup id g.votes ≡ some vs
    → (count_votes vs none_counted).yes_weight + 2 * weight < u64_mod
    → (f : Governance) × (h : Governance) × (d : Counts) × (t : ProposalStatus) × (cast_vote id
          voter yes_vote weight g
        ≡ some (f, ok tt))
      × (cast_vote id voter yes_vote weight f ≡ some (h, ok tt))
      × (tally id h ≡ some (d, t))
      × (d.yes_weight ≡ (count_votes vs none_counted).yes_weight + 2 * weight)
unfolding tally
voted_twice id voter weight g p vs found up listed fits =
    let v = ballot id voter yes_vote weight in
    let once = record g { votes = insert id (vs ++ v ∷ []) g.votes } in
    let twice = record once { votes = insert id ((vs ++ v ∷ []) ++ v ∷ []) once.votes } in
    let last = counted v (counted v (count_votes vs none_counted)) in
    (
      once,
      twice,
      last,
      outcome last g.params,
      accepted id voter yes_vote weight g p vs found up listed,
      accepted id voter yes_vote weight once p _ found up (lookup-insert_self id _ g.votes),
      rw (tally, lookup-insert_self id ((vs ++ v ∷ []) ++ v ∷ []) once.votes, counted_twice vs v v)
          refl,
      omega (arith, fits),
    )

-- a count of votes against alone, of which the share asked for wraps to nothing
against-passed :
    (weight : ℕ) (params : GovernanceParams)
    → weight < u64_mod
    → params.quorum ≤ weight
    → u64_mod ≤ weight * params.threshold
    → weight * params.threshold < u64_mod + 1000000000
    → outcome (record { yes_weight = 0; no_weight = weight; abstained = 0 }) params ≡ passed
unfolding outcome
against-passed weight params fits enough wraps little =
    let total : add_u64 (add_u64 0 weight) 0 ≡ weight = omega arith in
    let reached : leb params.quorum weight ≡ true = ground (arith, enough) in
    let asked : leb (mul_u64 weight params.threshold / 1000000000) 0 ≡ true =
      let left : (weight * params.threshold) % u64_mod < 1000000000 = omega arith in
      ground (arith, left) in
    rw (total, reached, asked) refl

-- For a weight that reaches the quorum and whose product with the threshold is at least 2 ^ 64 and
-- less than 2 ^ 64 + 10 ^ 9: where a proposal is created and its only vote is one of this weight
-- against it, the vote is accepted and the tally answers that the proposal has passed, with no
-- weight for it, though the share that the threshold asks for is not zero.
pub nobody_passes :
    (kind : ProposalType) (title description : String) (proposer now voter weight : ℕ)
    (g : Governance)
    → weight < u64_mod
    → g.params.quorum ≤ weight
    → u64_mod ≤ weight * g.params.threshold
    → weight * g.params.threshold < u64_mod + 1000000000
    → (h : Governance) × (d : Counts) × (cast_vote
          (create_proposal kind title description proposer now g).1
          voter
          no_vote
          weight
          (create_proposal kind title description proposer now g).0
        ≡ some (h, ok tt))
      × (tally (create_proposal kind title description proposer now g).1 h ≡ some (d, passed))
      × (d.yes_weight ≡ 0)
      × (d.no_weight ≡ weight)
      × (0 < weight * g.params.threshold / 1000000000)
unfolding create_proposal tally count_votes
nobody_passes kind title description proposer now voter weight g fits enough wraps little =
    let id = g.next_proposal_id in
    let f = (create_proposal kind title description proposer now g).0 in
    let h = record f { votes = insert id (ballot id voter no_vote weight ∷ []) f.votes } in
    let d : Counts = record { yes_weight = 0; no_weight = weight; abstained = 0 } in
    let same : add_u64 0 weight ≡ weight = omega arith in
    (
      h,
      d,
      accepted id voter no_vote weight f _ [] (lookup-insert_self id _ g.proposals) refl
          (lookup-insert_self id [] g.votes),
      rw (tally, lookup-insert_self id (ballot id voter no_vote weight ∷ []) f.votes, same)
          (rw (against-passed weight g.params fits enough wraps little) refl),
      refl,
      refl,
      omega (arith, wraps),
    )
