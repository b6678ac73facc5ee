-- ===== src/Consensus/Certificates.antt =====
-- crates/truth/src/consensus.rs: what stands behind a certificate, and what does not.
use Prim.Native.String.{String}
use lite_vision.Prelude.{
  ℕ, ◌≤◌, ◌≡◌, refl, not, Bool, true, false, Option, none, some, List, ◌==◌, leb, if◌then◌else◌,
  arith, All, Result, ok, err, leb→le, inl, inr, ◌⊎◌,
}
use lite_vision.Ord.{nat_ord}
use lite_vision.OrdMap.{insert}
use lite_vision.OrdMap.Sum.{sum_by, sum_by-insert, weight-le}
use lite_vision.OrdMap.Sorted.{IsSorted, insert-IsSorted}
use lite_vision.Consensus.{
  Vote, VoteType, pre_vote, pre_commit, is_pre_vote, is_pre_commit, QuorumCertificate, Consensus,
  weight, qc_new,
}
use lite_vision.Consensus.Engine.{
  ConsensusEngine, collect, count_type, store_prevote, store_precommit, receive_vote,
  receive_prevote, receive_prevote_at, receive_precommit, receive_precommit_at, Outcome,
  get_validator_set_hash, not_locked_on,
}
use lite_vision.Consensus.Votes.{
  for_block, of_type, IsVoted, collect_lem, collect-IsVoted, count_type_lem, supporters,
  collect-supporters,
}

pub record IsSupported (threshold : ℕ) (t : VoteType) (hash : ℕ) (s : Consensus)
    (qc : QuorumCertificate) : Type 0 where
  pub same_block : qc.block_hash ≡ hash
  pub same_height : qc.height ≡ s.height
  pub same_round : qc.round ≡ s.round
  pub signed : All (IsVoted t hash s.votes) qc.signatures
  pub complete : qc.signatures ≡ supporters t hash s.votes
  pub weighs : weight qc ≡ sum_by (for_block t hash) s.votes
  pub enough : threshold ≤ sum_by (of_type t) s.votes

-- what is true of an answer: of a certificate, that the votes of the state support it
unfoldable pub IsAnswer :
    ℕ → VoteType → ℕ → Consensus × Result String (Option QuorumCertificate) → Type 0
IsAnswer threshold t hash (s, ok (some qc)) = IsSupported threshold t hash s qc
IsAnswer threshold t hash (s, ok none) = Unit
IsAnswer threshold t hash (s, err e) = Unit

collect-IsSupported :
    (threshold : ℕ) (t : VoteType) (hash set_hash : ℕ) (s : Consensus)
    → IsSorted s.votes
    → threshold ≤ count_type t s.votes
    → IsSupported threshold t hash s
        (collect t hash s.votes (qc_new hash s.height s.round t set_hash))
unfolding qc_new weight
collect-IsSupported threshold t hash set_hash s sorted h =
    let (w, b, he, r) = collect_lem t hash s.votes (qc_new hash s.height s.round t set_hash) in
    record {
      same_block = b;
      same_height = he;
      same_round = r;
      signed =
          collect-IsVoted t hash s.votes s.votes (qc_new hash s.height s.round t set_hash) sorted
            (λ _ _ p. p) tt;
      complete = collect-supporters t hash s.votes _;
      weighs = omega (arith, w);
      enough = rw (← count_type_lem t s.votes) h;
    }

VoteType-cases : (t : VoteType) → (t ≡ pre_vote) ⊎ (t ≡ pre_commit)
VoteType-cases pre_vote = inl refl
VoteType-cases pre_commit = inr refl

guard-IsAnswer :
    (threshold : ℕ) (t : VoteType) (hash : ℕ) (c : Bool) (s : Consensus) (e : String) (y : Outcome)
    → IsAnswer threshold t hash y
    → IsAnswer threshold t hash (if c then (s, err e) else y)
unfolding IsAnswer
guard-IsAnswer threshold t hash true s e y h = tt
guard-IsAnswer threshold t hash false s e y h = h

branch-IsAnswer :
    (threshold : ℕ) (t : VoteType) (hash : ℕ) (c : Bool) (x y : Outcome)
    → (c ≡ true → IsAnswer threshold t hash x)
    → (c ≡ false → IsAnswer threshold t hash y)
    → IsAnswer threshold t hash (if c then x else y)
branch-IsAnswer threshold t hash true x y h k = h refl
branch-IsAnswer threshold t hash false x y h k = k refl

module _ (blake3 : List ℕ → ℕ) where
  store_prevote-IsAnswer :
      (self : ConsensusEngine) (v : Vote) (s : Consensus)
      → IsSorted s.votes
      → IsAnswer self.threshold pre_vote v.block_hash (store_prevote blake3 self v s)
  unfolding store_prevote IsAnswer
  store_prevote-IsAnswer self v s sorted =
      branch-IsAnswer self.threshold pre_vote v.block_hash _ _ _
        (λ h.
          collect-IsSupported self.threshold pre_vote v.block_hash _ _
            (insert-IsSorted v.validator_id v s.votes sorted) (leb→le _ _ h))
        (λ _. tt)

  store_precommit-IsAnswer :
      (self : ConsensusEngine) (now : ℕ) (v : Vote) (s : Consensus)
      → IsSorted s.votes
      → IsAnswer self.threshold pre_commit v.block_hash (store_precommit blake3 self now v s)
  unfolding store_precommit IsAnswer
  store_precommit-IsAnswer self now v s sorted =
      branch-IsAnswer self.threshold pre_commit v.block_hash _ _ _
        (λ h.
          collect-IsSupported self.threshold pre_commit v.block_hash _ _
            (insert-IsSorted v.validator_id v s.votes sorted) (leb→le _ _ h))
        (λ _. tt)

  receive_prevote-IsAnswer :
      (self : ConsensusEngine) (v : Vote) (s : Consensus)
      → IsSorted s.votes
      → IsAnswer self.threshold pre_vote v.block_hash (receive_prevote blake3 self v s)
  unfolding receive_prevote receive_prevote_at
  receive_prevote-IsAnswer self v s sorted =
      guard-IsAnswer _ _ _ (not (v.height == s.height)) s "Vote height mismatch" _ (
        guard-IsAnswer _ _ _ (not (v.round == s.round)) s "Vote round mismatch" _ (
          guard-IsAnswer _ _ _ (not (is_pre_vote v.vote_type)) s
            "Invalid vote type for PreVote phase" _ (store_prevote-IsAnswer self v s sorted)))

  receive_precommit-IsAnswer :
      (self : ConsensusEngine) (now : ℕ) (v : Vote) (s : Consensus)
      → IsSorted s.votes
      → IsAnswer self.threshold pre_commit v.block_hash (receive_precommit blake3 self now v s)
  unfolding receive_precommit receive_precommit_at
  receive_precommit-IsAnswer self now v s sorted =
      guard-IsAnswer _ _ _ (not (v.height == s.height)) s "Vote height mismatch" _ (
        guard-IsAnswer _ _ _ (not (v.round == s.round)) s "Vote round mismatch" _ (
          guard-IsAnswer _ _ _ (not (is_pre_commit v.vote_type)) s
            "Invalid vote type for PreCommit phase" _
            (store_precommit-IsAnswer self now v s sorted)))

  -- Where the votes are filed in ascending order of the validators, whatever vote is received, of
  -- either type: a certificate in the answer is for the block of the vote and for the height and
  -- round of the state; its signatures are those of the stored votes of its type for the block,
  -- each once with its validator, in their order; and the stored votes of its type, for whatever
  -- block, reach the threshold.
  pub receive_vote-IsAnswer :
      (self : ConsensusEngine) (now : ℕ) (v : Vote) (s : Consensus)
      → IsSorted s.votes
      → IsAnswer self.threshold v.vote_type v.block_hash (receive_vote blake3 self now v s)
  unfolding receive_vote
  receive_vote-IsAnswer self now v s sorted = elim (VoteType-cases v.vote_type) [
    | inl e ↦ rw (e, receive_vote) (receive_prevote-IsAnswer self v s sorted)
    | inr e ↦ rw (e, receive_vote) (receive_precommit-IsAnswer self now v s sorted)
  ]

  prevote_stored :
      (self : ConsensusEngine) (v : Vote) (s : Consensus)
      → v.height ≡ s.height
      → v.round ≡ s.round
      → v.vote_type ≡ pre_vote
      → receive_prevote blake3 self v s ≡ store_prevote blake3 self v s
  unfolding receive_prevote receive_prevote_at
  prevote_stored self v s same_h same_r prevote = ground arith

  lock_moves :
      (hash : ℕ) (lock : Option ℕ)
      → (if not_locked_on hash lock then some hash else lock) ≡ some hash
  lock_moves hash none = refl
  lock_moves hash (some b) = ground arith

  threshold_reached :
      (self : ConsensusEngine) (v : Vote) (s : Consensus)
      → leb self.threshold (count_type pre_vote (insert v.validator_id v s.votes)) ≡ true
      → ((store_prevote blake3 self v s).1
          ≡ ok (
              some (
                collect pre_vote v.block_hash (insert v.validator_id v s.votes) (
                  qc_new v.block_hash s.height s.round pre_vote
                    (get_validator_set_hash blake3 self)))))
        × ((store_prevote blake3 self v s).0.locked_block ≡ some v.block_hash)
  unfolding store_prevote
  threshold_reached self v s h = rw h (refl, lock_moves v.block_hash s.locked_block)

  -- Where the votes are in ascending order, no stored prevote is for the block of a received
  -- prevote of the height and round of the state, and the prevotes with it, for whatever blocks,
  -- reach the threshold: a certificate for its block with a single signature is returned, and the
  -- block is locked.
  pub split_votes_certify :
      (self : ConsensusEngine) (v : Vote) (s : Consensus)
      → IsSorted s.votes
      → v.height ≡ s.height
      → v.round ≡ s.round
      → v.vote_type ≡ pre_vote
      → sum_by (for_block pre_vote v.block_hash) s.votes ≡ 0
      → self.threshold ≤ sum_by (of_type pre_vote) (insert v.validator_id v s.votes)
      → (qc : QuorumCertificate) × ((receive_prevote blake3 self v s).1 ≡ ok (some qc))
        × (qc.block_hash ≡ v.block_hash)
        × (weight qc ≡ 1)
        × ((receive_prevote blake3 self v s).0.locked_block ≡ some v.block_hash)
  unfolding qc_new weight
  split_votes_certify self v s sorted same_h same_r prevote alone enough =
      let votes = insert v.validator_id v s.votes in
      let qc0 =
        qc_new v.block_hash s.height s.round pre_vote (get_validator_set_hash blake3 self) in
      let f = for_block pre_vote v.block_hash in
      let (w, b, _, _) = collect_lem pre_vote v.block_hash votes qc0 in
      let reached : leb self.threshold (count_type pre_vote votes) ≡ true =
        ground (arith, count_type_lem pre_vote votes) in
      let counts : sum_by f votes ≡ 1 = ground (
        arith,
        sum_by-insert f v.validator_id v s.votes sorted,
        weight-le f v.validator_id s.votes,
        prevote,
      ) in
      let (answer, lock) = threshold_reached self v s reached in
      rw (prevote_stored self v s same_h same_r prevote)
        (collect pre_vote v.block_hash votes qc0, answer, b, omega (arith, w, counts), lock)
