-- ===== src/Consensus/Races.antt =====
-- crates/truth/src/consensus.rs: what another task can do between the reads and the write of
-- receive_prevote.
use lite_vision.Prelude.{ℕ, ◌≡◌, ◌≢◌, some, List, ◌∷◌, [], arith, All, ◌∙◌}
use lite_vision.Ord.{nat_ord}
use lite_vision.OrdMap.{Map, insert, lookup}
use lite_vision.OrdMap.Lookup.{lookup-insert_self}
use lite_vision.Consensus.{Vote, pre_vote, Consensus}
use lite_vision.Consensus.Engine.{ConsensusEngine, receive_prevote_at, store_prevote}
use lite_vision.Consensus.Views.{IsFiled, IsSound}

filed-height :
    (height round k : ℕ) (v : Vote) (m : Map ℕ Vote)
    → All (IsFiled height round) m
    → lookup k m ≡ some v
    → v.height ≡ height
unfolding lookup
filed-height height round k v [] h found = ground arith
filed-height height round k v ((j, w) ∷ m) h found =
    let here = h.0.1 in ground (arith, filed-height height round k v m h.1)

module _ (blake3 : List ℕ → ℕ) where
  stored_votes :
      (self : ConsensusEngine) (v : Vote) (s : Consensus)
      → ((store_prevote blake3 self v s).0.votes ≡ insert v.validator_id v s.votes)
        × ((store_prevote blake3 self v s).0.height ≡ s.height)
  unfolding store_prevote
  stored_votes self v s = (ground arith, ground arith)

  guards_pass :
      (self : ConsensusEngine) (v : Vote) (a s : Consensus)
      → v.height ≡ a.height
      → v.round ≡ a.round
      → v.vote_type ≡ pre_vote
      → receive_prevote_at blake3 self v a a s ≡ store_prevote blake3 self v s
  unfolding receive_prevote_at
  guards_pass self v a s e f g = ground arith

  -- A prevote that passes the checks against the state of an earlier read is stored, even if the
  -- node has since moved to another height: the state that results does not satisfy the invariant
  -- of calls that run one after the other.
  pub stale_vote_stored :
      (self : ConsensusEngine) (v : Vote) (before s : Consensus)
      → v.height ≡ before.height
      → v.round ≡ before.round
      → v.vote_type ≡ pre_vote
      → v.height ≢ s.height
      → let t = (receive_prevote_at blake3 self v before before s).0 in
        (lookup v.validator_id t.votes ≡ some v) × (¬ IsSound t)
  stale_vote_stored self v before s e f g late =
      let (votes, height) = stored_votes self v s in
      let found : lookup v.validator_id (store_prevote blake3 self v s).0.votes ≡ some v =
        rw votes (lookup-insert_self v.validator_id v s.votes) in
      rw (guards_pass self v before s e f g)
        (found, λ sound. late (filed-height _ _ v.validator_id v _ sound.filed found ∙ height))
