-- ===== src/Consensus/Views.antt =====
-- crates/truth/src/consensus.rs: histories of a node's consensus state, whose methods run one after
-- the other.
use lite_vision.Prelude.{
  ℕ, ◌≡◌, refl, not, Bool, true, false, Option, none, some, List, [], ◌∷◌, ◌==◌, if◌then◌else◌,
  arith, All, inl, inr, ◌⊎◌,
}
use lite_vision.Ord.{nat_ord, Ordering-cases}
use lite_vision.OrdMap.{Map, insert}
use lite_vision.OrdMap.Sorted.{IsSorted, insert-IsSorted}
use lite_vision.Consensus.{
  Vote, VoteType, pre_vote, pre_commit, pre_voting, qc_new, QuorumCertificate, Consensus,
  consensus_default,
}
use lite_vision.Consensus.Engine.{
  ConsensusEngine, start_new_view, propose, lock_parent, set_proposer, get_proposer, receive_vote,
  receive_prevote, receive_prevote_at, receive_precommit, receive_precommit_at, store_prevote,
  store_precommit, commit, advance_to_next_view, advance_to_next_height, collect,
}
use lite_vision.Consensus.Votes.{collect_lem}

-- a vote that is filed under its validator, and is of the height and the round
abbrev pub IsFiled : ℕ → ℕ → ℕ × Vote → Type 0
IsFiled height round (id, v) = (v.validator_id ≡ id) × (v.height ≡ height) × (v.round ≡ round)

-- a locked block comes with a certificate for it, and no certificate without a block
abbrev pub IsLocked : Option ℕ → Option QuorumCertificate → Type 0
IsLocked none none = Unit
IsLocked (some b) (some qc) = qc.block_hash ≡ b
IsLocked _ _ = ⊥

pub record IsSound (s : Consensus) : Type 0 where
  pub sorted : IsSorted s.votes
  pub filed : All (IsFiled s.height s.round) s.votes
  pub locked : IsLocked s.locked_block s.locked_qc

All-insert :
    (P : ℕ × Vote → Type 0) (k : ℕ) (v : Vote) (m : Map ℕ Vote)
    → All P m
    → P (k, v)
    → All P (insert k v m)
unfolding insert
All-insert P k v [] h p = (p, tt)
All-insert P k v ((j, w) ∷ m) h p = elim (Ordering-cases (nat_ord.cmp k j)) [
  | inl e ↦ rw (e, insert) (p, h)
  | inr (inl e) ↦ rw (e, insert) (p, h.1)
  | inr (inr e) ↦ rw (e, insert) (h.0, All-insert P k v m h.1 p)
]

VoteType-cases : (t : VoteType) → (t ≡ pre_vote) ⊎ (t ≡ pre_commit)
VoteType-cases pre_vote = inl refl
VoteType-cases pre_commit = inr refl

ne_false : (a b : ℕ) → not (a == b) ≡ false → a ≡ b
ne_false a b h = ground arith

branch-IsSound :
    {A : Type 0} (c : Bool) (x y : Consensus × A)
    → (c ≡ true → IsSound x.0)
    → (c ≡ false → IsSound y.0)
    → IsSound (if c then x else y).0
branch-IsSound true x y h k = h refl
branch-IsSound false x y h k = k refl

relock-IsLocked :
    (c : Bool) (b : ℕ) (lock : Option ℕ) (qc : QuorumCertificate) (old : Option QuorumCertificate)
    → qc.block_hash ≡ b
    → IsLocked lock old
    → IsLocked (if c then some b else lock) (if c then some qc else old)
relock-IsLocked true b lock qc old e h = e
relock-IsLocked false b lock qc old e h = h

collect-qc_new :
    (t : VoteType) (hash height round set_hash : ℕ) (votes : Map ℕ Vote)
    → (collect t hash votes (qc_new hash height round t set_hash)).block_hash ≡ hash
unfolding qc_new
collect-qc_new t hash height round set_hash votes =
    (collect_lem t hash votes (qc_new hash height round t set_hash)).1

propose-IsSound :
    (self : ConsensusEngine) (qc : Option QuorumCertificate) (s : Consensus)
    → IsSound s
    → IsSound (propose self qc s).0
unfolding propose lock_parent set_proposer
propose-IsSound self none s h =
    branch-IsSound _ _ _ (λ _. h)
      λ _. proposer_moved (not (s.proposer == get_proposer self s.height s.round))
  where
    proposer_moved :
        (c : Bool)
        → IsSound
            (record (if c then record s { proposer = get_proposer self s.height s.round } else s) {
              state = pre_voting;
            })
    proposer_moved true = record { sorted = h.sorted; filed = h.filed; locked = h.locked }
    proposer_moved false = record { sorted = h.sorted; filed = h.filed; locked = h.locked }
propose-IsSound self (some qc) s h =
    branch-IsSound _ _ _ (λ _. h)
      λ _. proposer_moved (not (s.proposer == get_proposer self s.height s.round))
  where
    proposer_moved :
        (c : Bool)
        → IsSound
            (record (lock_parent
              (some qc)
              (if c then record s { proposer = get_proposer self s.height s.round } else s)) {
                state = pre_voting;
              })
    proposer_moved true = record { sorted = h.sorted; filed = h.filed; locked = refl }
    proposer_moved false = record { sorted = h.sorted; filed = h.filed; locked = refl }

module _ (blake3 : List ℕ → ℕ) where
  store_prevote-IsSound :
      (self : ConsensusEngine) (v : Vote) (s : Consensus)
      → v.height ≡ s.height
      → v.round ≡ s.round
      → IsSound s
      → IsSound (store_prevote blake3 self v s).0
  unfolding store_prevote
  store_prevote-IsSound self v s e f h =
      let sorted = insert-IsSorted v.validator_id v s.votes h.sorted in
      let filed =
        All-insert (IsFiled s.height s.round) v.validator_id v s.votes h.filed (refl, e, f) in
      branch-IsSound _ _ _
        (λ _. record {
          sorted = sorted;
          filed = filed;
          locked =
              relock-IsLocked _ v.block_hash s.locked_block _ s.locked_qc
                (collect-qc_new pre_vote v.block_hash _ _ _ _) h.locked;
        })
        (λ _. record { sorted = sorted; filed = filed; locked = h.locked })

  store_precommit-IsSound :
      (self : ConsensusEngine) (now : ℕ) (v : Vote) (s : Consensus)
      → v.height ≡ s.height
      → v.round ≡ s.round
      → IsSound s
      → IsSound (store_precommit blake3 self now v s).0
  unfolding store_precommit
  store_precommit-IsSound self now v s e f h =
      let sorted = insert-IsSorted v.validator_id v s.votes h.sorted in
      let filed =
        All-insert (IsFiled s.height s.round) v.validator_id v s.votes h.filed (refl, e, f) in
      branch-IsSound _ _ _ (λ _. record { sorted = sorted; filed = filed; locked = h.locked })
        (λ _. record { sorted = sorted; filed = filed; locked = h.locked })

  receive_prevote-IsSound :
      (self : ConsensusEngine) (v : Vote) (s : Consensus)
      → IsSound s
      → IsSound (receive_prevote blake3 self v s).0
  unfolding receive_prevote receive_prevote_at
  receive_prevote-IsSound self v s h =
      branch-IsSound _ _ _ (λ _. h)
        λ e.
          branch-IsSound _ _ _ (λ _. h)
            λ f.
              branch-IsSound _ _ _ (λ _. h)
                λ _. store_prevote-IsSound self v s (ne_false _ _ e) (ne_false _ _ f) h

  receive_precommit-IsSound :
      (self : ConsensusEngine) (now : ℕ) (v : Vote) (s : Consensus)
      → IsSound s
      → IsSound (receive_precommit blake3 self now v s).0
  unfolding receive_precommit receive_precommit_at
  receive_precommit-IsSound self now v s h =
      branch-IsSound _ _ _ (λ _. h)
        λ e.
          branch-IsSound _ _ _ (λ _. h)
            λ f.
              branch-IsSound _ _ _ (λ _. h)
                λ _. store_precommit-IsSound self now v s (ne_false _ _ e) (ne_false _ _ f) h

  receive_vote-IsSound :
      (self : ConsensusEngine) (now : ℕ) (v : Vote) (s : Consensus)
      → IsSound s
      → IsSound (receive_vote blake3 self now v s).0
  unfolding receive_vote
  receive_vote-IsSound self now v s h = elim (VoteType-cases v.vote_type) [
    | inl e ↦ rw (e, receive_vote) (receive_prevote-IsSound self v s h)
    | inr e ↦ rw (e, receive_vote) (receive_precommit-IsSound self now v s h)
  ]

  -- A call of the engine, successful or refused.
  pub data Step (self : ConsensusEngine) : Consensus → Consensus → Type 0 where
    view : (height round : ℕ) (s : Consensus) → Step self s (start_new_view self height round s)
    proposal : (qc : Option QuorumCertificate) (s : Consensus) → Step self s (propose self qc s).0
    vote : (now : ℕ) (v : Vote) (s : Consensus) → Step self s (receive_vote blake3 self now v s).0
    committed : (qc : QuorumCertificate) (s : Consensus) → Step self s (commit qc s).0
    next_view : (s : Consensus) → Step self s (advance_to_next_view self s)
    next_height : (s : Consensus) → Step self s (advance_to_next_height s)

  pub data Reach (self : ConsensusEngine) (s : Consensus) : Consensus → Type 0 where
    here : Reach self s s
    next : {t u : Consensus} → Reach self s t → Step self t u → Reach self s u

  Step-IsSound : {self : ConsensusEngine} {s t : Consensus} → Step self s t → IsSound s → IsSound t
  unfolding start_new_view commit advance_to_next_view advance_to_next_height
  Step-IsSound (view height round s) h = record { sorted = tt; filed = tt; locked = h.locked }
  Step-IsSound {self} (proposal qc s) h = propose-IsSound self qc s h
  Step-IsSound {self} (vote now v s) h = receive_vote-IsSound self now v s h
  Step-IsSound (committed qc s) h =
      branch-IsSound _ _ _ (λ _. h)
        λ _. record { sorted = h.sorted; filed = h.filed; locked = h.locked }
  Step-IsSound (next_view s) h = record { sorted = tt; filed = tt; locked = h.locked }
  Step-IsSound (next_height s) h = record { sorted = tt; filed = tt; locked = tt }

  -- From the initial state, by any sequence of calls that run one after the other, successful or
  -- refused: the votes are filed in ascending order, each under its validator and of the height
  -- and round of the state, and a block is locked exactly if a certificate for it is.
  pub Reach-IsSound :
      {self : ConsensusEngine} {s : Consensus} → Reach self consensus_default s → IsSound s
  unfolding consensus_default
  Reach-IsSound here = record { sorted = tt; filed = tt; locked = tt }
  Reach-IsSound (next r step) = Step-IsSound step (Reach-IsSound r)
