-- ===== src/Consensus/Proposer.antt =====
-- crates/truth/src/consensus.rs: the choice of the proposer.
use lite_vision.Prelude.{
  ℕ, zero, suc, ◌%◌, ◌<◌, ◌≡◌, refl, ◌&&◌, ◌||◌, Bool, true, false, List, [], ◌∷◌, length, ◌==◌,
  arith, add_u64,
}
use lite_vision.Validator.{Validator, active_or_inactive}
use lite_vision.Consensus.Engine.{ConsensusEngine, active_of, id_at, proposer_among, get_proposer}

-- The id is that of a validator that may propose.
abbrev pub is_candidate : ℕ → List Validator → Bool
is_candidate id [] = false
is_candidate id (v ∷ vs) = active_or_inactive v && v.id == id || is_candidate id vs

id_at-is_candidate :
    (i : ℕ) (vs : List Validator)
    → i < length (active_of vs)
    → is_candidate (id_at i (active_of vs)) vs ≡ true
unfolding active_of id_at
id_at-is_candidate i [] h = ground arith
id_at-is_candidate zero (v ∷ vs) h = ground (arith, id_at-is_candidate zero vs)
id_at-is_candidate (suc i) (v ∷ vs) h =
    ground (arith, id_at-is_candidate i vs, id_at-is_candidate (suc i) vs)

among-is_candidate :
    (candidates : List Validator) (height round : ℕ)
    → 0 < length candidates
    → (i : ℕ) × (i < length candidates)
      × (proposer_among candidates height round ≡ id_at i candidates)
unfolding proposer_among
among-is_candidate [] height round h = ground arith
among-is_candidate (v ∷ vs) height round h =
    (add_u64 height round % length (v ∷ vs), omega arith, refl)

-- Where a validator may propose, the proposer of every height and round is the id of one that may.
pub get_proposer-is_candidate :
    (self : ConsensusEngine) (height round : ℕ)
    → 0 < length (active_of self.validators)
    → is_candidate (get_proposer self height round) self.validators ≡ true
unfolding get_proposer
get_proposer-is_candidate self height round h =
    let (i, below, e) = among-is_candidate (active_of self.validators) height round h in
    rw e (id_at-is_candidate i self.validators below)
