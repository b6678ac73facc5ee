-- ===== src/Consensus/Votes.antt =====
-- crates/truth/src/consensus.rs: the votes that a certificate collects.
use mathlib.Core.List.{append_assoc, append-nil}
use lite_vision.Prelude.{
  ℕ, sym, ◌∙◌, ◌+◌, ◌≡◌, refl, ◌&&◌, Bool, true, false, some, List, [], ◌∷◌, ◌++◌, length-append,
  ◌==◌, if◌then◌else◌, arith, All,
}
use lite_vision.Ord.{nat_ord, eqb_self, eq_of_eqb}
use lite_vision.OrdMap.{Map, lookup}
use lite_vision.OrdMap.Sum.{sum_by}
use lite_vision.OrdMap.Sorted.{IsSorted, lookup-IsBelow}
use lite_vision.Consensus.{Vote, VoteType, same_type, QuorumCertificate, add_signature, weight}
use lite_vision.Consensus.Engine.{collect, count_type}

-- 1 for a vote of the type and for the block
abbrev pub for_block : VoteType → ℕ → Vote → ℕ
for_block t hash v = if same_type t v.vote_type && v.block_hash == hash then 1 else 0

-- 1 for a vote of the type
abbrev pub of_type : VoteType → Vote → ℕ
of_type t v = if same_type t v.vote_type then 1 else 0

pub count_type_lem :
    (t : VoteType) (votes : Map ℕ Vote) → count_type t votes ≡ sum_by (of_type t) votes
unfolding count_type sum_by
count_type_lem t [] = refl
count_type_lem t ((id, v) ∷ votes) = ground (arith, count_type_lem t votes)

add_signature_lem :
    (id : ℕ) (signature : List ℕ) (qc : QuorumCertificate)
    → (weight (add_signature id signature qc) ≡ weight qc + 1)
      × ((add_signature id signature qc).block_hash ≡ qc.block_hash)
      × ((add_signature id signature qc).height ≡ qc.height)
      × ((add_signature id signature qc).round ≡ qc.round)
unfolding weight add_signature
add_signature_lem id signature qc =
    (omega (arith, length-append qc.signatures ((id, signature) ∷ [])), refl, refl, refl)

-- The certificate gains one signature for each vote for the block, and keeps its other fields.
pub collect_lem :
    (t : VoteType) (hash : ℕ) (votes : Map ℕ Vote) (qc : QuorumCertificate)
    → (weight (collect t hash votes qc) ≡ weight qc + sum_by (for_block t hash) votes)
      × ((collect t hash votes qc).block_hash ≡ qc.block_hash)
      × ((collect t hash votes qc).height ≡ qc.height)
      × ((collect t hash votes qc).round ≡ qc.round)
unfolding collect sum_by
collect_lem t hash [] qc = (omega arith, refl, refl, refl)
collect_lem t hash ((id, v) ∷ votes) qc =
    let (w, b, h, r) = add_signature_lem id v.signature qc in
    let (w0, b0, h0, r0) = collect_lem t hash votes qc in
    let (w1, b1, h1, r1) = collect_lem t hash votes (add_signature id v.signature qc) in
    (ground arith, ground arith, ground arith, ground arith)

-- A signature of the certificate is that of a vote for the block.
abbrev pub IsVoted : VoteType → ℕ → Map ℕ Vote → ℕ × List ℕ → Type 0
IsVoted t hash votes (id, signature) =
    (v : Vote) × (lookup id votes ≡ some v)
    × (same_type t v.vote_type ≡ true)
    × (v.block_hash ≡ hash)
    × (v.signature ≡ signature)

All-snoc :
    {A : Type 0} (P : A → Type 0) (xs : List A) (a : A) → All P xs → P a → All P (xs ++ a ∷ [])
All-snoc P [] a h p = (p, tt)
All-snoc P (x ∷ xs) a h p = (h.0, All-snoc P xs a h.1 p)

add_signature-IsVoted :
    (t : VoteType) (hash : ℕ) (all : Map ℕ Vote) (id : ℕ) (v : Vote) (qc : QuorumCertificate)
    → lookup id all ≡ some v
    → (c : Bool) → same_type t v.vote_type && v.block_hash == hash ≡ c
    → All (IsVoted t hash all) qc.signatures
    → All (IsVoted t hash all) (if c then add_signature id v.signature qc else qc).signatures
unfolding add_signature
add_signature-IsVoted t hash all id v qc found true yes_it h =
    All-snoc (IsVoted t hash all) qc.signatures (id, v.signature) h
      (v, found, ground arith, ground arith, refl)
add_signature-IsVoted t hash all id v qc found false other h = h

-- Every signature that the loop adds is that of a vote for the block.
pub collect-IsVoted :
    (t : VoteType) (hash : ℕ) (all votes : Map ℕ Vote) (qc : QuorumCertificate)
    → IsSorted votes
    → ((id : ℕ) (v : Vote) → lookup id votes ≡ some v → lookup id all ≡ some v)
    → All (IsVoted t hash all) qc.signatures
    → All (IsVoted t hash all) (collect t hash votes qc).signatures
unfolding collect lookup
collect-IsVoted t hash all [] qc s sub h = h
collect-IsVoted t hash all ((id, v) ∷ votes) qc s sub h =
    let later : (j : ℕ) (w : Vote) → lookup j votes ≡ some w → lookup j all ≡ some w =
      λ j w found. sub j w (ground (arith, eq_of_eqb id j, lookup-IsBelow id votes s.0)) in
    let mine : lookup id all ≡ some v = sub id v (rw (eqb_self id)) in
    collect-IsVoted t hash all votes _ s.1 later
      (add_signature-IsVoted t hash all id v qc mine _ refl h)

-- the validators with a vote of the type and for the block, each with the signature of its vote
abbrev pub supporters : VoteType → ℕ → Map ℕ Vote → List (ℕ × List ℕ)
supporters t hash [] = []
supporters t hash ((id, v) ∷ votes) =
    let rest = supporters t hash votes in
    if same_type t v.vote_type && v.block_hash == hash then (id, v.signature) ∷ rest else rest

signatures_step :
    (c : Bool) (id : ℕ) (signature : List ℕ) (qc : QuorumCertificate) (rest : List (ℕ × List ℕ))
    → (if c then add_signature id signature qc else qc).signatures ++ rest
      ≡ qc.signatures ++ (if c then (id, signature) ∷ rest else rest)
unfolding add_signature
signatures_step true id signature qc rest = append_assoc qc.signatures _ _
signatures_step false id signature qc rest = refl

-- The loop adds each of them once, in their order.
pub collect-supporters :
    (t : VoteType) (hash : ℕ) (votes : Map ℕ Vote) (qc : QuorumCertificate)
    → (collect t hash votes qc).signatures ≡ qc.signatures ++ supporters t hash votes
unfolding collect
collect-supporters t hash [] qc = sym (append-nil qc.signatures)
collect-supporters t hash ((id, v) ∷ votes) qc =
    collect-supporters t hash votes _
    ∙ signatures_step (same_type t v.vote_type && v.block_hash == hash) id v.signature qc _
