-- ===== src/CrossPartition/Merkle.antt =====
-- crates/truth/src/cross_partition.rs: the Merkle proofs, against trees of hashes.
use lite_vision.Prelude.{
  ℕ, ◌≤◌, ◌≡◌, refl, sym, ap, ◌∙◌, true, false, some, List, [], ◌∷◌, ◌++◌, ◌==◌, ==_iff, ltb, arith,
  ok,
}
use lite_vision.CrossPartition.{
  GlobalStateRoot, get_partition_root, CrossPartitionMessage, CrossPartitionProof, combine, climb,
  verify_merkle_proof, verify,
}

pub data Tree : Type 0 where
  leaf : ℕ → Tree
  node : Tree → Tree → Tree

-- the root, by the tree
abbrev pub root_of : (ℕ → ℕ → ℕ) → Tree → ℕ
root_of hash_pair (leaf x) = x
root_of hash_pair (node l r) = combine hash_pair (root_of hash_pair l) (root_of hash_pair r)

-- A leaf of a tree and its siblings on the way up.
pub data At (hash_pair : ℕ → ℕ → ℕ) : Tree → ℕ → List ℕ → Type 0 where
  here : (x : ℕ) → At hash_pair (leaf x) x []
  left :
      (l r : Tree) (x : ℕ) (way : List ℕ)
      → At hash_pair l x way
      → At hash_pair (node l r) x (way ++ root_of hash_pair r ∷ [])
  right :
      (l r : Tree) (x : ℕ) (way : List ℕ)
      → At hash_pair r x way
      → At hash_pair (node l r) x (way ++ root_of hash_pair l ∷ [])

combine_comm : (h : ℕ → ℕ → ℕ) (a b : ℕ) → combine h a b ≡ combine h b a
unfolding combine
combine_comm h a b = ground arith

climb-append :
    (h : ℕ → ℕ → ℕ) (x top : ℕ) (way : List ℕ)
    → climb h x (way ++ top ∷ []) ≡ combine h (climb h x way) top
unfolding climb
climb-append h x top [] = refl
climb-append h x top (s ∷ way) = climb-append h (combine h x s) top way

climb-root_of :
    {h : ℕ → ℕ → ℕ} {t : Tree} {x : ℕ} {way : List ℕ} → At h t x way → climb h x way ≡ root_of h t
unfolding climb
climb-root_of (here x) = refl
climb-root_of {h} (left l r x way at) =
    climb-append h x _ way ∙ ap (λ (t : ℕ). combine h t (root_of h r)) (climb-root_of at)
climb-root_of {h} (right l r x way at) =
    climb-append h x _ way
    ∙ combine_comm h (climb h x way) (root_of h l)
    ∙ ap (combine h (root_of h l)) (climb-root_of at)

-- A message whose payload hash is a leaf of a tree of hashes is accepted with the siblings of the
-- leaf as its proof, where the root of the tree is the known root of its source and the root
-- claimed, and at least two validators are counted.
pub verify_accepts :
    (h : ℕ → ℕ → ℕ) (t : Tree) (roots : GlobalStateRoot) (message : CrossPartitionMessage)
    (proof : CrossPartitionProof)
    → At h t message.payload_hash proof.merkle_proof
    → get_partition_root message.source_partition_id roots ≡ some (root_of h t)
    → proof.source_partition_root ≡ root_of h t
    → 2 ≤ proof.qc_validator_count
    → verify h roots message proof ≡ ok tt
unfolding verify verify_merkle_proof
verify_accepts h t roots message proof at known claimed enough =
    let matches : (proof.source_partition_root == root_of h t) ≡ true = (==_iff _ _).1 claimed in
    let climbs : (climb h message.payload_hash proof.merkle_proof == proof.source_partition_root)
        ≡ true =
      (==_iff _ _).1 (climb-root_of at ∙ sym claimed) in
    let many : ltb proof.qc_validator_count 2 ≡ false = ground (arith, enough) in
    rw (verify, known, matches, climbs, many) refl

-- no two pairs have one hash
abbrev pub IsInjective : (ℕ → ℕ → ℕ) → Type 0
IsInjective h = (a b c d : ℕ) → h a b ≡ h c d → (a ≡ c) × (b ≡ d)

combine_inj : (h : ℕ → ℕ → ℕ) (x y s : ℕ) → IsInjective h → combine h x s ≡ combine h y s → x ≡ y
unfolding combine
combine_inj h x y s inj e = ground (arith, inj x s y s, inj x s s y, inj s x y s, inj s x s y)

climb_inj :
    (h : ℕ → ℕ → ℕ) (way : List ℕ) (x y : ℕ) → IsInjective h → climb h x way ≡ climb h y way → x ≡ y
unfolding climb
climb_inj h [] x y inj e = e
climb_inj h (s ∷ way) x y inj e = combine_inj h x y s inj (climb_inj h way _ _ inj e)

-- Where no two pairs have one hash, a Merkle proof and its root are accepted for one leaf only.
pub verify_merkle_proof_binds :
    (h : ℕ → ℕ → ℕ) (x y : ℕ) (proof : CrossPartitionProof)
    → IsInjective h
    → verify_merkle_proof h x proof ≡ true
    → verify_merkle_proof h y proof ≡ true
    → x ≡ y
unfolding verify_merkle_proof
verify_merkle_proof_binds h x y proof inj a b =
    climb_inj h proof.merkle_proof x y inj ((==_iff _ _).0 a ∙ sym ((==_iff _ _).0 b))
