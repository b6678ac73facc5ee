-- ===== src/Partition/Quorum.antt =====
-- crates/storage/src/partition_manager.rs: what a quorum of signatures is here.
use lite_vision.Prelude.{
  ℕ, zero, suc, ◌*◌, ◌/◌, ◌≤◌, ◌≡◌, refl, true, none, List, [], ◌∷◌, length, leb, ok, arith,
}
use lite_vision.Ord.{nat_ord}
use lite_vision.OrdMap.{lookup, contains_key}
use lite_vision.Partition.{PartitionManager, PartitionCreate, partition_new}
use lite_vision.Partition.Signatures.{
  Ed25519, contains, verify_one, count_verified, verify_signatures, message_to_sign,
}
use lite_vision.Partition.Manager.{create_partition}

-- the same signature n times
abbrev pub repeated : ℕ → ℕ × List ℕ → List (ℕ × List ℕ)
repeated zero p = []
repeated (suc n) p = p ∷ repeated n p

length-repeated : (n : ℕ) (p : ℕ × List ℕ) → length (repeated n p) ≡ n
length-repeated zero p = refl
length-repeated (suc n) p = omega (arith, length-repeated n p)

module _ (e : Ed25519) where
  count-repeated :
      (message key : ℕ) (signature : List ℕ) (validators : List ℕ) (n : ℕ)
      → contains key validators ≡ true
      → verify_one e message key signature ≡ true
      → count_verified e message validators (repeated n (key, signature)) ≡ n
  unfolding count_verified
  count-repeated message key signature validators zero known valid = refl
  count-repeated message key signature validators (suc n) known valid =
      rw (known, valid)
        (omega (arith, count-repeated message key signature validators n known valid))

  module _ (blake3 : List ℕ → ℕ) where
    -- creation depends on the number and the signatures alone
    create_verified :
        (r : PartitionCreate) (validators : List ℕ) (s : PartitionManager)
        → lookup r.new_partition_id s.partitions ≡ none
        → verify_signatures e blake3 validators r ≡ true
        → (create_partition blake3 e r validators s).1
          ≡ ok (partition_new r.new_partition_id s.current_epoch)
    unfolding create_partition contains_key
    create_verified r validators s free valid = rw (free, valid, create_partition) refl

    enough :
        (r : PartitionCreate) (validators : List ℕ) (q : ℕ)
        → length validators * 2 / 3 ≡ q
        → length r.signatures ≡ q
        → count_verified e (message_to_sign e blake3 r) validators r.signatures ≡ q
        → verify_signatures e blake3 validators r ≡ true
    unfolding verify_signatures
    enough r validators q a b c = ground arith

    none_needed :
        (r : PartitionCreate) (validators : List ℕ)
        → length validators ≤ 1
        → verify_signatures e blake3 validators r ≡ true
    unfolding verify_signatures
    none_needed r validators few =
        let none_asked : length validators * 2 / 3 ≡ 0 = omega arith in ground arith

    -- For a free number, one valid signature of one validator suffices to create a partition: the
    -- request only has to repeat it as often as the quorum asks for signatures.
    pub repeated_signature_creates :
        (r : PartitionCreate) (key : ℕ) (signature : List ℕ) (validators : List ℕ)
        (s : PartitionManager)
        → lookup r.new_partition_id s.partitions ≡ none
        → contains key validators ≡ true
        → verify_one e (message_to_sign e blake3 r) key signature ≡ true
        → r.signatures ≡ repeated (length validators * 2 / 3) (key, signature)
        → (create_partition blake3 e r validators s).1
          ≡ ok (partition_new r.new_partition_id s.current_epoch)
    unfolding message_to_sign
    repeated_signature_creates r key signature validators s free known valid same =
        let q = length validators * 2 / 3 in
        create_verified r validators s free (
          enough r validators q refl (rw same (length-repeated q (key, signature)))
            (rw same (count-repeated _ key signature validators q known valid)))

    -- For a free number and at most one validator, every request creates a partition, signed or
    -- not.
    pub unsigned_creates :
        (r : PartitionCreate) (validators : List ℕ) (s : PartitionManager)
        → lookup r.new_partition_id s.partitions ≡ none
        → length validators ≤ 1
        → (create_partition blake3 e r validators s).1
          ≡ ok (partition_new r.new_partition_id s.current_epoch)
    unsigned_creates r validators s free few =
        create_verified r validators s free (none_needed r validators few)

    count-le :
        (message : ℕ) (validators : List ℕ) (signatures : List (ℕ × List ℕ))
        → count_verified e message validators signatures ≤ length signatures
    unfolding count_verified
    count-le message validators [] = omega arith
    count-le message validators ((key, signature) ∷ rest) =
        ground (arith, count-le message validators rest)

    -- A request passes exactly if the quorum of its signatures, two thirds of the number of
    -- validators rounded down, is valid and of validators.
    pub verify_signatures_iff :
        (r : PartitionCreate) (validators : List ℕ)
        → verify_signatures e blake3 validators r
          ≡ leb
              (length validators * 2 / 3)
              (count_verified e (message_to_sign e blake3 r) validators r.signatures)
    unfolding verify_signatures
    verify_signatures_iff r validators =
        let m = message_to_sign e blake3 r in ground (arith, count-le m validators r.signatures)
