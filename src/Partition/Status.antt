-- ===== src/Partition/Status.antt =====
-- crates/storage/src/partition_manager.rs: the moves that each operation makes with the status of a
-- partition.
use lite_vision.Prelude.{
  ℕ, ◌≡◌, refl, Bool, true, false, not, ◌&&◌, List, Option, none, some, if◌then◌else◌, Result,
  arith, Option-cases, inl, inr, Bool-cases,
}
use lite_vision.Ord.{nat_ord, eqb, eq_of_eqb}
use lite_vision.OrdMap.{Map, lookup, insert, contains_key}
use lite_vision.OrdMap.Lookup.{lookup-insert}
use lite_vision.Partition.{
  Partition, PartitionStatus, pending, active, migrating, frozen, deleted, PartitionManager,
  PartitionError, PartitionCreate, PartitionMigration, PartitionDelete, PartitionRebalance,
  partition_new, activate, freeze, mark_migrating, delete, same_status,
}
use lite_vision.Partition.Signatures.{Ed25519, verify_signatures}
use lite_vision.Partition.Manager.{
  Outcome, create_partition, activate_partition, migrate_partition, complete_migration,
  delete_partition, freeze_partition, rebalance_partition, adopt, update_global_state_root,
}

abbrev pub status_of : Option Partition → Option PartitionStatus
status_of none = none
status_of (some p) = some p.status

abbrev pub status_at : ℕ → PartitionManager → Option PartitionStatus
status_at id s = status_of (lookup id s.partitions)

-- the moves of one call: to stay, to come into being as pending, and the edges of the life cycle
abbrev pub may_move : Option PartitionStatus → Option PartitionStatus → Bool
may_move none none = true
may_move none (some pending) = true
may_move none (some _) = false
may_move (some _) none = false
may_move (some pending) (some active) = true
may_move (some active) (some migrating) = true
may_move (some active) (some frozen) = true
may_move (some active) (some deleted) = true
may_move (some migrating) (some active) = true
may_move (some frozen) (some deleted) = true
may_move (some a) (some b) = same_status a b

pub may_stay : (o : Option PartitionStatus) → may_move o o ≡ true
may_stay none = refl
may_stay (some pending) = refl
may_stay (some active) = refl
may_stay (some migrating) = refl
may_stay (some frozen) = refl
may_stay (some deleted) = refl

-- every partition makes at most one move
abbrev pub IsMoved : PartitionManager → PartitionManager → Type 0
IsMoved s t = (id : ℕ) → may_move (status_at id s) (status_at id t) ≡ true

store-may_move :
    (id k : ℕ) (p : Partition) (m : Map ℕ Partition)
    → may_move (status_of (lookup k m)) (some p.status) ≡ true
    → may_move (status_of (lookup id m)) (status_of (lookup id (insert k p m))) ≡ true
store-may_move id k p m h = elim (Bool-cases (eqb k id)) [
  | inl same ↦ rw (lookup-insert k id p m, same, ← eq_of_eqb k id same) h
  | inr other ↦ rw (lookup-insert k id p m, other) (may_stay _)
]

-- The status of another partition, and of the target itself, does not change with its root.
adopt_status :
    (id target root : ℕ) (m : Map ℕ Partition)
    → status_of (lookup id (adopt target root (lookup target m) m)) ≡ status_of (lookup id m)
adopt_status id target root m = elim (Option-cases (lookup target m)) [
  | inl absent ↦ rw absent refl
  | inr (t, found) ↦ rw found (root_kept t found)
]
  where
    root_kept :
        (t : Partition)
        → lookup target m ≡ some t
        → status_of (
            lookup id (
              if same_status t.status active
              then insert target (record t { state_root = root }) m
              else m))
          ≡ status_of (lookup id m)
    root_kept t found = ground (
      arith,
      lookup-insert target id (record t { state_root = root }) m,
      eq_of_eqb target id,
      found,
    )

guard-IsMoved :
    {A : Type 0} (s : PartitionManager) (c : Bool) (a : Result PartitionError A) (x : Outcome A)
    → (c ≡ false → IsMoved s x.0)
    → IsMoved s (if c then (s, a) else x).0
guard-IsMoved s true a x h id = may_stay _
guard-IsMoved s false a x h id = h refl id

status_known : (a b : PartitionStatus) → not (same_status a b) ≡ false → a ≡ b
status_known pending b h = ground arith
status_known active b h = ground arith
status_known migrating b h = ground arith
status_known frozen b h = ground arith
status_known deleted b h = ground arith

pub migrate-IsMoved :
    (source target : ℕ) (m : PartitionMigration) (s : PartitionManager)
    → IsMoved s (migrate_partition source target m s).0
unfolding migrate_partition mark_migrating
migrate-IsMoved source target m s = elim (Option-cases (lookup source s.partitions)) [
  | inl absent ↦ rw (absent, migrate_partition) λ id. may_stay _
  | inr (p, found) ↦
      rw (found, migrate_partition)
        (guard-IsMoved s (not (same_status p.status active)) _ _ λ h id.
          rw (adopt_status id target m.proof.target_state_root _) (
            store-may_move id source (mark_migrating p) s.partitions
              (rw (found, status_known p.status active h) refl)))
]

pub rebalance-IsMoved :
    (r : PartitionRebalance) (s : PartitionManager) → IsMoved s (rebalance_partition r s).0
unfolding rebalance_partition
rebalance-IsMoved r s = elim (Option-cases (lookup r.partition_id s.partitions)) [
  | inl absent ↦ rw (absent, rebalance_partition) λ id. may_stay _
  | inr (p, found) ↦
      rw (found, rebalance_partition)
        (guard-IsMoved s (not (same_status p.status active)) _ _ λ h id.
          store-may_move id r.partition_id _ s.partitions (rw found (may_stay (some p.status))))
]

module _ (blake3 : List ℕ → ℕ) where
  pub activate-IsMoved :
      (k epoch : ℕ) (s : PartitionManager) → IsMoved s (activate_partition blake3 k epoch s).0
  unfolding activate_partition update_global_state_root activate
  activate-IsMoved k epoch s = elim (Option-cases (lookup k s.partitions)) [
    | inl absent ↦ rw (absent, activate_partition) λ id. may_stay _
    | inr (p, found) ↦
        rw (found, activate_partition)
          (guard-IsMoved s (not (same_status p.status pending)) _ _ λ h id.
            store-may_move id k _ s.partitions (rw (found, status_known p.status pending h) refl))
  ]

  pub complete-IsMoved :
      (k epoch : ℕ) (s : PartitionManager) → IsMoved s (complete_migration blake3 k epoch s).0
  unfolding complete_migration update_global_state_root activate
  complete-IsMoved k epoch s = elim (Option-cases (lookup k s.partitions)) [
    | inl absent ↦ rw (absent, complete_migration) λ id. may_stay _
    | inr (p, found) ↦
        rw (found, complete_migration)
          (guard-IsMoved s (not (same_status p.status migrating)) _ _ λ h id.
            store-may_move id k _ s.partitions (rw (found, status_known p.status migrating h) refl))
  ]

  pub freeze-IsMoved : (k : ℕ) (s : PartitionManager) → IsMoved s (freeze_partition blake3 k s).0
  unfolding freeze_partition update_global_state_root freeze
  freeze-IsMoved k s = elim (Option-cases (lookup k s.partitions)) [
    | inl absent ↦ rw (absent, freeze_partition) λ id. may_stay _
    | inr (p, found) ↦
        rw (found, freeze_partition)
          (guard-IsMoved s (not (same_status p.status active)) _ _ λ h id.
            store-may_move id k _ s.partitions (rw (found, status_known p.status active h) refl))
  ]

  pub delete-IsMoved :
      (r : PartitionDelete) (s : PartitionManager) → IsMoved s (delete_partition blake3 r s).0
  unfolding delete_partition update_global_state_root delete
  delete-IsMoved r s = elim (Option-cases (lookup r.partition_id s.partitions)) [
    | inl absent ↦ rw (absent, delete_partition) λ id. may_stay _
    | inr (p, found) ↦
        rw (found, delete_partition)
          (guard-IsMoved s (not (same_status p.status frozen) && not (same_status p.status active))
            _ _
            λ h id.
              store-may_move id r.partition_id _ s.partitions (rw found (may_delete p.status h)))
  ]
    where
      may_delete :
          (a : PartitionStatus)
          → not (same_status a frozen) && not (same_status a active) ≡ false
          → may_move (some a) (some deleted) ≡ true
      may_delete pending h = ground arith
      may_delete active h = refl
      may_delete migrating h = ground arith
      may_delete frozen h = refl
      may_delete deleted h = refl

  pub create-IsMoved :
      (e : Ed25519) (r : PartitionCreate) (validators : List ℕ) (s : PartitionManager)
      → IsMoved s (create_partition blake3 e r validators s).0
  unfolding create_partition partition_new contains_key
  create-IsMoved e r validators s = elim (Option-cases (lookup r.new_partition_id s.partitions)) [
    | inl absent ↦
        rw (absent, create_partition)
          (guard-IsMoved s (not (verify_signatures e blake3 validators r)) _ _
            λ _ id. store-may_move id r.new_partition_id _ s.partitions (rw absent refl))
    | inr (p, found) ↦ rw (found, create_partition) λ id. may_stay _
  ]
