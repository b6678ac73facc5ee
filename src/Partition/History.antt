-- ===== src/Partition/History.antt =====
-- crates/storage/src/partition_manager.rs: histories of a manager.
use lite_vision.Prelude.{ℕ, ◌≡◌, refl, true, List, Option, none, some, arith}
use lite_vision.Ord.{nat_ord}
use lite_vision.Partition.{
  PartitionStatus, pending, active, migrating, frozen, deleted, PartitionManager, PartitionCreate,
  PartitionMigration, PartitionDelete, PartitionRebalance,
}
use lite_vision.Partition.Signatures.{Ed25519}
use lite_vision.Partition.Manager.{
  create_partition, activate_partition, migrate_partition, complete_migration, delete_partition,
  freeze_partition, rebalance_partition, advance_epoch,
}
use lite_vision.Partition.Status.{
  may_move, may_stay, status_at, IsMoved, migrate-IsMoved, rebalance-IsMoved, activate-IsMoved,
  complete-IsMoved, freeze-IsMoved, delete-IsMoved, create-IsMoved,
}

module _ (blake3 : List ℕ → ℕ) where
  -- A call of the manager, successful or refused.
  pub data Step : PartitionManager → PartitionManager → Type 1 where
    created :
        (e : Ed25519) (r : PartitionCreate) (validators : List ℕ) (s : PartitionManager)
        → Step s (create_partition blake3 e r validators s).0
    activated :
        (k epoch : ℕ) (s : PartitionManager) → Step s (activate_partition blake3 k epoch s).0
    migrated :
        (source target : ℕ) (m : PartitionMigration) (s : PartitionManager)
        → Step s (migrate_partition source target m s).0
    completed :
        (k epoch : ℕ) (s : PartitionManager) → Step s (complete_migration blake3 k epoch s).0
    removed : (r : PartitionDelete) (s : PartitionManager) → Step s (delete_partition blake3 r s).0
    froze : (k : ℕ) (s : PartitionManager) → Step s (freeze_partition blake3 k s).0
    rebalanced :
        (r : PartitionRebalance) (s : PartitionManager) → Step s (rebalance_partition r s).0
    epoch_advanced : (n : ℕ) (s : PartitionManager) → Step s (advance_epoch n s)

  -- Every call, successful or refused, takes every partition along at most one edge of its life
  -- cycle: absent to pending, pending to active, active to migrating, frozen or deleted, migrating
  -- to active, frozen to deleted. None disappears.
  pub Step-IsMoved : {s t : PartitionManager} → Step s t → IsMoved s t
  unfolding advance_epoch
  Step-IsMoved (created e r validators s) = create-IsMoved blake3 e r validators s
  Step-IsMoved (activated k epoch s) = activate-IsMoved blake3 k epoch s
  Step-IsMoved (migrated source target m s) = migrate-IsMoved source target m s
  Step-IsMoved (completed k epoch s) = complete-IsMoved blake3 k epoch s
  Step-IsMoved (removed r s) = delete-IsMoved blake3 r s
  Step-IsMoved (froze k s) = freeze-IsMoved blake3 k s
  Step-IsMoved (rebalanced r s) = rebalance-IsMoved r s
  Step-IsMoved (epoch_advanced n s) = λ id. may_stay _

  pub data Reach (s : PartitionManager) : PartitionManager → Type 1 where
    here : Reach s s
    next : {t u : PartitionManager} → Reach s t → Step t u → Reach s u

  no_way_back : (o : Option PartitionStatus) → may_move (some deleted) o ≡ true → o ≡ some deleted
  no_way_back none h = ground arith
  no_way_back (some pending) h = ground arith
  no_way_back (some active) h = ground arith
  no_way_back (some migrating) h = ground arith
  no_way_back (some frozen) h = ground arith
  no_way_back (some deleted) h = refl

  -- A deleted partition stays deleted through any sequence of calls.
  pub deleted_stays :
      {s t : PartitionManager} (id : ℕ)
      → Reach s t
      → status_at id s ≡ some deleted
      → status_at id t ≡ some deleted
  deleted_stays id here h = h
  deleted_stays id (next {t} {u} r step) h =
      no_way_back (status_at id u) (rw (deleted_stays id r h) at (Step-IsMoved step id))
