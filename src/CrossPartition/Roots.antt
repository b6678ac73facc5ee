-- ===== src/CrossPartition/Roots.antt =====
-- crates/truth/src/cross_partition.rs: the roots of the partitions.
use lite_vision.Prelude.{
  ℕ, ◌≡◌, sym, ap, ◌∙◌, Bool-cases, Option-cases, none, some, List, [], ◌∷◌, inl, inr,
}
use mathlib.Core.Option.{some_inj, none-ne-some}
use lite_vision.Ord.{nat_ord, eqb, eq_of_eqb}
use lite_vision.OrdMap.{Map, lookup, insert, remove}
use lite_vision.OrdMap.Lookup.{lookup-insert, lookup-remove}
use lite_vision.CrossPartition.{CrossPartitionMessage, CrossPartitionProof, update_partition}
use lite_vision.CrossPartition.Manager.{
  Partition, PartitionManager, new, partition_new, with_root, add_partition, remove_partition,
  update_partition_root, process_cross_partition_message, commit_artifact, prune_messages,
}
use lite_vision.CrossPartition.Replay.{
  Call, adds, removes, sets_root, processes, commits, prunes, call, run, process_lem,
}

abbrev AllRooted : Map ℕ Partition → Map ℕ ℕ → Type 0
AllRooted m roots =
    (id : ℕ) (p : Partition) → lookup id m ≡ some p → lookup id roots ≡ some p.merkle_root

-- the global root has the root of every partition
pub record IsRooted (s : PartitionManager) : Type 0 where
  pub rooted : AllRooted s.partitions s.global_state_root.partition_roots

insert-AllRooted :
    (id : ℕ) (p : Partition) (m : Map ℕ Partition) (roots : Map ℕ ℕ)
    → AllRooted m roots
    → AllRooted (insert id p m) (insert id p.merkle_root roots)
insert-AllRooted id p m roots all j x e = elim (Bool-cases (eqb id j)) [
  | inl same ↦
      let found : some p ≡ some x = rw (lookup-insert, same) at e in
      rw (lookup-insert, same) (ap (λ (q : Partition). some q.merkle_root) (some_inj.0 found))
  | inr other ↦ rw (lookup-insert, other) (all j x (rw (lookup-insert, other) at e))
]

remove-AllRooted :
    (id : ℕ) (m : Map ℕ Partition) (roots : Map ℕ ℕ)
    → AllRooted m roots
    → AllRooted (remove id m) (remove id roots)
remove-AllRooted id m roots all j x e = elim (Bool-cases (eqb id j)) [
  | inl same ↦ absurd (none-ne-some x (rw (lookup-remove, same) at e))
  | inr other ↦ rw (lookup-remove, other) (all j x (rw (lookup-remove, other) at e))
]

-- A root that no partition has does no harm.
stray-AllRooted :
    (id root : ℕ) (m : Map ℕ Partition) (roots : Map ℕ ℕ)
    → lookup id m ≡ none
    → AllRooted m roots
    → AllRooted m (insert id root roots)
stray-AllRooted id root m roots absent all j x e = elim (Bool-cases (eqb id j)) [
  | inl same ↦ absurd (none-ne-some x (sym absent ∙ rw (eq_of_eqb id j same) e))
  | inr other ↦ rw (lookup-insert, other) (all j x e)
]

with_root-AllRooted :
    (id root : ℕ) (m : Map ℕ Partition) (roots : Map ℕ ℕ)
    → AllRooted m roots
    → AllRooted (with_root id root m) (insert id root roots)
unfolding with_root lookup
with_root-AllRooted id root m roots all = elim (Option-cases (lookup id m)) [
  | inl absent ↦ rw (with_root, absent) (stray-AllRooted id root m roots absent all)
  | inr (p, found) ↦
      rw (with_root, found) (insert-AllRooted id (record p { merkle_root = root }) m roots all)
]

process-IsRooted :
    (h : ℕ → ℕ → ℕ) (message : CrossPartitionMessage) (proof : CrossPartitionProof)
    (s : PartitionManager)
    → IsRooted s
    → IsRooted (process_cross_partition_message h message proof s).0
process-IsRooted h message proof s r = elim (process_lem h message proof s) [
  | inl (e, refused) ↦ rw refused r
  | inr (accepted, _) ↦ rw accepted (record { rooted = r.rooted })
]

call-IsRooted :
    (h : ℕ → ℕ → ℕ) (c : Call) (s : PartitionManager) → IsRooted s → IsRooted (call h c s)
unfolding add_partition remove_partition update_partition_root commit_artifact prune_messages
    partition_new update_partition
call-IsRooted h (adds id) s r = record { rooted = insert-AllRooted id _ _ _ r.rooted }
call-IsRooted h (removes id) s r = record { rooted = remove-AllRooted id _ _ r.rooted }
call-IsRooted h (sets_root id root) s r = record {
  rooted = with_root-AllRooted id root _ _ r.rooted;
}
call-IsRooted h (processes message proof) s r = process-IsRooted h message proof s r
call-IsRooted h (commits commit) s r = record { rooted = r.rooted }
call-IsRooted h (prunes height) s r = record { rooted = r.rooted }

run_from-IsRooted :
    (h : ℕ → ℕ → ℕ) (cs : List Call) (s : PartitionManager) → IsRooted s → IsRooted (run h cs s)
run_from-IsRooted h [] s r = r
run_from-IsRooted h (c ∷ cs) s r = run_from-IsRooted h cs (call h c s) (call-IsRooted h c s r)

-- After any sequence of calls, the global root has the root of every partition.
pub run-IsRooted : (h : ℕ → ℕ → ℕ) (cs : List Call) → IsRooted (run h cs new)
unfolding new lookup
run-IsRooted h cs =
    run_from-IsRooted h cs new (record { rooted = λ id p e. absurd (none-ne-some p e) })
