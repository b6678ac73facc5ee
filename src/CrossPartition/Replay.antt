-- ===== src/CrossPartition/Replay.antt =====
-- crates/truth/src/cross_partition.rs: the calls of PartitionManager as values, and messages that
-- come twice.
use lite_vision.Prelude.{
  ℕ, ◌≡◌, ◌⊎◌, Result-cases, refl, sym, ap, ◌∙◌, Bool, Bool-cases, true, false, List, [], ◌∷◌, ltb,
  arith, Result, ok, err, inl, inr,
}
use mathlib.Core.Bool.{true≢false}
use lite_vision.Ord.{nat_ord, eqb_self}
use lite_vision.OrdMap.Lookup.{member-add_key}
use lite_vision.CrossPartition.{
  CrossPartitionMessage, CrossPartitionProof, CrossPartitionError, message_already_consumed,
  source_height_too_old, verify, is_consumed, mark_consumed, ArtifactCommit, prune,
}
use lite_vision.CrossPartition.Manager.{
  PartitionManager, add_partition, remove_partition, update_partition_root,
  process_cross_partition_message, commit_artifact, prune_messages,
}

pub data Call : Type 0 where
  adds : (id : ℕ) → Call
  removes : (id : ℕ) → Call
  sets_root : (id root : ℕ) → Call
  processes : CrossPartitionMessage → CrossPartitionProof → Call
  commits : ArtifactCommit → Call
  prunes : (height : ℕ) → Call

abbrev is_ok : {E A : Type 0} → Result E A → Bool
is_ok (ok _) = true
is_ok (err _) = false

err_not_ok : {E A : Type 0} {e : E} {a : A} → ◌≡◌ {A = Result E A} (err e) (ok a) → ⊥
err_not_ok x = true≢false (sym (ap is_ok x))

module _ (hash_pair : ℕ → ℕ → ℕ) where
  abbrev pub call : Call → PartitionManager → PartitionManager
  call (adds id) s = add_partition id s
  call (removes id) s = (remove_partition id s).0
  call (sets_root id root) s = update_partition_root id root s
  call (processes message proof) s = (process_cross_partition_message hash_pair message proof s).0
  call (commits commit) s = (commit_artifact commit s).0
  call (prunes height) s = prune_messages height s

  abbrev pub run : List Call → PartitionManager → PartitionManager
  run [] s = s
  run (c ∷ cs) s = run cs (call c s)

  abbrev Consumed : ℕ → PartitionManager → Type 0
  Consumed id s = is_consumed id s.message_registry ≡ true

  marks :
      (id other : ℕ) (s : PartitionManager)
      → Consumed id s
      → is_consumed id (mark_consumed other s.message_registry) ≡ true
  unfolding is_consumed mark_consumed
  marks id other s c = rw (member-add_key, c) (ground arith)

  -- A message is refused and changes nothing, or it is new, in time, proved, and marked.
  pub process_lem :
      (message : CrossPartitionMessage) (proof : CrossPartitionProof) (s : PartitionManager)
      → ((e : CrossPartitionError) × (process_cross_partition_message hash_pair message proof s
            ≡ (s, err e)))
        ⊎ ((process_cross_partition_message hash_pair message proof s ≡ (
          record s { message_registry = mark_consumed message.message_id s.message_registry },
          ok tt,
        ))
            × (verify hash_pair s.global_state_root message proof ≡ ok tt))
  unfolding process_cross_partition_message
  process_lem message proof s =
      elim (Bool-cases (is_consumed message.message_id s.message_registry)) [
        | inl again ↦ inl (message_already_consumed, rw again refl)
        | inr first ↦
            elim (Bool-cases
              (ltb message.source_block_height s.message_registry.min_valid_height)) [
                | inl old ↦ inl (source_height_too_old, rw (first, old) refl)
                | inr recent ↦
                    elim (Result-cases (verify hash_pair s.global_state_root message proof)) [
                      | inl (_, proved) ↦ inr (rw (first, recent, proved) refl, proved)
                      | inr (e, failed) ↦ inl (e, rw (first, recent, failed) refl)
                    ]
              ]
      ]

  process-Consumed :
      (message : CrossPartitionMessage) (proof : CrossPartitionProof) (id : ℕ)
      (s : PartitionManager)
      → Consumed id s
      → Consumed id (process_cross_partition_message hash_pair message proof s).0
  process-Consumed message proof id s c = elim (process_lem message proof s) [
    | inl (e, refused) ↦ rw refused c
    | inr (accepted, _) ↦ rw accepted (marks id message.message_id s c)
  ]

  call-Consumed :
      (c : Call) (id : ℕ) (s : PartitionManager) → Consumed id s → Consumed id (call c s)
  unfolding add_partition remove_partition update_partition_root commit_artifact prune_messages
      prune is_consumed
  call-Consumed (adds _) id s c = c
  call-Consumed (removes _) id s c = c
  call-Consumed (sets_root _ _) id s c = c
  call-Consumed (processes message proof) id s c = process-Consumed message proof id s c
  call-Consumed (commits _) id s c = c
  call-Consumed (prunes _) id s c = c

  run-Consumed :
      (cs : List Call) (id : ℕ) (s : PartitionManager) → Consumed id s → Consumed id (run cs s)
  run-Consumed [] id s c = c
  run-Consumed (d ∷ cs) id s c = run-Consumed cs id (call d s) (call-Consumed d id s c)

  accepted-Consumed :
      (message : CrossPartitionMessage) (proof : CrossPartitionProof) (s : PartitionManager)
      → (process_cross_partition_message hash_pair message proof s).1 ≡ ok tt
      → Consumed message.message_id (process_cross_partition_message hash_pair message proof s).0
  unfolding is_consumed mark_consumed
  accepted-Consumed message proof s h = elim (process_lem message proof s) [
    | inl (e, refused) ↦ absurd (err_not_ok (rw refused at h))
    | inr (accepted, _) ↦ rw (accepted, member-add_key, eqb_self message.message_id) refl
  ]

  -- A message that has been accepted is refused as consumed, with whatever proof and contents,
  -- after any sequence of calls, pruning included, and the refusal changes nothing.
  pub processed_once :
      (message again : CrossPartitionMessage) (proof other : CrossPartitionProof) (cs : List Call)
      (s : PartitionManager)
      → (process_cross_partition_message hash_pair message proof s).1 ≡ ok tt
      → again.message_id ≡ message.message_id
      → let t = run cs (process_cross_partition_message hash_pair message proof s).0 in
        process_cross_partition_message hash_pair again other t ≡ (t, err message_already_consumed)
  unfolding process_cross_partition_message
  processed_once message again proof other cs s h same =
      let t = run cs (process_cross_partition_message hash_pair message proof s).0 in
      let seen : is_consumed again.message_id t.message_registry ≡ true =
        ap (λ (id : ℕ). is_consumed id t.message_registry) same
        ∙ run-Consumed cs message.message_id _ (accepted-Consumed message proof s h) in
      rw seen refl
