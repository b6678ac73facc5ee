-- ===== src/Pruning/Exact.antt =====
-- crates/truth/src/pruning.rs: the heights that are kept, and what pruning removes.
use lite_vision.Prelude.{
  ℕ, ◌+◌, ◌-◌, ◌≡◌, refl, ◌∙◌, Bool, Bool-cases, true, false, ◌&&◌, ◌==◌, Option, none, some, List,
  [], ◌∷◌, ◌++◌, ltb, if◌then◌else◌, arith, inl, inr,
}
use mathlib.Core.Bool.{true≢false}
use lite_vision.Ord.{nat_ord, eq_of_eqb, eqb_self}
use lite_vision.OrdMap.{lookup, remove, is_some}
use lite_vision.OrdMap.Lookup.{lookup-insert, lookup-remove}
use lite_vision.Pruning.{
  PruningConfig, BlockArchive, StatePruner, new, contains, archive_block, should_prune,
  filter_below, get_blocks_to_prune, remove_first, prune_loop, prune, get_archive,
}

abbrev pub count : ℕ → List ℕ → ℕ
count k [] = 0
count k (h ∷ hs) = (if h == k then 1 else 0) + count k hs

-- Every archived height is listed once, and no other is.
pub record IsTracked (s : StatePruner) : Type 0 where
  pub once : (k : ℕ) → count k s.heights ≡ (if is_some (lookup k s.blocks) then 1 else 0)

contains-count : (k : ℕ) (hs : List ℕ) → contains k hs ≡ ltb 0 (count k hs)
contains-count k [] = ground arith
contains-count k (h ∷ hs) = ground (arith, contains-count k hs)

pub count-append :
    (k h : ℕ) (hs : List ℕ) → count k (hs ++ h ∷ []) ≡ count k hs + (if h == k then 1 else 0)
count-append k h [] = omega arith
count-append k h (x ∷ hs) = omega (arith, count-append k h hs)

count-remove_first :
    (k h : ℕ) (hs : List ℕ)
    → count k (remove_first h hs) ≡ (if h == k then count k hs - 1 else count k hs)
unfolding remove_first
count-remove_first k h [] = ground arith
count-remove_first k h (x ∷ hs) = ground (arith, count-remove_first k h hs)

archive_block-IsTracked :
    (a : BlockArchive) (s : StatePruner) → IsTracked s → IsTracked (archive_block a s)
unfolding archive_block
archive_block-IsTracked a s t = record {
  once = λ k. ground (
    arith,
    contains-count a.height s.heights,
    count-append k a.height s.heights,
    t.once k,
    t.once a.height,
    lookup-insert a.height k a s.blocks,
    eq_of_eqb a.height k,
    eqb_self k,
  );
}

removed-IsTracked :
    (h : ℕ) (s : StatePruner)
    → IsTracked s
    → is_some (lookup h s.blocks) ≡ true
    → IsTracked (record s { blocks = remove h s.blocks; heights = remove_first h s.heights })
removed-IsTracked h s t there = record {
  once = λ k. ground (
    arith,
    count-remove_first k h s.heights,
    t.once k,
    lookup-remove h k s.blocks,
    eq_of_eqb h k,
    eqb_self k,
    there,
  );
}

prune_loop-IsTracked :
    (hs : List ℕ) (s : StatePruner) (n : ℕ) → IsTracked s → IsTracked (prune_loop hs s n).0
unfolding prune_loop
prune_loop-IsTracked [] s n t = t
prune_loop-IsTracked (h ∷ hs) s n t = elim (Bool-cases (is_some (lookup h s.blocks))) [
  | inl there ↦ rw there (prune_loop-IsTracked hs _ _ (removed-IsTracked h s t there))
  | inr absent ↦ rw absent (prune_loop-IsTracked hs s n t)
]

not_there : (o : Option BlockArchive) → is_some o ≡ false → o ≡ none
not_there none e = refl
not_there (some a) e = absurd (true≢false e)

lookup-prune_loop :
    (k : ℕ) (hs : List ℕ) (s : StatePruner) (n : ℕ)
    → lookup k (prune_loop hs s n).0.blocks ≡ (if contains k hs then none else lookup k s.blocks)
unfolding prune_loop
lookup-prune_loop k [] s n = refl
lookup-prune_loop k (h ∷ hs) s n = elim (Bool-cases (is_some (lookup h s.blocks))) [
  | inl there ↦ rw there (
      lookup-prune_loop k hs _ _
      ∙ ground (arith, lookup-remove h k s.blocks, eq_of_eqb h k, eqb_self k))
  | inr absent ↦
      rw absent (lookup-prune_loop k hs s n ∙ ground (arith, not_there (lookup h s.blocks) absent))
]

contains-filter_below :
    (k cutoff : ℕ) (hs : List ℕ)
    → contains k (filter_below cutoff hs) ≡ (contains k hs && ltb k cutoff)
unfolding filter_below
contains-filter_below k cutoff [] = refl
contains-filter_below k cutoff (h ∷ hs) = ground (arith, contains-filter_below k cutoff hs)

contains-get_blocks_to_prune :
    (k height : ℕ) (s : StatePruner)
    → contains k (get_blocks_to_prune height s) ≡ (
        should_prune height s
        && (contains k s.heights && ltb k (height - s.config.retention_blocks)))
unfolding get_blocks_to_prune
contains-get_blocks_to_prune k height s =
    ground (arith, contains-filter_below k (height - s.config.retention_blocks) s.heights)

-- the calls of a pruner
pub data Call : Type 0 where
  archives : BlockArchive → Call
  prunes : List ℕ → Call

abbrev pub run : List Call → StatePruner → StatePruner
run [] s = s
run (archives a ∷ cs) s = run cs (archive_block a s)
run (prunes hs ∷ cs) s = run cs (prune hs s).0

run-IsTracked : (cs : List Call) (s : StatePruner) → IsTracked s → IsTracked (run cs s)
unfolding prune
run-IsTracked [] s t = t
run-IsTracked (archives a ∷ cs) s t = run-IsTracked cs _ (archive_block-IsTracked a s t)
run-IsTracked (prunes hs ∷ cs) s t = run-IsTracked cs _ (prune_loop-IsTracked hs s 0 t)

-- whether pruning at a height removes a block
abbrev pub is_old : ℕ → ℕ → StatePruner → Bool
is_old height k s = should_prune height s && ltb k (height - s.config.retention_blocks)

tracked_prune :
    (height k : ℕ) (s : StatePruner)
    → IsTracked s
    → get_archive k (prune (get_blocks_to_prune height s) s).0
      ≡ (if is_old height k s then none else get_archive k s)
unfolding get_archive prune
tracked_prune height k s t =
    lookup-prune_loop k (get_blocks_to_prune height s) s 0
    ∙ ground (
      arith,
      contains-get_blocks_to_prune k height s,
      contains-count k s.heights,
      t.once k,
      not_there (lookup k s.blocks),
    )

-- After any sequence of archived blocks and of prunings on a new pruner, pruning what
-- get_blocks_to_prune lists at a height removes exactly the blocks that are old there: none where
-- should_prune answers false, and else every block below the height less the retention.
pub prune-is_old :
    (cs : List Call) (config : PruningConfig) (height k : ℕ)
    → get_archive k
        (prune (get_blocks_to_prune height (run cs (new config))) (run cs (new config))).0
      ≡ (if is_old height k (run cs (new config))
          then none
          else get_archive k (run cs (new config)))
unfolding new lookup
prune-is_old cs config height k =
    tracked_prune height k _ (run-IsTracked cs (new config) (record { once = λ k. refl }))
