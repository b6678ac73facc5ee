-- ===== src/CrossPartition/Receipts.antt =====
-- crates/truth/src/cross_partition.rs: histories of the receipt registry.
use lite_vision.Prelude.{
  ℕ, ◌≡◌, ◌≢◌, refl, sym, ap, ◌∙◌, Bool, Bool-cases, Option-cases, true, false, none, some, List,
  [], ◌∷◌, Result, ok, err, inl, inr,
}
use mathlib.Core.Bool.{true≢false}
use mathlib.Core.Option.{none-ne-some}
use lite_vision.Ord.{nat_ord, pair_ord, eqb, eq_of_eqb}
use lite_vision.OrdMap.{lookup, insert, contains_key, member, add_key}
use lite_vision.OrdMap.Lookup.{lookup-insert}
use lite_vision.CrossPartition.{
  ArtifactCommit, ReceiptEntry, ReceiptRegistry, ReceiptError, duplicate_receipt, nonce_reused,
  receipts_new, register_receipt, get_receipt,
}

-- A pair has nonces only if it has a receipt.
pub IsPaired : ReceiptRegistry → Type 0
IsPaired s = (key : ℕ × ℕ) → lookup key s.receipts ≡ none → lookup key s.execution_nonces ≡ none

abbrev key_of : ArtifactCommit → ℕ × ℕ
key_of c = (c.job_id, c.operator_id)

abbrev entry_of : ArtifactCommit → ReceiptEntry
entry_of c = record {
  output_hash = c.output_hash;
  operator_id = c.operator_id;
  block_height = c.block_height;
}

-- what a first commit stores
abbrev registered : ArtifactCommit → ReceiptRegistry → ReceiptRegistry
registered c s = record {
  receipts = insert (key_of c) (entry_of c) s.receipts;
  execution_nonces = insert (key_of c) (add_key c.execution_nonce []) s.execution_nonces;
}

register_new :
    (c : ArtifactCommit) (s : ReceiptRegistry)
    → IsPaired s
    → lookup (key_of c) s.receipts ≡ none
    → register_receipt c s ≡ (registered c s, ok tt)
unfolding IsPaired register_receipt contains_key member lookup
register_new c s paired absent = rw (absent, paired (key_of c) absent) refl

register_known :
    (c : ArtifactCommit) (s : ReceiptRegistry) (e : ReceiptEntry)
    → lookup (key_of c) s.receipts ≡ some e
    → register_receipt c s ≡ (s, err duplicate_receipt)
unfolding register_receipt contains_key
register_known c s e found = rw found refl

registered-IsPaired :
    (c : ArtifactCommit) (s : ReceiptRegistry) → IsPaired s → IsPaired (registered c s)
unfolding IsPaired
registered-IsPaired c s paired key absent = elim (Bool-cases (eqb (key_of c) key)) [
  | inl same ↦ absurd (none-ne-some (entry_of c) (sym absent ∙ rw (lookup-insert, same) refl))
  | inr other ↦ rw (lookup-insert, other) (paired key (rw (lookup-insert, other) at absent))
]

register-IsPaired :
    (c : ArtifactCommit) (s : ReceiptRegistry) → IsPaired s → IsPaired (register_receipt c s).0
register-IsPaired c s paired = elim (Option-cases (lookup (key_of c) s.receipts)) [
  | inl absent ↦ rw (register_new c s paired absent) (registered-IsPaired c s paired)
  | inr (e, found) ↦ rw (register_known c s e found) paired
]

abbrev pub register_all : List ArtifactCommit → ReceiptRegistry → ReceiptRegistry
register_all [] s = s
register_all (c ∷ cs) s = register_all cs (register_receipt c s).0

register_all-IsPaired :
    (cs : List ArtifactCommit) (s : ReceiptRegistry) → IsPaired s → IsPaired (register_all cs s)
register_all-IsPaired [] s paired = paired
register_all-IsPaired (c ∷ cs) s paired =
    register_all-IsPaired cs (register_receipt c s).0 (register-IsPaired c s paired)

register_kept :
    (c : ArtifactCommit) (job operator : ℕ) (s : ReceiptRegistry) (e : ReceiptEntry)
    → IsPaired s
    → get_receipt job operator s ≡ some e
    → get_receipt job operator (register_receipt c s).0 ≡ some e
unfolding get_receipt
register_kept c job operator s e paired found = elim (Option-cases (lookup (key_of c) s.receipts)) [
  | inl absent ↦
      rw (register_new c s paired absent) (elim (Bool-cases (eqb (key_of c) (job, operator))) [
        | inl same ↦
            absurd
              (none-ne-some e (sym absent ∙ rw (eq_of_eqb (key_of c) (job, operator) same) found))
        | inr other ↦ rw (lookup-insert, other) found
      ])
  | inr (d, known) ↦ rw (register_known c s d known) found
]

register_all-kept :
    (cs : List ArtifactCommit) (job operator : ℕ) (s : ReceiptRegistry) (e : ReceiptEntry)
    → IsPaired s
    → get_receipt job operator s ≡ some e
    → get_receipt job operator (register_all cs s) ≡ some e
register_all-kept [] job operator s e paired found = found
register_all-kept (c ∷ cs) job operator s e paired found =
    register_all-kept cs job operator _ e (register-IsPaired c s paired)
      (register_kept c job operator s e paired found)

abbrev is_reused : Result ReceiptError (Unit {0}) → Bool
is_reused (err nonce_reused) = true
is_reused _ = false

never_reused :
    (c : ArtifactCommit) (s : ReceiptRegistry)
    → IsPaired s
    → (register_receipt c s).1 ≢ err nonce_reused
never_reused c s paired h = elim (Option-cases (lookup (key_of c) s.receipts)) [
  | inl absent ↦ clash (register_new c s paired absent) refl
  | inr (e, found) ↦ clash (register_known c s e found) refl
]
  where
    clash :
        {o : ReceiptRegistry × Result ReceiptError (Unit {0})}
        → register_receipt c s ≡ o
        → is_reused o.1 ≡ false
        → ⊥
    clash e other = true≢false (
        sym (ap is_reused h)
        ∙ ap (λ (o : ReceiptRegistry × Result ReceiptError (Unit {0})). is_reused o.1) e
        ∙ other)

-- In a registry that any sequence of commits has built, a receipt that is there stays as it is
-- under any further commits, and no commit is refused for a nonce that was used before.
pub register_receipt_final :
    (before after : List ArtifactCommit) (c : ArtifactCommit) (job operator : ℕ) (e : ReceiptEntry)
    → get_receipt job operator (register_all before receipts_new) ≡ some e
    → (get_receipt job operator (register_all after (register_all before receipts_new)) ≡ some e)
      × ((register_receipt c (register_all before receipts_new)).1 ≢ err nonce_reused)
unfolding receipts_new IsPaired lookup
register_receipt_final before after c job operator e found =
    let paired = register_all-IsPaired before receipts_new (λ key absent. refl) in
    (register_all-kept after job operator _ e paired found, never_reused c _ paired)
