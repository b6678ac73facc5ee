-- ===== src/Sync/Heights.antt =====
-- crates/truth/src/sync.rs: the heights that StateSync answers and those that it misses.
use lite_vision.Prelude.{
  ℕ, ◌≤◌, All, All-imp, zero, suc, ◌+◌, ◌-◌, ◌==◌, ◌≡◌, refl, ◌∙◌, Bool, true, not, ◌&&◌, ◌||◌,
  List, [], ◌∷◌, ◌++◌, ap, inl, inr, Bool-cases, ==_iff, leb, ltb, if◌then◌else◌, arith,
}
use lite_vision.Pruning.Exact.{count, count-append}
use lite_vision.Sync.{
  SyncHeader, StateSync, insert_sorted, sort, has_header, headers_loop, process_headers,
  filter_missing, get_missing_heights,
}

count-insert_sorted :
    (k x : ℕ) (xs : List ℕ) → count k (insert_sorted x xs) ≡ (if x == k then 1 else 0) + count k xs
count-insert_sorted k x [] = refl
count-insert_sorted k x (y ∷ ys) = ground (arith, count-insert_sorted k x ys)

count-sort : (k : ℕ) (xs : List ℕ) → count k (sort xs) ≡ count k xs
count-sort k [] = refl
count-sort k (x ∷ xs) = omega (arith, count-insert_sorted k x (sort xs), count-sort k xs)

has_header-append :
    (k : ℕ) (h : SyncHeader) (hs : List SyncHeader)
    → has_header k (hs ++ h ∷ []) ≡ (has_header k hs || (h.height == k))
unfolding has_header
has_header-append k h [] = ground arith
has_header-append k h (x ∷ hs) = ground (arith, has_header-append k h hs)

-- a number that equals another is received with it, for `ground`
same_header : (a b : ℕ) (hs : List SyncHeader) → (a == b) ≡ true → has_header a hs ≡ has_header b hs
same_header a b hs e = ap (λ x. has_header x hs) ((==_iff a b).0 e)

has_header-headers_loop :
    (k : ℕ) (hs rs : List SyncHeader) (acc : List ℕ)
    → has_header k (headers_loop hs rs acc).0 ≡ (has_header k rs || has_header k hs)
unfolding headers_loop has_header
has_header-headers_loop k [] rs acc = ground arith
has_header-headers_loop k (h ∷ hs) rs acc = elim (Bool-cases (has_header h.height rs)) [
  | inl old ↦
      rw old (has_header-headers_loop k hs rs acc ∙ ground (arith, same_header h.height k rs))
  | inr fresh ↦ rw fresh (
      has_header-headers_loop k hs (rs ++ h ∷ []) (acc ++ h.height ∷ [])
      ∙ ground (arith, has_header-append k h rs))
]

count-headers_loop :
    (k : ℕ) (hs rs : List SyncHeader) (acc : List ℕ)
    → count k (headers_loop hs rs acc).1
      ≡ count k acc + (if has_header k hs && not (has_header k rs) then 1 else 0)
unfolding headers_loop has_header
count-headers_loop k [] rs acc = ground arith
count-headers_loop k (h ∷ hs) rs acc = elim (Bool-cases (has_header h.height rs)) [
  | inl old ↦ rw old (count-headers_loop k hs rs acc ∙ ground (arith, same_header h.height k rs))
  | inr fresh ↦ rw fresh (
      count-headers_loop k hs (rs ++ h ∷ []) (acc ++ h.height ∷ [])
      ∙ ground
          (arith, has_header-append k h rs, count-append k h.height acc, same_header h.height k rs))
]

count-filter_missing :
    (k : ℕ) (rs : List SyncHeader) (from n : ℕ)
    → count k (filter_missing rs from n)
      ≡ (if not (has_header k rs) && (leb from k && ltb k (from + n)) then 1 else 0)
unfolding filter_missing
count-filter_missing k rs from zero = ground arith
count-filter_missing k rs from (suc n) =
    ground (arith, count-filter_missing k rs (from + 1) n, same_header from k rs)

abbrev pub IsAscending : List ℕ → Type 0
IsAscending [] = Unit
IsAscending (x ∷ xs) = All (λ y. x ≤ y) xs × IsAscending xs

All-insert_sorted :
    (m x : ℕ) (ys : List ℕ) → m ≤ x → All (λ y. m ≤ y) ys → All (λ y. m ≤ y) (insert_sorted x ys)
All-insert_sorted m x [] h hs = (h, tt)
All-insert_sorted m x (y ∷ ys) h hs = elim (Bool-cases (leb x y)) [
  | inl e ↦ rw e (h, hs)
  | inr e ↦ rw e (hs.0, All-insert_sorted m x ys h hs.1)
]

insert_sorted-IsAscending :
    (x : ℕ) (ys : List ℕ) → IsAscending ys → IsAscending (insert_sorted x ys)
insert_sorted-IsAscending x [] h = (tt, tt)
insert_sorted-IsAscending x (y ∷ ys) h = elim (Bool-cases (leb x y)) [
  | inl e ↦ rw e ((ground arith, All-imp (λ z le. ground arith) ys h.0), h)
  | inr e ↦ rw e (All-insert_sorted y x ys (ground arith) h.0, insert_sorted-IsAscending x ys h.1)
]

sort-IsAscending : (xs : List ℕ) → IsAscending (sort xs)
sort-IsAscending [] = tt
sort-IsAscending (x ∷ xs) = insert_sorted-IsAscending x (sort xs) (sort-IsAscending xs)

process_headers-IsAscending :
    (hs : List SyncHeader) (s : StateSync) → IsAscending (process_headers hs s).1
unfolding process_headers
process_headers-IsAscending hs s = sort-IsAscending (headers_loop hs s.received_headers []).1

has_header-process_headers :
    (k : ℕ) (hs : List SyncHeader) (s : StateSync)
    → has_header k (process_headers hs s).0.received_headers
      ≡ (has_header k s.received_headers || has_header k hs)
unfolding process_headers
has_header-process_headers k hs s = has_header-headers_loop k hs s.received_headers []

count-process_headers :
    (k : ℕ) (hs : List SyncHeader) (s : StateSync)
    → count k (process_headers hs s).1
      ≡ (if has_header k hs && not (has_header k s.received_headers) then 1 else 0)
unfolding process_headers
count-process_headers k hs s =
    count-sort k (headers_loop hs s.received_headers []).1
    ∙ (count-headers_loop k hs s.received_headers [] ∙ omega arith)

-- whether a height is in `from..=to`
abbrev pub is_within : ℕ → ℕ → ℕ → Bool
is_within from to k = leb from k && leb k to

count-get_missing_heights :
    (k from to : ℕ) (s : StateSync)
    → count k (get_missing_heights from to s)
      ≡ (if not (has_header k s.received_headers) && is_within from to k then 1 else 0)
unfolding get_missing_heights
count-get_missing_heights k from to s =
    count-filter_missing k s.received_headers from (to + 1 - from) ∙ ground arith

-- The heights that process_headers answers ascend and are each answered once, and within any range
-- from..=to a height was missing before exactly when it is missing after or is answered, never
-- both.
pub process_headers_fills :
    (hs : List SyncHeader) (s : StateSync) (from to k : ℕ)
    → IsAscending (process_headers hs s).1
      × (count k (process_headers hs s).1 ≤ 1)
      × (count k (get_missing_heights from to s)
          ≡ count k (get_missing_heights from to (process_headers hs s).0)
            + (if is_within from to k then count k (process_headers hs s).1 else 0))
process_headers_fills hs s from to k = (
  process_headers-IsAscending hs s,
  ground (arith, count-process_headers k hs s),
  ground (
    arith,
    count-process_headers k hs s,
    count-get_missing_heights k from to s,
    count-get_missing_heights k from to (process_headers hs s).0,
    has_header-process_headers k hs s,
  ),
)
