-- ===== src/Validator/Set/Unique.antt =====
-- crates/truth/src/validator.rs: ValidatorSet holds each id once.
use lite_vision.Prelude.{
  ℕ, Option-cases, ◌+◌, ◌-◌, ◌==◌, ◌≡◌, ◌≤◌, refl, Bool-cases, inl, inr, false, List, [], ◌∷◌, ◌++◌,
  length, length-append, ltb, if◌then◌else◌, arith,
}
use lite_vision.OrdMap.{is_some}
use lite_vision.Validator
use lite_vision.Validator.{Validator, unjail}
use lite_vision.Validator.Set.{
  ValidatorSet, Factors, SlashType, set_new, find, get, modify, add, remove_first, remove, bond,
  unbond_start, unbond_complete, delegate, slash, release, epoch_loop, process_epoch_transition,
  insert_by_power, sorted_by_power, sort_by_power, max_validators,
}

-- how many validators have an id
abbrev pub count_id : ℕ → List Validator → ℕ
count_id id [] = 0
count_id id (v ∷ vs) = (if v.id == id then 1 else 0) + count_id id vs

-- two lists hold the same ids as often
abbrev SameIds : List Validator → List Validator → Type 0
SameIds vs ws = (length vs ≡ length ws) × ((id : ℕ) → count_id id vs ≡ count_id id ws)

count-append :
    (id : ℕ) (vs : List Validator) (v : Validator)
    → count_id id (vs ++ v ∷ []) ≡ count_id id vs + (if v.id == id then 1 else 0)
count-append id [] v = omega arith
count-append id (w ∷ vs) v = omega (arith, count-append id vs v)

count-find : (id : ℕ) (vs : List Validator) → is_some (find id vs) ≡ ltb 0 (count_id id vs)
unfolding find
count-find id [] = ground arith
count-find id (v ∷ vs) = ground (arith, count-find id vs)

count-remove_first :
    (k id : ℕ) (vs : List Validator)
    → count_id k (remove_first id vs) ≡ (if id == k then count_id k vs - 1 else count_id k vs)
unfolding remove_first
count-remove_first k id [] = ground arith
count-remove_first k id (v ∷ vs) = ground (arith, count-remove_first k id vs)

length-remove_first : (id : ℕ) (vs : List Validator) → length (remove_first id vs) ≤ length vs
unfolding remove_first
length-remove_first id [] = omega arith
length-remove_first id (v ∷ vs) = ground (arith, length-remove_first id vs)

modify-SameIds :
    (id : ℕ) (f : Validator → Validator)
    → ((v : Validator) → (f v).id ≡ v.id)
    → (vs : List Validator) → SameIds (modify id f vs) vs
unfolding modify
modify-SameIds id f same [] = (refl, λ k. refl)
modify-SameIds id f same (v ∷ vs) = (
  ground (arith, (modify-SameIds id f same vs).0),
  λ k. ground (arith, (modify-SameIds id f same vs).1 k, same v),
)

release-id : (epoch : ℕ) (v : Validator) → (release epoch v).id ≡ v.id
unfolding release unjail
release-id epoch v = ground arith

epoch_loop-SameIds : (epoch : ℕ) (vs : List Validator) → SameIds (epoch_loop epoch vs).0 vs
unfolding epoch_loop
epoch_loop-SameIds epoch [] = (refl, λ k. refl)
epoch_loop-SameIds epoch (v ∷ vs) = (
  omega (arith, (epoch_loop-SameIds epoch vs).0),
  λ k. ground (arith, (epoch_loop-SameIds epoch vs).1 k, release-id epoch v),
)

insert_by_power-SameIds :
    (v : Validator) (ws : List Validator) → SameIds (insert_by_power v ws) (v ∷ ws)
insert_by_power-SameIds v [] = (refl, λ k. refl)
insert_by_power-SameIds v (w ∷ ws) = (
  ground (arith, (insert_by_power-SameIds v ws).0),
  λ k. ground (arith, (insert_by_power-SameIds v ws).1 k),
)

sorted_by_power-SameIds : (vs : List Validator) → SameIds (sorted_by_power vs) vs
sorted_by_power-SameIds [] = (refl, λ k. refl)
sorted_by_power-SameIds (v ∷ vs) = (
  omega (arith, (insert_by_power-SameIds v (sorted_by_power vs)).0, (sorted_by_power-SameIds vs).0),
  λ k. omega (
    arith,
    (insert_by_power-SameIds v (sorted_by_power vs)).1 k,
    (sorted_by_power-SameIds vs).1 k,
  ),
)

-- the list is no longer than it may be and holds each id once
pub record IsUnique (s : ValidatorSet) : Type 0 where
  pub few : length s.validators ≤ max_validators
  pub once : (id : ℕ) → count_id id s.validators ≤ 1

same-IsUnique : (s t : ValidatorSet) → SameIds t.validators s.validators → IsUnique s → IsUnique t
same-IsUnique s t same u = record {
  few = omega (arith, u.few, same.0);
  once = λ id. omega (arith, u.once id, same.1 id);
}

-- the calls of a set
pub data Call : Type 0 where
  adds : Validator → Call
  removes : ℕ → Call
  bonds : ℕ → ℕ → Call
  starts : ℕ → Call
  completes : ℕ → Call
  delegates : ℕ → ℕ → ℕ → Call
  slashes : ℕ → SlashType → ℕ → Call
  passes : ℕ → Call
  sorts : Call

abbrev pub call : Factors → Call → ValidatorSet → ValidatorSet
call h (adds v) s = (add v s).0
call h (removes id) s = (remove id s).0
call h (bonds id amount) s = (bond id amount s).0
call h (starts id) s = (unbond_start id s).0
call h (completes id) s = (unbond_complete id s).0
call h (delegates delegator id amount) s = (delegate delegator id amount s).0
call h (slashes id slash_type evidence) s = (slash h id slash_type evidence s).0
call h (passes epoch) s = (process_epoch_transition epoch s).0
call h sorts s = sort_by_power s

abbrev pub run : Factors → List Call → ValidatorSet → ValidatorSet
run h [] s = s
run h (c ∷ cs) s = run h cs (call h c s)

add-IsUnique : (v : Validator) (s : ValidatorSet) → IsUnique s → IsUnique (add v s).0
unfolding add
add-IsUnique v s u = record {
  few = ground (arith, u.few, length-append s.validators (v ∷ []));
  once = λ id.
      ground (
        arith,
        u.once id,
        count-append id s.validators v,
        count-find v.id s.validators,
        u.once v.id,
      );
}

remove-IsUnique : (id : ℕ) (s : ValidatorSet) → IsUnique s → IsUnique (remove id s).0
unfolding remove
remove-IsUnique id s u = record {
  few = ground (arith, u.few, length-remove_first id s.validators);
  once = λ k. ground (arith, u.once k, count-remove_first k id s.validators);
}

-- what changes one validator and keeps its id
modified :
    (id : ℕ) (f : Validator → Validator) (s t : ValidatorSet)
    → ((v : Validator) → (f v).id ≡ v.id)
    → t.validators ≡ modify id f s.validators
    → IsUnique s
    → IsUnique t
modified id f s t same e u = same-IsUnique s t (rw e (modify-SameIds id f same s.validators)) u

call-IsUnique : (h : Factors) (c : Call) (s : ValidatorSet) → IsUnique s → IsUnique (call h c s)
unfolding bond unbond_start unbond_complete delegate slash process_epoch_transition sort_by_power
    get Validator.update_stake Validator.start_unbonding Validator.remove Validator.add_delegation
    Validator.jail
call-IsUnique h (adds v) s u = add-IsUnique v s u
call-IsUnique h (removes id) s u = remove-IsUnique id s u
call-IsUnique h (bonds id amount) s u = elim (Option-cases (find id s.validators)) [
  | inl e ↦ rw (call, bond, e) u
  | inr (v, e) ↦ rw (call, bond, e) (modified id _ s _ (λ w. refl) refl u)
]
call-IsUnique h (starts id) s u = elim (Option-cases (find id s.validators)) [
  | inl e ↦ rw (call, unbond_start, e) u
  | inr (v, e) ↦ elim (Bool-cases (Validator.is_active_status v.status)) [
    | inl a ↦ rw (call, unbond_start, e, a) (modified id _ s _ (λ w. refl) refl u)
    | inr a ↦ rw (call, unbond_start, e, a) u
  ]
]
call-IsUnique h (completes id) s u = elim (Option-cases (find id s.validators)) [
  | inl e ↦ rw (call, unbond_complete, e) u
  | inr (v, e) ↦ elim (Bool-cases (Validator.can_unbond s.current_epoch v)) [
    | inl a ↦ rw (call, unbond_complete, e, a) (modified id _ s _ (λ w. refl) refl u)
    | inr a ↦ rw (call, unbond_complete, e, a) u
  ]
]
call-IsUnique h (delegates delegator id amount) s u = elim (Option-cases (find id s.validators)) [
  | inl e ↦ rw (call, delegate, e) u
  | inr (v, e) ↦ elim (Bool-cases (Validator.is_active_status v.status)) [
    | inl a ↦ rw (call, delegate, e, a) (modified id _ s _ (λ w. refl) refl u)
    | inr a ↦ rw (call, delegate, e, a) u
  ]
]
call-IsUnique h (slashes id slash_type evidence) s u = elim (Option-cases (find id s.validators)) [
  | inl e ↦ rw (call, slash, e) u
  | inr (v, e) ↦ rw (call, slash, e) (modified id _ s _ (λ w. refl) refl u)
]
call-IsUnique h (passes epoch) s u = same-IsUnique s _ (epoch_loop-SameIds epoch s.validators) u
call-IsUnique h sorts s u = same-IsUnique s _ (sorted_by_power-SameIds s.validators) u

new-IsUnique : IsUnique set_new
unfolding set_new
new-IsUnique = record { few = omega arith; once = λ id. omega arith }

run-IsUnique :
    (h : Factors) (cs : List Call) (s : ValidatorSet) → IsUnique s → IsUnique (run h cs s)
run-IsUnique h [] s u = u
run-IsUnique h (c ∷ cs) s u = run-IsUnique h cs (call h c s) (call-IsUnique h c s u)

-- a removal leaves no validator with the id
remove-get : (id : ℕ) (s : ValidatorSet) → IsUnique s → is_some (get id (remove id s).0) ≡ false
unfolding get remove
remove-get id s u = ground (
  arith,
  u.once id,
  count-find id s.validators,
  count-find id (remove_first id s.validators),
  count-remove_first id id s.validators,
)

-- After any sequence of calls on a new set, whatever the faults cost: it holds at most 100
-- validators, no id more than once, and after the removal of an id get finds no validator with it.
pub run_holds_once :
    (h : Factors) (cs : List Call) (id : ℕ)
    → (length (run h cs set_new).validators ≤ max_validators)
      × (count_id id (run h cs set_new).validators ≤ 1)
      × (is_some (get id (remove id (run h cs set_new)).0) ≡ false)
run_holds_once h cs id =
    let u = run-IsUnique h cs set_new new-IsUnique in (u.few, u.once id, remove-get id _ u)
