-- ===== src/Settlement/Registry/Index.antt =====
-- crates/truth/src/settlement.rs: the index of operators by stake.
use lite_vision.Prelude.{
  ℕ, ◌-◌, ◌/◌, ◌≤◌, ◌≡◌, refl, Bool, false, not, ◌||◌, ◌&&◌, none, some, List, [], ◌∷◌, ◌++◌, ◌==◌,
  get_or, arith, ok, Option-cases, inl, inr,
}
use lite_vision.Ord.{nat_ord, eqb, eq_of_eqb, eqb_self}
use lite_vision.OrdMap.{Map, lookup}
use lite_vision.OrdMap.Lookup.{lookup-insert, lookup-update}
use lite_vision.Settlement.Registry.{
  OperatorState, OperatorRegistry, register, update_stake, slash, push_index, drop_index,
  retain_other,
}

-- `ids.contains(&id)`
abbrev pub has : ℕ → List ℕ → Bool
has id [] = false
has id (i ∷ ids) = (i == id) || has id ids

-- the operators that the index files under a bucket
abbrev pub bucket_of : ℕ → Map ℕ (List ℕ) → List ℕ
bucket_of b index = get_or (lookup b index) []

-- the operator is filed under the bucket of its stake
abbrev pub filed : ℕ → ℕ → Map ℕ (List ℕ) → Bool
filed id stake index = has id (bucket_of (stake / 1000) index)

has-retain_other :
    (id j : ℕ) (ids : List ℕ) → has j (retain_other id ids) ≡ (has j ids && not (id == j))
unfolding retain_other
has-retain_other id j [] = refl
has-retain_other id j (i ∷ ids) = ground (arith, has-retain_other id j ids)

has-push : (j id : ℕ) (ids : List ℕ) → has j (ids ++ id ∷ []) ≡ (has j ids || (id == j))
has-push j id [] = ground arith
has-push j id (i ∷ ids) = ground (arith, has-push j id ids)

has-push_index :
    (b c id j : ℕ) (index : Map ℕ (List ℕ))
    → has j (bucket_of c (push_index b id index))
      ≡ (has j (bucket_of c index) || (eqb b c && (id == j)))
unfolding push_index
has-push_index b c id j index = ground (
  arith,
  lookup-update b c [] (λ (ids : List ℕ). ids ++ id ∷ []) index,
  eq_of_eqb b c,
  has-push j id (bucket_of b index),
)

has-drop_index :
    (b c id j : ℕ) (index : Map ℕ (List ℕ))
    → has j (bucket_of c (drop_index b id index))
      ≡ (has j (bucket_of c index) && not (eqb b c && (id == j)))
unfolding drop_index
has-drop_index b c id j index = elim (Option-cases (lookup b index)) [
  | inl absent ↦ ground (arith, eq_of_eqb b c)
  | inr (ids, present) ↦ ground (
    arith,
    lookup-insert b c (retain_other id ids) index,
    eq_of_eqb b c,
    has-retain_other id j ids,
  )
]

-- Every operator is filed under the bucket of its stake and under no other, and the index holds
-- nobody else.
pub record IsIndexed (r : OperatorRegistry) : Type 0 where
  pub keyed : (id : ℕ) (o : OperatorState) → lookup id r.operators ≡ some o → o.id ≡ id
  pub known :
      (id : ℕ) (o : OperatorState) (b : ℕ)
      → lookup id r.operators ≡ some o
      → has id (bucket_of b r.stake_index) ≡ eqb (o.stake / 1000) b
  pub unknown :
      (id b : ℕ) → lookup id r.operators ≡ none → has id (bucket_of b r.stake_index) ≡ false

-- a new operator
pub register-IsIndexed :
    (o : OperatorState) (r : OperatorRegistry)
    → lookup o.id r.operators ≡ none
    → IsIndexed r
    → IsIndexed (register o r)
unfolding register
register-IsIndexed o r fresh h = record {
  keyed = λ id p found.
      ground (arith, lookup-insert o.id id o r.operators, h.keyed id p, eq_of_eqb o.id id);
  known = λ id p b found. ground (
    arith,
    lookup-insert o.id id o r.operators,
    h.known id p b,
    h.unknown id b,
    eq_of_eqb o.id id,
    eqb_self id,
    has-push_index (o.stake / 1000) b o.id id r.stake_index,
  );
  unknown = λ id b absent. ground (
    arith,
    lookup-insert o.id id o r.operators,
    h.unknown id b,
    eqb_self id,
    has-push_index (o.stake / 1000) b o.id id r.stake_index,
  );
}

-- a change of stake
pub update_stake-IsIndexed :
    (id stake : ℕ) (r : OperatorRegistry) → IsIndexed r → IsIndexed (update_stake id stake r).0
unfolding update_stake
update_stake-IsIndexed id stake r h = elim (Option-cases (lookup id r.operators)) [
  | inl absent ↦ rw (absent, update_stake) h
  | inr (o, found) ↦
      let o' : OperatorState = record o { stake = stake } in
      let index = drop_index (o.stake / 1000) o.id r.stake_index in
      rw (found, update_stake)
        (record {
          keyed = λ j p there.
              ground (
                arith,
                lookup-insert id j o' r.operators,
                h.keyed id o,
                h.keyed j p,
                eq_of_eqb id j,
              );
          known = λ j p b there. ground (
            arith,
            lookup-insert id j o' r.operators,
            h.known j p b,
            h.known id o b,
            h.keyed id o,
            eq_of_eqb id j,
            has-push_index (stake / 1000) b o.id j index,
            has-drop_index (o.stake / 1000) b o.id j r.stake_index,
            eqb_self j,
          );
          unknown = λ j b there. ground (
            arith,
            lookup-insert id j o' r.operators,
            h.unknown j b,
            h.keyed id o,
            eqb_self j,
            has-push_index (stake / 1000) b o.id j index,
            has-drop_index (o.stake / 1000) b o.id j r.stake_index,
          );
        })
]

-- Where every operator is filed under the bucket of its stake alone, a slash that the stake of a
-- registered operator covers succeeds and leaves the operator out of the bucket of its reduced
-- stake.
pub slash_unfiles :
    (id amount : ℕ) (r : OperatorRegistry) (o : OperatorState)
    → IsIndexed r
    → lookup id r.operators ≡ some o
    → amount ≤ o.stake
    → ((slash id amount r).1 ≡ ok amount)
      × (filed id (o.stake - amount) (slash id amount r).0.stake_index ≡ false)
unfolding slash
slash_unfiles id amount r o h found enough =
    let mine = h.keyed id o found in
    let cleared =
      has-drop_index ((o.stake - amount) / 1000) ((o.stake - amount) / 1000) o.id id
        r.stake_index in
    (ground arith, ground (arith, cleared, eqb_self ((o.stake - amount) / 1000), mine))

-- Where every operator is filed under the bucket of its stake alone, it stays so through the
-- registration of a new operator, a change of stake, successful or not, and the two in a row.
pub operations-IsIndexed :
    (o : OperatorState) (id stake : ℕ) (r : OperatorRegistry)
    → lookup o.id r.operators ≡ none
    → IsIndexed r
    → IsIndexed (register o r)
      × IsIndexed (update_stake id stake r).0
      × IsIndexed (update_stake id stake (register o r)).0
operations-IsIndexed o id stake r fresh h =
    let added = register-IsIndexed o r fresh h in
    (
      added,
      update_stake-IsIndexed id stake r h,
      update_stake-IsIndexed id stake (register o r) added,
    )
