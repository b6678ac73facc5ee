-- ===== src/Settlement/Registry/Standing.antt =====
-- crates/truth/src/settlement.rs: the reputation of an operator and the status that follows it.
use lite_vision.Prelude.{ℕ, ◌+◌, ◌≤◌, ◌<◌, ◌≡◌, refl, some, u64_mod, arith, inl, inr, Option-cases}
use lite_vision.Ord.{nat_ord}
use lite_vision.OrdMap.{lookup, insert}
use lite_vision.OrdMap.Lookup.{lookup-insert}
use lite_vision.Settlement.Registry.{
  OperatorState, OperatorRegistry, active, raised, lowered, increase_reputation,
  decrease_reputation, register,
}

-- what holds of every operator: the reputation is at most 10000, and one below 500 is not active
pub record IsStanding (r : OperatorRegistry) : Type 0 where
  pub capped : (id : ℕ) (o : OperatorState) → lookup id r.operators ≡ some o → o.reputation ≤ 10000
  pub trusted :
      (id : ℕ) (o : OperatorState)
      → lookup id r.operators ≡ some o
      → o.status ≡ active
      → 500 ≤ o.reputation

raised_lem :
    (delta : ℕ) (o : OperatorState)
    → o.reputation + delta < u64_mod
    → (o.status ≡ active → 500 ≤ o.reputation)
    → ((raised delta o).reputation ≤ 10000)
      × ((raised delta o).status ≡ active → 500 ≤ (raised delta o).reputation)
unfolding raised
raised_lem delta o room h = (ground arith, λ up. ground arith)

lowered_lem :
    (delta : ℕ) (o : OperatorState)
    → o.reputation ≤ 10000
    → ((lowered delta o).reputation ≤ 10000)
      × ((lowered delta o).status ≡ active → 500 ≤ (lowered delta o).reputation)
unfolding lowered
lowered_lem delta o cap = (ground arith, ground arith)

store-IsStanding :
    (id : ℕ) (o : OperatorState) (r : OperatorRegistry)
    → o.reputation ≤ 10000
    → (o.status ≡ active → 500 ≤ o.reputation)
    → IsStanding r
    → IsStanding (record r { operators = insert id o r.operators })
store-IsStanding id o r cap trust h = record {
  capped = λ j p found. ground (arith, lookup-insert id j o r.operators, h.capped j p);
  trusted = λ j p found up. ground (arith, lookup-insert id j o r.operators, h.trusted j p);
}

-- Where every reputation is at most 10000 and that of every active operator at least 500, it stays
-- so through a rise and a fall of the reputation of any operator by an amount that can be added to
-- 10000 in a u64.
pub reputation-IsStanding :
    (id delta : ℕ) (r : OperatorRegistry)
    → delta + 10000 < u64_mod
    → IsStanding r
    → IsStanding (increase_reputation id delta r) × IsStanding (decrease_reputation id delta r)
unfolding increase_reputation decrease_reputation
reputation-IsStanding id delta r room h = elim (Option-cases (lookup id r.operators)) [
  | inl absent ↦ rw (absent, increase_reputation, decrease_reputation) (h, h)
  | inr (o, found) ↦
      let cap = h.capped id o found in
      let (up_cap, up_trust) = raised_lem delta o (omega (arith, cap)) (h.trusted id o found) in
      let (down_cap, down_trust) = lowered_lem delta o cap in
      rw (found, increase_reputation, decrease_reputation)
        (
          store-IsStanding id (raised delta o) r up_cap up_trust h,
          store-IsStanding id (lowered delta o) r down_cap down_trust h,
        )
]

-- what the index of stakes is does not matter
pub IsStanding-operators :
    (q r : OperatorRegistry) → q.operators ≡ r.operators → IsStanding r → IsStanding q
IsStanding-operators q r same h = record {
  capped = λ id o found. h.capped id o (rw same at found);
  trusted = λ id o found. h.trusted id o (rw same at found);
}

-- A new operator must stand as the others do.
pub register-IsStanding :
    (o : OperatorState) (r : OperatorRegistry)
    → o.reputation ≤ 10000
    → 500 ≤ o.reputation
    → IsStanding r
    → IsStanding (register o r)
unfolding register
register-IsStanding o r cap trust h =
    IsStanding-operators _ (record r { operators = insert o.id o r.operators }) refl
      (store-IsStanding o.id o r cap (λ _. trust) h)
