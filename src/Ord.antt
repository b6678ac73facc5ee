-- ===== src/Ord.antt =====
-- The trait `Ord` of the keys of `BTreeMap` and `BTreeSet`, with the laws that the trait asks of
-- `cmp`, its instance at the unsigned integers and at tuples, and the test of equality.
use Prim.Native.Nat.Ordering.{lt, eq, gt}
use lite_vision.Prelude.{ℕ, ◌≡◌, refl, ◌⊎◌, inl, inr, Bool, true, false, Ordering, compare, arith}

-- `gt` mirrors `lt`, `eq` is equality and `lt` is transitive.
pub record Ord {ℓ} (K : Type ℓ) : Type ℓ where
  pub cmp : K → K → Ordering
  pub cmp_self : (a : K) → cmp a a ≡ eq
  pub cmp_eq : (a b : K) → cmp a b ≡ eq → a ≡ b
  pub cmp_flip : (a b : K) → cmp a b ≡ gt → cmp b a ≡ lt
  pub cmp_trans : (a b c : K) → cmp a b ≡ lt → cmp b c ≡ lt → cmp a c ≡ lt

-- a < b as the order of the keys
abbrev pub ◌≺◌ {ℓ} : {K : Type ℓ} ⦃o : Ord K⦄ → K → K → Type 0
◌≺◌ ⦃o⦄ a b = o.cmp a b ≡ lt

infix 50 ◌≺◌
abbrev is_eq : Ordering → Bool
is_eq eq = true
is_eq lt = false
is_eq gt = false

-- `==` of a key type
unfoldable pub eqb {ℓ} : {K : Type ℓ} ⦃o : Ord K⦄ → K → K → Bool
eqb ⦃o⦄ a b = is_eq (o.cmp a b)

module _ {ℓ} {K : Type ℓ} ⦃o : Ord K⦄ where
  pub eqb_self : (a : K) → eqb a a ≡ true
  unfolding eqb
  eqb_self a = rw (o.cmp_self a)

  pub eq_of_eqb : (a b : K) → eqb a b ≡ true → a ≡ b
  unfolding eqb
  eq_of_eqb a b h = o.cmp_eq a b (ground arith)

  pub eqb_lt : (a b : K) → a ≺ b → eqb a b ≡ false
  unfolding eqb
  eqb_lt a b h = rw h

  pub eqb-gt : (a b : K) → o.cmp a b ≡ gt → eqb a b ≡ false
  unfolding eqb
  eqb-gt a b h = rw h

  pub eqb_ne : (a b : K) → (a ≡ b → ⊥) → eqb a b ≡ false
  eqb_ne a b h = ground (arith, eq_of_eqb a b)

pub compare_flip : (a b : ℕ) → compare a b ≡ gt → compare b a ≡ lt
compare_flip a b h = ground arith

pub compare_trans : (a b c : ℕ) → compare a b ≡ lt → compare b c ≡ lt → compare a c ≡ lt
compare_trans a b c h k = ground arith

pub compare_self : (a : ℕ) → compare a a ≡ eq
compare_self a = ground arith

pub compare-eq : (a b : ℕ) → compare a b ≡ eq → a ≡ b
compare-eq a b h = ground arith

-- u64, u32, and `[u8; 32]` read as the big-endian number that orders as the bytes do
instance abbrev pub nat_ord : Ord ℕ
nat_ord = record {
  cmp = compare;
  cmp_self = compare_self;
  cmp_eq = compare-eq;
  cmp_flip = compare_flip;
  cmp_trans = compare_trans;
}

abbrev pub lex : Ordering → Ordering → Ordering
lex eq second = second
lex lt _ = lt
lex gt _ = gt

-- The derived order of a record of two numbers: the first field, then the second.
abbrev pub pair_cmp : ℕ × ℕ → ℕ × ℕ → Ordering
pair_cmp (a, b) (c, d) = lex (compare a c) (compare b d)

pub pair_cmp_self : (x : ℕ × ℕ) → pair_cmp x x ≡ eq
pair_cmp_self (a, b) = ground arith

pub pair_cmp-eq : (x y : ℕ × ℕ) → pair_cmp x y ≡ eq → x ≡ y
pair_cmp-eq (a, b) (c, d) h = ground arith

pub pair_cmp_flip : (x y : ℕ × ℕ) → pair_cmp x y ≡ gt → pair_cmp y x ≡ lt
pair_cmp_flip (a, b) (c, d) h = ground arith

pub pair_cmp_trans : (x y z : ℕ × ℕ) → pair_cmp x y ≡ lt → pair_cmp y z ≡ lt → pair_cmp x z ≡ lt
pair_cmp_trans (a, b) (c, d) (e, f) h k = ground arith

instance abbrev pub pair_ord : Ord (ℕ × ℕ)
pair_ord = record {
  cmp = pair_cmp;
  cmp_self = pair_cmp_self;
  cmp_eq = pair_cmp-eq;
  cmp_flip = pair_cmp_flip;
  cmp_trans = pair_cmp_trans;
}

pub Ordering-cases : (c : Ordering) → (c ≡ lt) ⊎ ((c ≡ eq) ⊎ (c ≡ gt))
Ordering-cases lt = inl refl
Ordering-cases eq = inr (inl refl)
Ordering-cases gt = inr (inr refl)

pub gt_of_lt {ℓ} : {K : Type ℓ} ⦃o : Ord K⦄ (a b : K) → a ≺ b → o.cmp b a ≡ gt
gt_of_lt ⦃o⦄ a b h = elim (Ordering-cases (o.cmp b a)) [
  | inl p ↦ cc (o.cmp_trans a b a h p, o.cmp_self a)
  | inr (inl p) ↦ let e : b ≡ a = o.cmp_eq b a p in cc (o.cmp_self a)
  | inr (inr p) ↦ p
]
