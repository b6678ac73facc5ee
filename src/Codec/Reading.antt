-- ===== src/Codec/Reading.antt =====
-- crates/core/src/canonical.rs: what a read does to any reader.
use lite_vision.Prelude.{
  ℕ, zero, suc, ◌+◌, ◌*◌, ◌<◌, ◌≤◌, ◌≡◌, refl, ◌∙◌, Bool-cases, Option, some, length, take, drop,
  leb, ltb, arith, Result, ok, err,
}
use mathlib.Core.Logic.{◌⊎◌, inl, inr}
use lite_vision.Codec.{
  CoreError, invalid_encoding, ByteReader, Read, read_bytes, read_u8, first, read_groups,
  read_varint,
}

-- `r` has the bytes of `self` and stands at most n of them further on, not past the end.
pub record Advanced (n : ℕ) (self r : ByteReader) : Type 0 where
  pub same_input : r.input ≡ self.input
  pub forward : self.position ≤ r.position
  pub at_most : r.position ≤ self.position + n
  pub inside : r.position ≤ length r.input

abbrev pub IsInside : ByteReader → Type 0
IsInside self = self.position ≤ length self.input

abbrev Advances : {A : Type 0} → ℕ → ByteReader → Option (Read A) → Type 0
Advances {A} n self answer =
    (r : ByteReader) × (a : Result CoreError A) × (answer ≡ some (r, a)) × Advanced n self r

-- A byte is read, or the reader is at its end.
read_u8_cases :
    (self : ByteReader)
    → self.position ≤ length self.input
    → ((b : ℕ) × (r : ByteReader) × (read_u8 self ≡ (r, ok b)) × Advanced 1 self r)
      ⊎ (read_u8 self ≡ (self, err invalid_encoding))
unfolding read_u8 read_bytes
read_u8_cases self h = elim (Bool-cases (ltb (length self.input) (self.position + 1))) [
  | inl out ↦ inr (rw out refl)
  | inr inside ↦ inl (
    first (take 1 (drop self.position self.input)),
    record self { position = self.position + 1 },
    rw inside refl,
    record {
      same_input = refl;
      forward = omega arith;
      at_most = omega arith;
      inside = ground (arith, inside);
    },
  )
]

step :
    {A : Type 0} {n : ℕ} {self r : ByteReader} {answer : Option (Read A)}
    → Advanced 1 self r
    → Advances n r answer
    → Advances (suc n) self answer
step now (last, a, e, h) = (
  last,
  a,
  e,
  record {
    same_input = h.same_input ∙ now.same_input;
    forward = omega (arith, h.forward, now.forward);
    at_most = omega (arith, h.at_most, now.at_most);
    inside = h.inside;
  },
)

stays : (n : ℕ) (self : ByteReader) → IsInside self → Advanced n self self
stays n self h = record {
  same_input = refl;
  forward = omega arith;
  at_most = omega arith;
  inside = h;
}

read_groups-Advances :
    (fuel shift result : ℕ) (self : ByteReader)
    → IsInside self
    → shift < 64
    → 64 ≤ shift + 7 * fuel
    → Advances fuel self (read_groups fuel shift result self)
unfolding read_groups
read_groups-Advances zero shift result self h hs hf = absurd (omega arith)
read_groups-Advances (suc fuel) shift result self h hs hf = elim (read_u8_cases self h) [
  | inr out ↦ rw out (self, err invalid_encoding, refl, stays (suc fuel) self h)
  | inl (b, r, read, now) ↦ rw read (elim (Bool-cases (ltb b 128)) [
    | inl last ↦ rw last (step now (r, _, refl, stays fuel r now.inside))
    | inr more ↦ rw more (elim (Bool-cases (leb 64 (shift + 7))) [
      | inl over ↦ rw over (step now (r, _, refl, stays fuel r now.inside))
      | inr under ↦ rw under (
          step now (
            read_groups-Advances fuel (shift + 7) _ r now.inside (ground (arith, under))
              (omega arith)))
    ])
  ])
]

-- From every position inside the bytes, and whatever the bytes are, read_varint ends within ten
-- rounds with a value or an error; it does not change the bytes, and moves the position forward by
-- at most ten and not past the end.
pub read_varint_total :
    (self : ByteReader)
    → IsInside self
    → (r : ByteReader) × (a : Result CoreError ℕ) × (read_varint self ≡ some (r, a))
      × Advanced 10 self r
unfolding read_varint
read_varint_total self h = read_groups-Advances 10 0 0 self h (omega arith) (omega arith)
