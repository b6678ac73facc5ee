-- ===== src/Codec/Varint.antt =====
-- crates/core/src/canonical.rs: write_varint and read_varint.
use lite_vision.Prelude.{
  ℕ, zero, suc, ◌+◌, ◌*◌, ◌/◌, ◌%◌, ◌^◌, ◌<◌, ◌≤◌, ◌≡◌, refl, ap, ◌∙◌, Bool-cases, true, false,
  some, List, [], ◌∷◌, ◌++◌, length, ◌==◌, leb, ltb, if◌then◌else◌, arith, ok, u64_mod,
}
use mathlib.Core.List.{append_assoc}
use mathlib.Core.Logic.{inl, inr}
use lite_vision.Codec.{
  ByteWriter, map_read, read_u8, first, groups, read_groups, write_varint, read_varint, write_bytes,
}
use lite_vision.Codec.At.{reader_at, read_bytes-at}
use native.Mathlib.Nat.{div-add-mod}
use native.Mathlib.Numerals.{towards_suc}

-- The base-128 groups of `v`, at most k + 1 of them, the lowest first.
unfoldable pub encoding : ℕ → ℕ → List ℕ
encoding zero v = (v % 128) ∷ []
encoding (suc k) v =
    let rest = encoding k (v / 128) in
    if v / 128 == 0 then (v % 128) ∷ [] else (v % 128 + 128) ∷ rest

groups-encoding : (k v : ℕ) → v < 128 ^ suc k → groups (suc k) v ≡ some (encoding k v)
unfolding groups encoding
groups-encoding zero v h = ground arith
groups-encoding (suc k) v h = ground (arith, groups-encoding k (v / 128))

pub length-encoding : (k v : ℕ) → length (encoding k v) ≤ suc k
unfolding encoding
length-encoding zero v = omega arith
length-encoding (suc k) v = ground (arith, length-encoding k (v / 128))

pub write_varint-encoding :
    (v : ℕ) (self : ByteWriter)
    → v < u64_mod
    → write_varint v self ≡ some (write_bytes (encoding 9 v) self)
unfolding write_varint
write_varint-encoding v self h = rw (groups-encoding 9 v (omega arith)) refl

pub read_u8-at :
    (pre : List ℕ) (b : ℕ) (rest : List ℕ)
    → read_u8 (reader_at pre (b ∷ rest)) ≡ (reader_at (pre ++ (b ∷ [])) rest, ok b)
unfolding read_u8
read_u8-at pre b rest = ap (map_read first) (read_bytes-at pre (b ∷ []) rest)

last_byte :
    (fuel v shift result : ℕ) (pre rest : List ℕ)
    → v < 128
    → result + v * 2 ^ shift < u64_mod
    → read_groups (suc fuel) shift result (reader_at pre (v ∷ rest))
      ≡ some (reader_at (pre ++ (v ∷ [])) rest, ok (result + v * 2 ^ shift))
unfolding read_groups
last_byte fuel v shift result pre rest hv fits = rw (read_u8-at pre v rest) (ground arith)

inner_byte :
    (fuel g shift result : ℕ) (pre rest : List ℕ)
    → g < 128
    → shift + 7 < 64
    → result + g * 2 ^ shift < u64_mod
    → read_groups (suc fuel) shift result (reader_at pre ((g + 128) ∷ rest))
      ≡ read_groups fuel
          (shift + 7)
          (result + g * 2 ^ shift)
          (reader_at (pre ++ ((g + 128) ∷ [])) rest)
unfolding read_groups
inner_byte fuel g shift result pre rest hg hs fits =
    let large : ltb (g + 128) 128 ≡ false = ground arith in
    let more : leb 64 (shift + 7) ≡ false = ground arith in
    let low : (g + 128) % 128 ≡ g = omega arith in
    let kept : g * 2 ^ shift % u64_mod ≡ g * 2 ^ shift = omega arith in
    rw (read_u8-at pre (g + 128) rest, large, more, low, kept) refl

shift_seven : (s : ℕ) → 2 ^ (s + 7) ≡ 128 * 2 ^ s
shift_seven s = simp towards_suc (omega arith)

split_group : (v s : ℕ) → v * 2 ^ s ≡ v % 128 * 2 ^ s + v / 128 * 2 ^ (s + 7)
split_group v s = omega (
  arith,
  ap (λ (t : ℕ). t * 2 ^ s) (div-add-mod v 128),
  ap (λ (t : ℕ). v / 128 * t) (shift_seven s),
)

read_groups-encoding :
    (k v shift result : ℕ) (pre rest : List ℕ)
    → v < 128 ^ suc k
    → shift + 7 * k < 64
    → result + v * 2 ^ shift < u64_mod
    → read_groups (suc k) shift result (reader_at pre (encoding k v ++ rest))
      ≡ some (reader_at (pre ++ encoding k v) rest, ok (result + v * 2 ^ shift))
unfolding encoding
read_groups-encoding zero v shift result pre rest hv hs fits =
    let whole : v % 128 ≡ v = omega arith in
    rw whole (last_byte 0 v shift result pre rest (omega arith) fits)
read_groups-encoding (suc k) v shift result pre rest hv hs fits =
    let small : (v / 128 == 0 ≡ true) → v % 128 ≡ v = λ e. ground arith in
    let low : ℕ = v % 128 in
    let next : List ℕ = encoding k (v / 128) in
    let sum : result + low * 2 ^ shift + v / 128 * 2 ^ (shift + 7) ≡ result + v * 2 ^ shift =
      omega (arith, split_group v shift) in
    let rest_read =
      rw (append_assoc pre ((low + 128) ∷ []) next, sum) at
        (read_groups-encoding k (v / 128) (shift + 7) (result + low * 2 ^ shift)
          (pre ++ ((low + 128) ∷ [])) rest (omega arith) (omega arith) (omega arith)) in
    elim (Bool-cases (v / 128 == 0)) [
      | inl done ↦ rw done (
          rw (small done)
            (last_byte (suc k) v shift result pre rest (omega (arith, small done)) fits))
      | inr more ↦ rw more (
          inner_byte (suc k) (v % 128) shift result pre (encoding k (v / 128) ++ rest) (omega arith)
            (omega arith) (omega (arith, split_group v shift))
          ∙ rest_read)
    ]

pub read_varint-encoding :
    (v : ℕ) (pre rest : List ℕ)
    → v < u64_mod
    → read_varint (reader_at pre (encoding 9 v ++ rest))
      ≡ some (reader_at (pre ++ encoding 9 v) rest, ok v)
unfolding read_varint
read_varint-encoding v pre rest h =
    read_groups-encoding 9 v 0 0 pre rest (omega arith) (omega arith) (omega arith)
    ∙ ap (λ (t : ℕ). some (reader_at (pre ++ encoding 9 v) rest, ok t)) (omega arith)

encoding_small : (v : ℕ) → v < 128 → encoding 9 v ≡ v ∷ []
unfolding encoding
encoding_small v h =
    let last : v / 128 == 0 ≡ true = ground arith in
    let whole : v % 128 ≡ v = omega arith in rw (last, whole) refl

-- Two byte strings for one value.
pub read_varint_padded :
    (v : ℕ) (pre rest : List ℕ) (self : ByteWriter)
    → v < 128
    → (read_varint (reader_at pre ((v + 128) ∷ (0 ∷ rest)))
        ≡ some (reader_at ((pre ++ ((v + 128) ∷ [])) ++ (0 ∷ [])) rest, ok v))
      × (write_varint v self ≡ some (write_bytes (v ∷ []) self))
unfolding read_varint
read_varint_padded v pre rest self h = (
  inner_byte 9 v 0 0 pre (0 ∷ rest) h (omega arith) (omega arith)
      ∙ last_byte 8 0 7 _ (pre ++ ((v + 128) ∷ [])) rest (omega arith) (omega arith)
      ∙ ap (λ (t : ℕ). some (reader_at ((pre ++ ((v + 128) ∷ [])) ++ (0 ∷ [])) rest, ok t))
          (omega arith),
  write_varint-encoding v self (omega arith)
      ∙ ap (λ (t : List ℕ). some (write_bytes t self)) (encoding_small v h),
)
