-- ===== src/Codec.antt =====
-- crates/core/src/canonical.rs: ByteWriter and ByteReader. Bytes are numbers below 256. The encoders
-- of whole values call bincode, a third-party crate, and are left out; so are the writers and readers
-- of signed integers, which handle the pattern of the unsigned ones.
pub mod At
pub mod Reading
pub mod Varint
pub mod RoundTrip
mod Tests
use lite_vision.Prelude.{
  ℕ, zero, suc, ◌+◌, ◌-◌, ◌*◌, ◌/◌, ◌%◌, ◌^◌, Bool, true, false, Option, none, some, List, [], ◌∷◌,
  ◌++◌, length, take, drop, leb, ltb, ◌==◌, if◌then◌else◌, le_bytes, from_le, u64_mod, Result, ok,
  err,
}

-- crates/core/src/error.rs, without the texts
pub data CoreError : Type 0 where
  serialization deserialization invalid_hash invalid_encoding : CoreError
  checksum_mismatch version_mismatch canonical_violation determinism_violation : CoreError
  overflow underflow invalid_parameter not_implemented internal : CoreError

pub record ByteWriter : Type 0 where
  pub buffer : List ℕ

unfoldable pub writer_new : ByteWriter
writer_new = record { buffer = [] }

unfoldable pub write_bytes : List ℕ → ByteWriter → ByteWriter
write_bytes value self = record { buffer = self.buffer ++ value }

unfoldable pub write_u8 : ℕ → ByteWriter → ByteWriter
write_u8 value self = record { buffer = self.buffer ++ value ∷ [] }

unfoldable pub write_u16 : ℕ → ByteWriter → ByteWriter
write_u16 value self = write_bytes (le_bytes 2 value) self

unfoldable pub write_u32 : ℕ → ByteWriter → ByteWriter
write_u32 value self = write_bytes (le_bytes 4 value) self

unfoldable pub write_u64 : ℕ → ByteWriter → ByteWriter
write_u64 value self = write_bytes (le_bytes 8 value) self

unfoldable pub write_u128 : ℕ → ByteWriter → ByteWriter
write_u128 value self = write_bytes (le_bytes 16 value) self

abbrev pub map_option : {A B : Type 0} → (A → B) → Option A → Option B
map_option f none = none
map_option f (some a) = some (f a)

-- The bytes that the loop of write_varint pushes, on fuel; `none` means that the fuel ran out. `val &
-- 0x7F` is `val % 128`, and `|= 0x80` adds 128 to such a byte.
unfoldable pub groups : ℕ → ℕ → Option (List ℕ)
groups zero val = none
groups (suc fuel) val =
    let rest = groups fuel (val / 128) in
    if val / 128 == 0
    then some ((val % 128) ∷ [])
    else map_option (λ bytes. (val % 128 + 128) ∷ bytes) rest

-- ten rounds are enough for a u64
unfoldable pub write_varint : ℕ → ByteWriter → Option ByteWriter
write_varint value self = map_option (λ bytes. write_bytes bytes self) (groups 10 value)

unfoldable pub into_bytes : ByteWriter → List ℕ
into_bytes self = self.buffer

pub record ByteReader : Type 0 where
  pub input : List ℕ  -- the field `data`
  pub position : ℕ

unfoldable pub reader_new : List ℕ → ByteReader
reader_new bytes = record { input = bytes; position = 0 }

abbrev pub Read : Type 0 → Type 0
Read A = ByteReader × Result CoreError A

-- positions do not reach the range of an usize
unfoldable pub read_bytes : ℕ → ByteReader → Read (List ℕ)
read_bytes count self =
    if ltb (length self.input) (self.position + count) then (self, err invalid_encoding) else (
      record self { position = self.position + count },
      ok (take count (drop self.position self.input)),
    )

-- `.map(f)` on the answer, the panics on a wrong length being unreachable
abbrev pub map_read : {A B : Type 0} → (A → B) → Read A → Read B
map_read f (r, ok a) = (r, ok (f a))
map_read f (r, err e) = (r, err e)

-- `b[0]` of one byte
abbrev pub first : List ℕ → ℕ
first [] = 0
first (b ∷ _) = b

unfoldable pub read_u8 : ByteReader → Read ℕ
read_u8 self = map_read first (read_bytes 1 self)

unfoldable pub read_u16 : ByteReader → Read ℕ
read_u16 self = map_read from_le (read_bytes 2 self)

unfoldable pub read_u32 : ByteReader → Read ℕ
read_u32 self = map_read from_le (read_bytes 4 self)

unfoldable pub read_u64 : ByteReader → Read ℕ
read_u64 self = map_read from_le (read_bytes 8 self)

unfoldable pub read_u128 : ByteReader → Read ℕ
read_u128 self = map_read from_le (read_bytes 16 self)

-- `?` on the answer of a read
abbrev pub then_read :
    {A B : Type 0} → Read A → (A → ByteReader → Option (Read B)) → Option (Read B)
then_read (r, ok a) f = f a r
then_read (r, err e) f = some (r, err e)

-- The loop of read_varint, on fuel; `none` means that the fuel ran out. The shift drops the bits from
-- 64 on, and `|=` adds bits above those of `result`.
unfoldable pub read_groups : ℕ → ℕ → ℕ → ByteReader → Option (Read ℕ)
read_groups zero shift result self = none
read_groups (suc fuel) shift result self = then_read (read_u8 self) λ byte r.
    let result' = result + byte % 128 * 2 ^ shift % u64_mod in
    let rest = read_groups fuel (shift + 7) result' r in
    if ltb byte 128
    then some (r, ok result')
    else if leb 64 (shift + 7)
    then some (r, err invalid_encoding)
    else rest

unfoldable pub read_varint : ByteReader → Option (Read ℕ)
read_varint self = read_groups 10 0 0 self

-- a position is never past the end
unfoldable pub remaining : ByteReader → ℕ
remaining self = length self.input - self.position

unfoldable pub is_empty : ByteReader → Bool
is_empty self = leb (length self.input) self.position
