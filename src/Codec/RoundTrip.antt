-- ===== src/Codec/RoundTrip.antt =====
-- crates/core/src/canonical.rs: sequences of items, written and then read.
use lite_vision.Prelude.{
  ℕ, ◌^◌, ◌<◌, ◌≡◌, refl, sym, ap, ◌∙◌, true, Option, none, some, List, [], ◌∷◌, ◌++◌, length, All,
  arith, le_bytes, from_le, length-le_bytes, from_le-le_bytes, ok, u64_mod, u32_mod,
}
use mathlib.Core.List.{append_assoc, append-nil}
use lite_vision.Codec.{
  ByteReader, ByteWriter, writer_new, write_u8, write_u16, write_u32, write_u64, write_u128,
  write_bytes, write_varint, into_bytes, reader_new, Read, read_bytes, map_read, then_read, read_u8,
  read_u16, read_u32, read_u64, read_u128, read_varint, remaining, is_empty,
}
use lite_vision.Codec.At.{reader_at, read_bytes-at}
use lite_vision.Codec.Varint.{encoding, write_varint-encoding, read_varint-encoding, read_u8-at}

-- What a client writes: one call each.
pub data Item : Type 0 where
  u8 : ℕ → Item
  u16 : ℕ → Item
  u32 : ℕ → Item
  u64 : ℕ → Item
  u128 : ℕ → Item
  varint : ℕ → Item
  raw : List ℕ → Item

abbrev pub write_item : Item → ByteWriter → Option ByteWriter
write_item (u8 n) w = some (write_u8 n w)
write_item (u16 n) w = some (write_u16 n w)
write_item (u32 n) w = some (write_u32 n w)
write_item (u64 n) w = some (write_u64 n w)
write_item (u128 n) w = some (write_u128 n w)
write_item (varint n) w = write_varint n w
write_item (raw bytes) w = some (write_bytes bytes w)

abbrev lifted : {A : Type 0} → (A → Item) → Option (Read A) → Option (Read Item)
lifted f none = none
lifted f (some answer) = some (map_read f answer)

-- the call that reads an item of the given shape
abbrev pub read_item : Item → ByteReader → Option (Read Item)
read_item (u8 _) r = some (map_read u8 (read_u8 r))
read_item (u16 _) r = some (map_read u16 (read_u16 r))
read_item (u32 _) r = some (map_read u32 (read_u32 r))
read_item (u64 _) r = some (map_read u64 (read_u64 r))
read_item (u128 _) r = some (map_read u128 (read_u128 r))
read_item (varint _) r = lifted varint (read_varint r)
read_item (raw bytes) r = some (map_read raw (read_bytes (length bytes) r))

abbrev bind_option : {A B : Type 0} → Option A → (A → Option B) → Option B
bind_option none f = none
bind_option (some a) f = f a

abbrev pub write_items : List Item → ByteWriter → Option ByteWriter
write_items [] w = some w
write_items (i ∷ is) w = bind_option (write_item i w) (write_items is)

abbrev keep : Item → Option (Read (List Item)) → Option (Read (List Item))
keep i none = none
keep i (some answer) = some (map_read (λ is. i ∷ is) answer)

-- the reads of the given shapes, until one is refused
abbrev pub read_items : List Item → ByteReader → Option (Read (List Item))
read_items [] r = some (r, ok [])
read_items (i ∷ is) r =
    bind_option (read_item i r) λ answer. then_read answer (λ j r'. keep j (read_items is r'))

-- a value of the parameter's type
abbrev pub Fits : Item → Type 0
Fits (u8 n) = n < 256
Fits (u16 n) = n < 65536
Fits (u32 n) = n < u32_mod
Fits (u64 n) = n < u64_mod
Fits (u128 n) = n < 2 ^ 128
Fits (varint n) = n < u64_mod
Fits (raw bytes) = Unit

unfoldable bytes_of : Item → List ℕ
bytes_of (u8 n) = n ∷ []
bytes_of (u16 n) = le_bytes 2 n
bytes_of (u32 n) = le_bytes 4 n
bytes_of (u64 n) = le_bytes 8 n
bytes_of (u128 n) = le_bytes 16 n
bytes_of (varint n) = encoding 9 n
bytes_of (raw bytes) = bytes

read_bytes-here :
    (n : ℕ) (pre bytes rest : List ℕ)
    → length bytes ≡ n
    → read_bytes n (reader_at pre (bytes ++ rest)) ≡ (reader_at (pre ++ bytes) rest, ok bytes)
read_bytes-here n pre bytes rest e =
    ap (λ (t : ℕ). read_bytes t (reader_at pre (bytes ++ rest))) (sym e)
    ∙ read_bytes-at pre bytes rest

-- a number of w bytes
read_number :
    (w n : ℕ) (pre rest : List ℕ)
    → n < 256 ^ w
    → map_read from_le (read_bytes w (reader_at pre (le_bytes w n ++ rest)))
      ≡ (reader_at (pre ++ le_bytes w n) rest, ok n)
read_number w n pre rest h =
    rw (read_bytes-here w pre (le_bytes w n) rest (length-le_bytes w n), from_le-le_bytes w n h)
      refl

write_item-bytes_of :
    (i : Item) (w : ByteWriter) → Fits i → write_item i w ≡ some (write_bytes (bytes_of i) w)
unfolding bytes_of write_u8 write_u16 write_u32 write_u64 write_u128 write_bytes
write_item-bytes_of (u8 n) w h = refl
write_item-bytes_of (u16 n) w h = refl
write_item-bytes_of (u32 n) w h = refl
write_item-bytes_of (u64 n) w h = refl
write_item-bytes_of (u128 n) w h = refl
write_item-bytes_of (varint n) w h = write_varint-encoding n w h
write_item-bytes_of (raw bytes) w h = refl

read_item-bytes_of :
    (i : Item) (pre rest : List ℕ)
    → Fits i
    → read_item i (reader_at pre (bytes_of i ++ rest))
      ≡ some (reader_at (pre ++ bytes_of i) rest, ok i)
unfolding bytes_of read_u16 read_u32 read_u64 read_u128
read_item-bytes_of (u8 n) pre rest h = rw (read_u8-at pre n rest) refl
read_item-bytes_of (u16 n) pre rest h = rw (read_number 2 n pre rest h) refl
read_item-bytes_of (u32 n) pre rest h = rw (read_number 4 n pre rest h) refl
read_item-bytes_of (u64 n) pre rest h = rw (read_number 8 n pre rest h) refl
read_item-bytes_of (u128 n) pre rest h = rw (read_number 16 n pre rest (omega arith)) refl
read_item-bytes_of (varint n) pre rest h = rw (read_varint-encoding n pre rest h) refl
read_item-bytes_of (raw bytes) pre rest h = rw (read_bytes-at pre bytes rest) refl

all_bytes : List Item → List ℕ
all_bytes [] = []
all_bytes (i ∷ is) = bytes_of i ++ all_bytes is

write_items-all_bytes :
    (is : List Item) (w : ByteWriter)
    → All Fits is
    → write_items is w ≡ some (write_bytes (all_bytes is) w)
unfolding all_bytes write_bytes
write_items-all_bytes [] w h = rw append-nil refl
write_items-all_bytes (i ∷ is) w (hi, his) =
    rw (write_item-bytes_of i w hi, write_items-all_bytes is _ his, append_assoc) refl

read_items-all_bytes :
    (is : List Item) (pre : List ℕ)
    → All Fits is
    → read_items is (reader_at pre (all_bytes is))
      ≡ some (reader_at (pre ++ all_bytes is) [], ok is)
unfolding all_bytes
read_items-all_bytes [] pre h = rw (append-nil pre, append-nil pre) refl
read_items-all_bytes (i ∷ is) pre (hi, his) =
    rw
      (
        read_item-bytes_of i pre (all_bytes is) hi,
        read_items-all_bytes is (pre ++ bytes_of i) his,
        append_assoc pre (bytes_of i) (all_bytes is),
      )
      refl

-- Whatever sequence of bytes, u16, u32, u64, u128, variable-length and raw items a writer is
-- given, each in the range of its type: every write succeeds, and a reader of the bytes that is
-- asked for the same shapes in the same order answers the same items and is then empty.
pub read_items-write_items :
    (is : List Item)
    → All Fits is
    → (w : ByteWriter) × (r : ByteReader) × (write_items is writer_new ≡ some w)
      × (read_items is (reader_new (into_bytes w)) ≡ some (r, ok is))
      × (is_empty r ≡ true)
      × (remaining r ≡ 0)
unfolding writer_new into_bytes reader_new is_empty remaining write_bytes
read_items-write_items is h = (
  record { buffer = all_bytes is },
  reader_at (all_bytes is) [],
  write_items-all_bytes is writer_new h,
  read_items-all_bytes is [] h,
  rw append-nil (ground arith),
  rw append-nil (omega arith),
)
