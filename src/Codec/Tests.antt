-- ===== src/Codec/Tests.antt =====
-- Runs of crates/core/src/canonical.rs.
use lite_vision.Prelude.{
  ℕ, ◌≡◌, refl, Bool, true, Option, none, some, List, [], ◌∷◌, ◌++◌, ok, err, Result, ◌+◌, ◌<◌,
  arith,
}
use lite_vision.Codec.{
  CoreError, invalid_encoding, ByteReader, ByteWriter, writer_new, into_bytes, reader_new,
  read_varint, write_varint, write_bytes, is_empty, remaining, groups,
}
use lite_vision.Codec.Reading.{Advanced, read_varint_total}
use lite_vision.Codec.RoundTrip.{
  Item, u8, u16, u64, varint, raw, write_items, read_items, read_items-write_items,
}

abbrev items : List Item
items = u8 7 ∷ (u16 513 ∷ (varint 300 ∷ (raw (1 ∷ (2 ∷ [])) ∷ (u64 72623859790382856 ∷ []))))

read_items-write_items_example :
    (w : ByteWriter) × (r : ByteReader) × (write_items items writer_new ≡ some w)
    × (read_items items (reader_new (into_bytes w)) ≡ some (r, ok items))
    × (is_empty r ≡ true)
    × (remaining r ≡ 0)
read_items-write_items_example =
    read_items-write_items items
      (omega arith, (omega arith, (omega arith, (tt, (omega arith, tt)))))

three_hundred : groups 10 300 ≡ some (172 ∷ (2 ∷ []))
unfolding groups
three_hundred = refl

abbrev truncated : ByteReader
truncated = reader_new (172 ∷ [])

read_varint_total_example :
    (r : ByteReader) × (a : Result CoreError ℕ) × (read_varint truncated ≡ some (r, a))
    × Advanced 10 truncated r
unfolding reader_new
read_varint_total_example = read_varint_total truncated (omega arith)

-- The bits from 64 on are dropped in silence.
abbrev nine_flags : List ℕ
nine_flags = 128 ∷ (128 ∷ (128 ∷ (128 ∷ (128 ∷ (128 ∷ (128 ∷ (128 ∷ (128 ∷ []))))))))

bits_lost :
    read_varint (reader_new (nine_flags ++ (126 ∷ [])))
    ≡ some (record { input = nine_flags ++ (126 ∷ []); position = 10 }, ok 0)
unfolding read_varint lite_vision.Codec.read_groups lite_vision.Codec.read_u8
    lite_vision.Codec.read_bytes reader_new lite_vision.Prelude.take lite_vision.Prelude.drop
bits_lost = refl
