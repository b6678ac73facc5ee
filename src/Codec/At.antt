-- ===== src/Codec/At.antt =====
-- crates/core/src/canonical.rs: a reader in the middle of its bytes.
use lite_vision.Prelude.{
  ℕ, ◌+◌, ◌≡◌, refl, false, List, ◌++◌, length, length-append, take-append, drop-append, ltb, arith,
  ok,
}
use mathlib.Core.List.{append_assoc}
use lite_vision.Codec.{ByteReader, read_bytes}

-- A reader that has read `pre` and has `rest` before it.
abbrev pub reader_at : List ℕ → List ℕ → ByteReader
reader_at pre rest = record { input = pre ++ rest; position = length pre }

in_range :
    (pre bytes rest : List ℕ)
    → ltb (length (pre ++ (bytes ++ rest))) (length pre + length bytes) ≡ false
in_range pre bytes rest = rw (length-append, length-append) (ground arith)

pub read_bytes-at :
    (pre bytes rest : List ℕ)
    → read_bytes (length bytes) (reader_at pre (bytes ++ rest))
      ≡ (reader_at (pre ++ bytes) rest, ok bytes)
unfolding read_bytes
read_bytes-at pre bytes rest =
    rw
      (
        in_range pre bytes rest,
        drop-append (length pre) pre (bytes ++ rest) refl,
        take-append (length bytes) bytes rest refl,
        length-append pre bytes,
        append_assoc pre bytes rest,
      )
      refl
