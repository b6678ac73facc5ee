-- ===== src/Prelude/Bytes.antt =====
-- Bytes of machine integers, as the hashers and the encoders of the sources read and write them.
use Prim.Native.Nat.{ℕ, zero, suc, ◌+◌, ◌*◌, ◌/◌, ◌%◌, ◌^◌, ◌<◌}
use mathlib.Core.Path.{◌≡◌, refl, ◌∙◌}
use mathlib.Core.List.{List, [], ◌∷◌, reverse, reverse-reverse, reverse-cons}
use native.Mathlib.Omega.{arith}
use lite_vision.Prelude.Lists.{length, length-append, All}

-- `to_le_bytes` of a w-byte integer
unfoldable pub le_bytes : ℕ → ℕ → List ℕ
le_bytes zero n = []
le_bytes (suc w) n = (n % 256) ∷ le_bytes w (n / 256)

-- `from_le_bytes`
unfoldable pub from_le : List ℕ → ℕ
from_le [] = 0
from_le (b ∷ bs) = b + 256 * from_le bs

-- an array `[u8; 32]`, which the models read as a big-endian number
unfoldable pub bytes32 : ℕ → List ℕ
bytes32 n = reverse (le_bytes 32 n)

unfoldable pub from_bytes32 : List ℕ → ℕ
from_bytes32 bs = from_le (reverse bs)

abbrev pub IsByte : ℕ → Type 0
IsByte b = b < 256

pub length-le_bytes : (w n : ℕ) → length (le_bytes w n) ≡ w
unfolding le_bytes
length-le_bytes zero n = refl
length-le_bytes (suc w) n = omega (arith, length-le_bytes w (n / 256))

pub le_bytes-IsByte : (w n : ℕ) → All IsByte (le_bytes w n)
unfolding le_bytes
le_bytes-IsByte zero n = tt
le_bytes-IsByte (suc w) n = (omega arith, le_bytes-IsByte w (n / 256))

-- what w bytes give back of a number
pub from_le-le_bytes : (w n : ℕ) → n < 256 ^ w → from_le (le_bytes w n) ≡ n
unfolding le_bytes from_le
from_le-le_bytes zero n h = omega arith
from_le-le_bytes (suc w) n h =
    let small : n / 256 < 256 ^ w = grind arith in omega (arith, from_le-le_bytes w (n / 256) small)

length-reverse : (bs : List ℕ) → length (reverse bs) ≡ length bs
length-reverse [] = refl
length-reverse (b ∷ bs) =
    rw (reverse-cons b bs) (omega (arith, length-append (reverse bs) (b ∷ []), length-reverse bs))

pub length-bytes32 : (n : ℕ) → length (bytes32 n) ≡ 32
unfolding bytes32
length-bytes32 n = length-reverse (le_bytes 32 n) ∙ length-le_bytes 32 n

pub from_bytes32-bytes32 : (n : ℕ) → n < 256 ^ 32 → from_bytes32 (bytes32 n) ≡ n
unfolding bytes32 from_bytes32
from_bytes32-bytes32 n h = rw reverse-reverse (from_le-le_bytes 32 n h)
