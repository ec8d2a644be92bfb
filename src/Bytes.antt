-- ===== src/Bytes.antt =====
-- Little- and big-endian words in byte buffers: the `put_` and `get_` helpers that
-- src/storage/wal_batch.c, segment.c, checkpoint_page.c, checksum.c and sqlite_wal.c each declare.
-- A buffer is a list of numbers below 256, a pointer into it is the list from there on.
pub mod RoundTrip
use otsardb.Base.{Bool, true, false, ◌&&◌, ◌==◌}
use otsardb.Base.{
  ℕ, zero, suc, ◌+◌, ◌*◌, ◌<◌, List, [], ◌∷◌, bit_and, bit_or, get_or, ◌<<<◌, ◌>>>◌, All,
}

abbrev pub IsBytes : List ℕ → Type 0
IsBytes = All (λ b. b < 256)

-- The byte at an index of a buffer. Every caller tests the size before it reads.
abbrev pub byte_at : List ℕ → ℕ → ℕ
byte_at p i = get_or p i 0

abbrev pub low_byte : ℕ → ℕ
low_byte v = bit_and v 0xff

unfoldable pub put_u32_le : ℕ → List ℕ
put_u32_le v = low_byte v ∷ low_byte (v >>> 8) ∷ low_byte (v >>> 16) ∷ low_byte (v >>> 24) ∷ []

unfoldable pub put_u16_le : ℕ → List ℕ
put_u16_le v = low_byte v ∷ low_byte (v >>> 8) ∷ []

unfoldable pub get_u16_le : List ℕ → ℕ
get_u16_le p = bit_or (byte_at p 0) (byte_at p 1 <<< 8)

-- `for (i = 0; i < 8; ++i) p[i] = (value >> (i * 8)) & 0xff`, with the rounds that are left.
unfoldable pub put_le : ℕ → ℕ → ℕ → List ℕ
put_le zero i v = []
put_le (suc rounds) i v = low_byte (v >>> (i * 8)) ∷ put_le rounds (i + 1) v

unfoldable pub put_u64_le : ℕ → List ℕ
unfolding put_le
put_u64_le v = put_le 8 0 v

unfoldable pub get_u32_le : List ℕ → ℕ
get_u32_le p =
    bit_or (bit_or (bit_or (byte_at p 0) (byte_at p 1 <<< 8)) (byte_at p 2 <<< 16))
      (byte_at p 3 <<< 24)

-- `for (i = 0; i < 8; ++i) value |= p[i] << (i * 8)`
unfoldable pub get_le : ℕ → ℕ → List ℕ → ℕ → ℕ
get_le zero i p v = v
get_le (suc rounds) i p v = get_le rounds (i + 1) p (bit_or v (byte_at p i <<< (i * 8)))

unfoldable pub get_u64_le : List ℕ → ℕ
unfolding get_le
get_u64_le p = get_le 8 0 p 0

-- Big-endian words, as `put_u64_be` of checksum.c and `read_u32_be` of sqlite_wal.c spell them.
unfoldable pub put_u64_be : ℕ → List ℕ
put_u64_be v =
    low_byte (v >>> 56)
    ∷ low_byte (v >>> 48)
    ∷ low_byte (v >>> 40)
    ∷ low_byte (v >>> 32)
    ∷ low_byte (v >>> 24)
    ∷ low_byte (v >>> 16)
    ∷ low_byte (v >>> 8)
    ∷ low_byte v
    ∷ []

unfoldable pub read_u32_be : List ℕ → ℕ
read_u32_be p =
    bit_or (bit_or (bit_or (byte_at p 0 <<< 24) (byte_at p 1 <<< 16)) (byte_at p 2 <<< 8))
      (byte_at p 3)

-- `memcmp` of buffers of one size.
abbrev pub bytes_eq : List ℕ → List ℕ → Bool
bytes_eq [] [] = true
bytes_eq [] (y ∷ ys) = false
bytes_eq (x ∷ xs) [] = false
bytes_eq (x ∷ xs) (y ∷ ys) = x == y && bytes_eq xs ys
