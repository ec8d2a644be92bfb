-- ===== src/Bytes/RoundTrip.antt =====
-- What a `put_` writes, the matching `get_` reads back.
use native.Mathlib.Nat.{mod-lt, one-le-pow}
use otsardb.Base.{
  zero, suc, [], drop, ℕ, ◌+◌, ◌*◌, ◌/◌, ◌%◌, ◌^◌, ◌≤◌, ◌<◌, ◌≡◌, List, ◌∷◌, ◌++◌, bit_or,
  bit_or-shift, bit_and-mask, zero-bit_or, mod_digit, ◌<<<◌, ◌>>>◌, length, refl, sym, arith,
}
use otsardb.Bytes.{
  IsBytes, byte_at, low_byte, put_u32_le, put_u64_le, get_u32_le, get_u64_le, put_u16_le,
  get_u16_le,
}

pub low_byte-mod : (v : ℕ) → low_byte v ≡ v % 256
low_byte-mod v = bit_and-mask 8 v

pub low_byte-lt : (v : ℕ) → low_byte v < 256
low_byte-lt v = omega (arith, low_byte-mod v)

pub length-put_u32_le : (v : ℕ) → length (put_u32_le v) ≡ 4
unfolding put_u32_le
length-put_u32_le v = refl

pub length-put_u64_le : (v : ℕ) → length (put_u64_le v) ≡ 8
unfolding put_u64_le
length-put_u64_le v = refl

-- Four bytes as the number that they stand for.
pub get_u32_le-sum :
    (a b c d : ℕ) (r : List ℕ)
    → a < 256
    → b < 256
    → c < 256
    → get_u32_le (a ∷ b ∷ c ∷ d ∷ r) ≡ a + b * 256 + c * 65536 + d * 16777216
unfolding get_u32_le
get_u32_le-sum a b c d r ha hb hc =
    rw
      (
        bit_or-shift 8 a b (omega arith),
        bit_or-shift 16 (a + b * 2 ^ 8) c (omega arith),
        bit_or-shift 24 (a + b * 2 ^ 8 + c * 2 ^ 16) d (omega arith),
      )
      (omega arith)

pub get-put_u32_le : (v : ℕ) (r : List ℕ) → v < 2 ^ 32 → get_u32_le (put_u32_le v ++ r) ≡ v
unfolding put_u32_le
get-put_u32_le v r h = omega (
  arith,
  low_byte-mod v,
  low_byte-mod (v >>> 8),
  low_byte-mod (v >>> 16),
  low_byte-mod (v >>> 24),
  get_u32_le-sum (low_byte v) (low_byte (v >>> 8)) (low_byte (v >>> 16)) (low_byte (v >>> 24)) r
      (low_byte-lt v) (low_byte-lt (v >>> 8)) (low_byte-lt (v >>> 16)),
)

pub get-put_u16_le : (v : ℕ) (r : List ℕ) → v < 2 ^ 16 → get_u16_le (put_u16_le v ++ r) ≡ v
unfolding put_u16_le get_u16_le
get-put_u16_le v r h =
    rw (bit_or-shift 8 (low_byte v) (low_byte (v >>> 8)) (low_byte-lt v))
      (omega (arith, low_byte-mod v, low_byte-mod (v >>> 8)))

-- One round of `get_u64_le`: the bytes read so far are the low bits, and one more byte is or-ed in.
or_byte : (k q v : ℕ) → q ≡ 2 ^ k * 256 → bit_or (v % 2 ^ k) (low_byte (v >>> k) <<< k) ≡ v % q
or_byte k q v e =
    let pos : 1 ≤ 2 ^ k = one-le-pow k 2 (omega arith) in
    rw (low_byte-mod (v >>> k), bit_or-shift k (v % 2 ^ k) (v / 2 ^ k % 256) (mod-lt v pos))
      (sym (mod_digit (2 ^ k) 256 q v pos (omega arith) e))

pub get-put_u64_le : (v : ℕ) (r : List ℕ) → v < 2 ^ 64 → get_u64_le (put_u64_le v ++ r) ≡ v
unfolding put_u64_le get_u64_le
get-put_u64_le v r h =
    rw
      (
        get_first v,
        or_byte 8 (2 ^ 16) v refl,
        or_byte 16 (2 ^ 24) v refl,
        or_byte 24 (2 ^ 32) v refl,
        or_byte 32 (2 ^ 40) v refl,
        or_byte 40 (2 ^ 48) v refl,
        or_byte 48 (2 ^ 56) v refl,
        or_byte 56 (2 ^ 64) v refl,
      )
      (omega arith)
  where
    get_first : (u : ℕ) → bit_or 0 (low_byte (u >>> 0) <<< 0) ≡ u % 2 ^ 8
    get_first u = omega (arith, zero-bit_or (low_byte (u >>> 0) <<< 0), low_byte-mod (u >>> 0))

-- The byte behind a prefix of known length.
pub byte_behind :
    (i : ℕ) (pre rest : List ℕ) (d : ℕ) → length pre ≡ i → byte_at (pre ++ d ∷ rest) i ≡ d
byte_behind zero [] rest d e = refl
byte_behind zero (x ∷ pre) rest d e = absurd (omega arith)
byte_behind (suc i) [] rest d e = absurd (omega arith)
byte_behind (suc i) (x ∷ pre) rest d e = byte_behind i pre rest d (omega arith)

-- Words read from a buffer of bytes are within their width.
byte_at-lt : (p : List ℕ) (i : ℕ) → IsBytes p → byte_at p i < 256
byte_at-lt [] i h = omega arith
byte_at-lt (b ∷ p) zero h = h.0
byte_at-lt (b ∷ p) (suc i) h = byte_at-lt p i h.1

pub IsBytes-drop : (n : ℕ) (p : List ℕ) → IsBytes p → IsBytes (drop n p)
IsBytes-drop zero p h = h
IsBytes-drop (suc n) [] h = h
IsBytes-drop (suc n) (b ∷ p) h = IsBytes-drop n p h.1

pub get_u32_le-lt : (p : List ℕ) → IsBytes p → get_u32_le p < 2 ^ 32
get_u32_le-lt p h =
    let same : get_u32_le p
        ≡ get_u32_le (byte_at p 0 ∷ byte_at p 1 ∷ byte_at p 2 ∷ byte_at p 3 ∷ []) =
      unfold get_u32_le in refl in
    omega (
      arith,
      same,
      get_u32_le-sum (byte_at p 0) (byte_at p 1) (byte_at p 2) (byte_at p 3) [] (byte_at-lt p 0 h)
          (byte_at-lt p 1 h) (byte_at-lt p 2 h),
      byte_at-lt p 0 h,
      byte_at-lt p 1 h,
      byte_at-lt p 2 h,
      byte_at-lt p 3 h,
    )
