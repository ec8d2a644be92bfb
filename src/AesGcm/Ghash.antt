-- ===== src/AesGcm/Ghash.antt =====
-- src/crypto/aes_gcm_pure.c: GHASH, the multiplication in the field of 2^128 elements and the hash
-- of the additional data, the ciphertext and their lengths.
use otsardb.Base.{
  ℕ, zero, suc, ◌+◌, ◌-◌, ◌*◌, ◌%◌, ◌^◌, List, [], ◌∷◌, ◌++◌, bit_and, bit_or, bit_xor, leb, ◌==◌,
  if◌then◌else◌, ◌<<<◌, ◌>>>◌, drop, take, length, replicate,
}
use otsardb.Bytes.{byte_at, low_byte}

load_loop : ℕ → ℕ → List ℕ → ℕ → ℕ
load_loop zero i p v = v
load_loop (suc left) i p v = load_loop left (i + 1) p (bit_or ((v <<< 8) % 2 ^ 64) (byte_at p i))

unfoldable pub load_be64 : List ℕ → ℕ
unfolding load_loop
load_be64 p = load_loop 8 0 p 0

-- The loop fills the bytes from the last.
store_loop : ℕ → ℕ → List ℕ → List ℕ
store_loop zero v out = out
store_loop (suc left) v out = store_loop left (v >>> 8) (low_byte v ∷ out)

unfoldable pub store_be64 : ℕ → List ℕ
unfolding store_loop
store_be64 v = store_loop 8 v []

pub record U128 : Type 0 where
  pub hi : ℕ
  pub lo : ℕ

xor_u128 : U128 → U128 → U128
xor_u128 a b = record { hi = bit_xor a.hi b.hi; lo = bit_xor a.lo b.lo }

-- Bit `i` of `y`.
bit_of : U128 → ℕ → ℕ
bit_of y i = if leb 64 i then bit_and (y.hi >>> (i - 64)) 1 else bit_and (y.lo >>> i) 1

-- X = X >> 1, with the reduction.
halve : U128 → U128
halve x =
    let lo = bit_or (x.lo >>> 1) ((x.hi <<< 63) % 2 ^ 64) in
    let hi = x.hi >>> 1 in
    record { hi = if bit_and x.lo 1 == 0 then hi else bit_xor hi 0xe100_0000_0000_0000; lo = lo }

-- The loop of `gf_mult`; `left - 1` is the bit that it stands at.
gf_loop : ℕ → U128 → U128 → U128 → U128
unfolding xor_u128 bit_of halve
gf_loop zero x y z = z
gf_loop (suc left) x y z = gf_loop left (halve x) y (if bit_of y left == 0 then z else xor_u128 z x)

unfoldable pub gf_mult : U128 → U128 → U128
unfolding gf_loop
gf_mult x y = gf_loop 128 x y (record { hi = 0; lo = 0 })

load_block : List ℕ → U128
unfolding load_be64
load_block p = record { hi = load_be64 p; lo = load_be64 (drop 8 p) }

-- Blocks of sixteen bytes, the last one filled up with zeros. The size of the data is fuel enough.
absorb : ℕ → List ℕ → U128 → U128 → U128
unfolding load_block gf_mult
absorb zero bytes h y = y
absorb (suc fuel) [] h y = y
absorb (suc fuel) (b ∷ bytes) h y =
    let part = take 16 (b ∷ bytes) in
    let block = part ++ replicate (16 - length part) 0 in
    absorb fuel (drop 16 (b ∷ bytes)) h (gf_mult (xor_u128 y (load_block block)) h)

-- A pointer and a size are the list of that many bytes.
unfoldable pub ghash : List ℕ → List ℕ → List ℕ → List ℕ
unfolding absorb store_be64
ghash h aad ct =
    let h128 = load_block h in
    let y = absorb (length ct) ct h128 (absorb (length aad) aad h128 (record { hi = 0; lo = 0 })) in
    let lenb = store_be64 (length aad * 8 % 2 ^ 64) ++ store_be64 (length ct * 8 % 2 ^ 64) in
    let y' = gf_mult (xor_u128 y (load_block lenb)) h128 in store_be64 y'.hi ++ store_be64 y'.lo
