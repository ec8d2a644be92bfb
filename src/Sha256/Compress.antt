-- ===== src/Sha256/Compress.antt =====
-- src/crypto/sha256_pure.c: the compression of one block.
use otsardb.Base.{
  ℕ, zero, suc, ◌+◌, ◌-◌, ◌%◌, ◌^◌, List, [], ◌∷◌, ◌++◌, bit_and, bit_or, bit_xor, ◌<<<◌, ◌>>>◌,
  drop,
}
use otsardb.Bytes.{byte_at, low_byte, read_u32_be}

abbrev pub round_constants : List ℕ
round_constants =
    0x428a2f98 ∷ 0x71374491 ∷ 0xb5c0fbcf ∷ 0xe9b5dba5 ∷ 0x3956c25b ∷ 0x59f111f1 ∷ 0x923f82a4
    ∷ 0xab1c5ed5 ∷ 0xd807aa98 ∷ 0x12835b01 ∷ 0x243185be ∷ 0x550c7dc3 ∷ 0x72be5d74 ∷ 0x80deb1fe
    ∷ 0x9bdc06a7 ∷ 0xc19bf174 ∷ 0xe49b69c1 ∷ 0xefbe4786 ∷ 0x0fc19dc6 ∷ 0x240ca1cc ∷ 0x2de92c6f
    ∷ 0x4a7484aa ∷ 0x5cb0a9dc ∷ 0x76f988da ∷ 0x983e5152 ∷ 0xa831c66d ∷ 0xb00327c8 ∷ 0xbf597fc7
    ∷ 0xc6e00bf3 ∷ 0xd5a79147 ∷ 0x06ca6351 ∷ 0x14292967 ∷ 0x27b70a85 ∷ 0x2e1b2138 ∷ 0x4d2c6dfc
    ∷ 0x53380d13 ∷ 0x650a7354 ∷ 0x766a0abb ∷ 0x81c2c92e ∷ 0x92722c85 ∷ 0xa2bfe8a1 ∷ 0xa81a664b
    ∷ 0xc24b8b70 ∷ 0xc76c51a3 ∷ 0xd192e819 ∷ 0xd6990624 ∷ 0xf40e3585 ∷ 0x106aa070 ∷ 0x19a4c116
    ∷ 0x1e376c08 ∷ 0x2748774c ∷ 0x34b0bcb5 ∷ 0x391c0cb3 ∷ 0x4ed8aa4a ∷ 0x5b9cca4f ∷ 0x682e6ff3
    ∷ 0x748f82ee ∷ 0x78a5636f ∷ 0x84c87814 ∷ 0x8cc70208 ∷ 0x90befffa ∷ 0xa4506ceb ∷ 0xbef9a3f7
    ∷ 0xc67178f2 ∷ []

abbrev pub initial : List ℕ
initial =
    0x6a09e667 ∷ 0xbb67ae85 ∷ 0x3c6ef372 ∷ 0xa54ff53a ∷ 0x510e527f ∷ 0x9b05688c ∷ 0x1f83d9ab
    ∷ 0x5be0cd19 ∷ []

rotr : ℕ → ℕ → ℕ
rotr x n = bit_or (x >>> n) ((x <<< (32 - n)) % 2 ^ 32)

unfoldable pub store_be32 : ℕ → List ℕ
store_be32 v = low_byte (v >>> 24) ∷ low_byte (v >>> 16) ∷ low_byte (v >>> 8) ∷ low_byte v ∷ []

-- The first sixteen words are the block's, big-endian (`load_be32`).
load_words : ℕ → List ℕ → List ℕ
unfolding read_u32_be
load_words zero block = []
load_words (suc left) block = read_u32_be block ∷ load_words left (drop 4 block)

-- Word `i` of the schedule from the words before it.
schedule : ℕ → ℕ → List ℕ → List ℕ
unfolding rotr
schedule zero i w = w
schedule (suc left) i w =
    let w15 = byte_at w (i - 15) in
    let w2 = byte_at w (i - 2) in
    let s0 = bit_xor (bit_xor (rotr w15 7) (rotr w15 18)) (w15 >>> 3) in
    let s1 = bit_xor (bit_xor (rotr w2 17) (rotr w2 19)) (w2 >>> 10) in
    let next = (byte_at w (i - 16) + s0 + byte_at w (i - 7) + s1) % 2 ^ 32 in
    schedule left (i + 1) (w ++ next ∷ [])

record Vars : Type 0 where
  a : ℕ
  b : ℕ
  c : ℕ
  d : ℕ
  e : ℕ
  f : ℕ
  g : ℕ
  h : ℕ

-- One round: constant `k`, schedule word `w`. `~e` flips the 32 bits.
mix : ℕ → ℕ → Vars → Vars
unfolding rotr
mix k w v =
    let s1 = bit_xor (bit_xor (rotr v.e 6) (rotr v.e 11)) (rotr v.e 25) in
    let ch = bit_xor (bit_and v.e v.f) (bit_and (bit_xor v.e 0xffff_ffff) v.g) in
    let t1 = (v.h + s1 + ch + k + w) % 2 ^ 32 in
    let s0 = bit_xor (bit_xor (rotr v.a 2) (rotr v.a 13)) (rotr v.a 22) in
    let maj = bit_xor (bit_xor (bit_and v.a v.b) (bit_and v.a v.c)) (bit_and v.b v.c) in
    let t2 = (s0 + maj) % 2 ^ 32 in
    record {
      a = (t1 + t2) % 2 ^ 32;
      b = v.a;
      c = v.b;
      d = v.c;
      e = (v.d + t1) % 2 ^ 32;
      f = v.e;
      g = v.f;
      h = v.g;
    }

mix_loop : ℕ → ℕ → List ℕ → Vars → Vars
unfolding mix
mix_loop zero i w v = v
mix_loop (suc left) i w v =
    mix_loop left (i + 1) w (mix (byte_at round_constants i) (byte_at w i) v)

unfoldable pub compress : List ℕ → List ℕ → List ℕ
unfolding load_words schedule mix_loop
compress h block =
    let w = schedule 48 16 (load_words 16 block) in
    let v = mix_loop 64 0 w (record {
      a = byte_at h 0;
      b = byte_at h 1;
      c = byte_at h 2;
      d = byte_at h 3;
      e = byte_at h 4;
      f = byte_at h 5;
      g = byte_at h 6;
      h = byte_at h 7;
    }) in
    (byte_at h 0 + v.a) % 2 ^ 32
    ∷ (byte_at h 1 + v.b) % 2 ^ 32
    ∷ (byte_at h 2 + v.c) % 2 ^ 32
    ∷ (byte_at h 3 + v.d) % 2 ^ 32
    ∷ (byte_at h 4 + v.e) % 2 ^ 32
    ∷ (byte_at h 5 + v.f) % 2 ^ 32
    ∷ (byte_at h 6 + v.g) % 2 ^ 32
    ∷ (byte_at h 7 + v.h) % 2 ^ 32
    ∷ []
