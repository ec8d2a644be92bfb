-- ===== src/AesGcm/Block.antt =====
-- src/crypto/aes_gcm_pure.c: AES-256, the key schedule and the encryption of one block.
use otsardb.Base.{
  ℕ, zero, suc, ◌+◌, ◌-◌, ◌*◌, ◌%◌, List, [], ◌∷◌, ◌++◌, bit_and, bit_xor, ◌==◌, if◌then◌else◌,
  ◌<<<◌, ◌>>>◌, drop,
}
use otsardb.Bytes.{byte_at}

abbrev pub sbox : List ℕ
sbox =
    0x63 ∷ 0x7c ∷ 0x77 ∷ 0x7b ∷ 0xf2 ∷ 0x6b ∷ 0x6f ∷ 0xc5 ∷ 0x30 ∷ 0x01 ∷ 0x67 ∷ 0x2b ∷ 0xfe ∷ 0xd7
    ∷ 0xab ∷ 0x76 ∷ 0xca ∷ 0x82 ∷ 0xc9 ∷ 0x7d ∷ 0xfa ∷ 0x59 ∷ 0x47 ∷ 0xf0 ∷ 0xad ∷ 0xd4 ∷ 0xa2
    ∷ 0xaf ∷ 0x9c ∷ 0xa4 ∷ 0x72 ∷ 0xc0 ∷ 0xb7 ∷ 0xfd ∷ 0x93 ∷ 0x26 ∷ 0x36 ∷ 0x3f ∷ 0xf7 ∷ 0xcc
    ∷ 0x34 ∷ 0xa5 ∷ 0xe5 ∷ 0xf1 ∷ 0x71 ∷ 0xd8 ∷ 0x31 ∷ 0x15 ∷ 0x04 ∷ 0xc7 ∷ 0x23 ∷ 0xc3 ∷ 0x18
    ∷ 0x96 ∷ 0x05 ∷ 0x9a ∷ 0x07 ∷ 0x12 ∷ 0x80 ∷ 0xe2 ∷ 0xeb ∷ 0x27 ∷ 0xb2 ∷ 0x75 ∷ 0x09 ∷ 0x83
    ∷ 0x2c ∷ 0x1a ∷ 0x1b ∷ 0x6e ∷ 0x5a ∷ 0xa0 ∷ 0x52 ∷ 0x3b ∷ 0xd6 ∷ 0xb3 ∷ 0x29 ∷ 0xe3 ∷ 0x2f
    ∷ 0x84 ∷ 0x53 ∷ 0xd1 ∷ 0x00 ∷ 0xed ∷ 0x20 ∷ 0xfc ∷ 0xb1 ∷ 0x5b ∷ 0x6a ∷ 0xcb ∷ 0xbe ∷ 0x39
    ∷ 0x4a ∷ 0x4c ∷ 0x58 ∷ 0xcf ∷ 0xd0 ∷ 0xef ∷ 0xaa ∷ 0xfb ∷ 0x43 ∷ 0x4d ∷ 0x33 ∷ 0x85 ∷ 0x45
    ∷ 0xf9 ∷ 0x02 ∷ 0x7f ∷ 0x50 ∷ 0x3c ∷ 0x9f ∷ 0xa8 ∷ 0x51 ∷ 0xa3 ∷ 0x40 ∷ 0x8f ∷ 0x92 ∷ 0x9d
    ∷ 0x38 ∷ 0xf5 ∷ 0xbc ∷ 0xb6 ∷ 0xda ∷ 0x21 ∷ 0x10 ∷ 0xff ∷ 0xf3 ∷ 0xd2 ∷ 0xcd ∷ 0x0c ∷ 0x13
    ∷ 0xec ∷ 0x5f ∷ 0x97 ∷ 0x44 ∷ 0x17 ∷ 0xc4 ∷ 0xa7 ∷ 0x7e ∷ 0x3d ∷ 0x64 ∷ 0x5d ∷ 0x19 ∷ 0x73
    ∷ 0x60 ∷ 0x81 ∷ 0x4f ∷ 0xdc ∷ 0x22 ∷ 0x2a ∷ 0x90 ∷ 0x88 ∷ 0x46 ∷ 0xee ∷ 0xb8 ∷ 0x14 ∷ 0xde
    ∷ 0x5e ∷ 0x0b ∷ 0xdb ∷ 0xe0 ∷ 0x32 ∷ 0x3a ∷ 0x0a ∷ 0x49 ∷ 0x06 ∷ 0x24 ∷ 0x5c ∷ 0xc2 ∷ 0xd3
    ∷ 0xac ∷ 0x62 ∷ 0x91 ∷ 0x95 ∷ 0xe4 ∷ 0x79 ∷ 0xe7 ∷ 0xc8 ∷ 0x37 ∷ 0x6d ∷ 0x8d ∷ 0xd5 ∷ 0x4e
    ∷ 0xa9 ∷ 0x6c ∷ 0x56 ∷ 0xf4 ∷ 0xea ∷ 0x65 ∷ 0x7a ∷ 0xae ∷ 0x08 ∷ 0xba ∷ 0x78 ∷ 0x25 ∷ 0x2e
    ∷ 0x1c ∷ 0xa6 ∷ 0xb4 ∷ 0xc6 ∷ 0xe8 ∷ 0xdd ∷ 0x74 ∷ 0x1f ∷ 0x4b ∷ 0xbd ∷ 0x8b ∷ 0x8a ∷ 0x70
    ∷ 0x3e ∷ 0xb5 ∷ 0x66 ∷ 0x48 ∷ 0x03 ∷ 0xf6 ∷ 0x0e ∷ 0x61 ∷ 0x35 ∷ 0x57 ∷ 0xb9 ∷ 0x86 ∷ 0xc1
    ∷ 0x1d ∷ 0x9e ∷ 0xe1 ∷ 0xf8 ∷ 0x98 ∷ 0x11 ∷ 0x69 ∷ 0xd9 ∷ 0x8e ∷ 0x94 ∷ 0x9b ∷ 0x1e ∷ 0x87
    ∷ 0xe9 ∷ 0xce ∷ 0x55 ∷ 0x28 ∷ 0xdf ∷ 0x8c ∷ 0xa1 ∷ 0x89 ∷ 0x0d ∷ 0xbf ∷ 0xe6 ∷ 0x42 ∷ 0x68
    ∷ 0x41 ∷ 0x99 ∷ 0x2d ∷ 0x0f ∷ 0xb0 ∷ 0x54 ∷ 0xbb ∷ 0x16 ∷ []

abbrev sub_byte : ℕ → ℕ
sub_byte x = byte_at sbox x

xtime : ℕ → ℕ
xtime x = bit_xor (x <<< 1) (bit_and (x >>> 7) 1 * 0x1b) % 256

-- Four bytes of the schedule from `tmp` and from the word eight before; `rk` holds the words so
-- far.
schedule_word : ℕ → List ℕ → List ℕ → List ℕ
schedule_word i rk tmp =
    let old = drop ((i - 8) * 4) rk in
    bit_xor (byte_at old 0) (byte_at tmp 0)
    ∷ bit_xor (byte_at old 1) (byte_at tmp 1)
    ∷ bit_xor (byte_at old 2) (byte_at tmp 2)
    ∷ bit_xor (byte_at old 3) (byte_at tmp 3)
    ∷ []

-- RotWord, SubWord and Rcon; SubWord alone; or the word as it is.
schedule_tmp : ℕ → ℕ → List ℕ → List ℕ
schedule_tmp i rcon tmp =
    if i % 8 == 0
    then bit_xor (sub_byte (byte_at tmp 1)) rcon
      ∷ sub_byte (byte_at tmp 2)
      ∷ sub_byte (byte_at tmp 3)
      ∷ sub_byte (byte_at tmp 0)
      ∷ []
    else if i % 8 == 4
    then sub_byte (byte_at tmp 0)
      ∷ sub_byte (byte_at tmp 1)
      ∷ sub_byte (byte_at tmp 2)
      ∷ sub_byte (byte_at tmp 3)
      ∷ []
    else tmp

-- The loop of `aes256_expand_key` at word `i`, with the words that are left.
expand_loop : ℕ → ℕ → ℕ → List ℕ → List ℕ
unfolding xtime schedule_word schedule_tmp
expand_loop zero i rcon rk = rk
expand_loop (suc left) i rcon rk =
    let tmp = schedule_tmp i rcon (drop ((i - 1) * 4) rk) in
    expand_loop left (i + 1) (if i % 8 == 0 then xtime rcon else rcon)
      (rk ++ schedule_word i rk tmp)

unfoldable pub expand_key : List ℕ → List ℕ
unfolding expand_loop
expand_key key = expand_loop 52 8 1 key

-- `s[i] ^= k[i]` for the bytes from index `i` on.
unfoldable pub xor_bytes : ℕ → ℕ → List ℕ → List ℕ → List ℕ
xor_bytes zero i s k = []
xor_bytes (suc left) i s k = bit_xor (byte_at s i) (byte_at k i) ∷ xor_bytes left (i + 1) s k

-- SubBytes and ShiftRows of column `c`.
shifted_column : List ℕ → ℕ → List ℕ
shifted_column s c =
    sub_byte (byte_at s (c * 4))
    ∷ sub_byte (byte_at s ((c * 4 + 5) % 16))
    ∷ sub_byte (byte_at s ((c * 4 + 10) % 16))
    ∷ sub_byte (byte_at s ((c * 4 + 15) % 16))
    ∷ []

sub_shift : List ℕ → List ℕ
unfolding shifted_column
sub_shift s =
    shifted_column s 0 ++ (shifted_column s 1 ++ (shifted_column s 2 ++ shifted_column s 3))

mix_column : List ℕ → ℕ → List ℕ
unfolding xtime
mix_column t c =
    let a0 = byte_at t (c * 4) in
    let a1 = byte_at t (c * 4 + 1) in
    let a2 = byte_at t (c * 4 + 2) in
    let a3 = byte_at t (c * 4 + 3) in
    bit_xor (bit_xor (bit_xor (xtime a0) (bit_xor (xtime a1) a1)) a2) a3
    ∷ bit_xor (bit_xor (bit_xor a0 (xtime a1)) (bit_xor (xtime a2) a2)) a3
    ∷ bit_xor (bit_xor (bit_xor a0 a1) (xtime a2)) (bit_xor (xtime a3) a3)
    ∷ bit_xor (bit_xor (bit_xor (bit_xor (xtime a0) a0) a1) a2) (xtime a3)
    ∷ []

mix_columns : List ℕ → List ℕ
unfolding mix_column
mix_columns t = mix_column t 0 ++ (mix_column t 1 ++ (mix_column t 2 ++ mix_column t 3))

-- The rounds from `round` on.
round_loop : ℕ → ℕ → List ℕ → List ℕ → List ℕ
unfolding sub_shift mix_columns xor_bytes
round_loop zero round rk s = s
round_loop (suc left) round rk s =
    round_loop left (round + 1) rk
      (xor_bytes 16 0 (mix_columns (sub_shift s)) (drop (round * 16) rk))

unfoldable pub encrypt_block : List ℕ → List ℕ → List ℕ
unfolding round_loop
encrypt_block rk input =
    xor_bytes 16 0 (sub_shift (round_loop 13 1 rk (xor_bytes 16 0 input rk))) (drop (14 * 16) rk)
