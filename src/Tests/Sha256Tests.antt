-- ===== src/Tests/Sha256Tests.antt =====
-- Tests of src/crypto/sha256_pure.c: the vector "abc" of FIPS 180-4.
use otsardb.Base.{ℕ, ◌≡◌, refl, arith, List, [], ◌++◌, ◌<◌, ◌/◌, ◌%◌, length, replicate, ◌∷◌}
use otsardb.Sha256.{digest, init, update, store_words}
use otsardb.Sha256.Compress.{initial}
use otsardb.Sha256.Padding.{digest_padded, padding, hash_blocks}
use otsardb.Sha256.Stream.{update-append}

digest_abc :
    digest (97 ∷ 98 ∷ 99 ∷ [])
    ≡ 0xba ∷ 0x78 ∷ 0x16 ∷ 0xbf ∷ 0x8f ∷ 0x01 ∷ 0xcf ∷ 0xea ∷ 0x41 ∷ 0x41 ∷ 0x40 ∷ 0xde ∷ 0x5d
      ∷ 0xae ∷ 0x22 ∷ 0x23 ∷ 0xb0 ∷ 0x03 ∷ 0x61 ∷ 0xa3 ∷ 0x96 ∷ 0x17 ∷ 0x7a ∷ 0x9c ∷ 0xb4 ∷ 0x10
      ∷ 0xff ∷ 0x61 ∷ 0xf2 ∷ 0x00 ∷ 0x15 ∷ 0xad ∷ []
unfolding digest
digest_abc = refl

-- A first part that passes the end of the block, and a second one.
abbrev long_part : List ℕ
long_part = replicate 70 97

update-append_example :
    (update (update init long_part) (98 ∷ 99 ∷ []) ≡ update init (long_part ++ 98 ∷ 99 ∷ []))
    × (length (update init long_part).block < 64)
update-append_example = update-append init long_part (98 ∷ 99 ∷ []) (omega arith)

digest_padded_example :
    (length (long_part ++ padding (length long_part)) % 64 ≡ 0)
    × (digest long_part
        ≡ store_words (
            hash_blocks
              (length (long_part ++ padding (length long_part)) / 64)
              initial
              (long_part ++ padding (length long_part))))
digest_padded_example = digest_padded long_part
