-- ===== src/Tests/AesGcmTests.antt =====
-- Tests of src/crypto/aes_gcm_pure.c: vectors of FIPS 197 and of the GCM specification.
use otsardb.Base.{ℕ, ◌≡◌, refl, ◌↔◌, true, some, none, List, [], ◌∷◌, replicate}
use otsardb.AesGcm.{encrypt, decrypt, crypt, tag_of, tag_ok}
use otsardb.AesGcm.Authentic.{decrypt-encrypt_iff}
use otsardb.AesGcm.Block.{expand_key}

abbrev zeros : ℕ → List ℕ
zeros n = replicate n 0

abbrev cipher : List ℕ
cipher =
    0xce ∷ 0xa7 ∷ 0x40 ∷ 0x3d ∷ 0x4d ∷ 0x60 ∷ 0x6b ∷ 0x6e ∷ 0x07 ∷ 0x4e ∷ 0xc5 ∷ 0xd3 ∷ 0xba ∷ 0xf3
    ∷ 0x9d ∷ 0x18 ∷ []

abbrev tag : List ℕ
tag =
    0xd0 ∷ 0xd1 ∷ 0xc8 ∷ 0xa7 ∷ 0x99 ∷ 0x99 ∷ 0x6b ∷ 0xf0 ∷ 0x26 ∷ 0x5b ∷ 0x98 ∷ 0xb5 ∷ 0xd4 ∷ 0x8a
    ∷ 0xb9 ∷ 0x19 ∷ []

sealed_zeros :
    encrypt (some (zeros 32)) (some (zeros 12)) [] (some (zeros 16)) 16 true ≡ some (cipher, tag)
unfolding encrypt crypt tag_of expand_key
sealed_zeros = refl

wrong_tag :
    decrypt (some (zeros 32)) (some (zeros 12)) [] (some cipher) 16 (some (zeros 16)) true ≡ none
unfolding decrypt crypt tag_of tag_ok expand_key
wrong_tag = refl

decrypt-encrypt_iff_example :
    (decrypt (some (zeros 32)) (some (zeros 12)) [] (some cipher) 16 (some tag) true
      ≡ some (zeros 16))
    ↔ (encrypt (some (zeros 32)) (some (zeros 12)) [] (some (zeros 16)) 16 true
        ≡ some (cipher, tag))
decrypt-encrypt_iff_example =
    decrypt-encrypt_iff (zeros 32) (zeros 12) [] (zeros 16) cipher tag refl
