-- ===== src/AesGcm.antt =====
-- src/crypto/aes_gcm_pure.c: AES-256-GCM, encryption with a tag and decryption that checks it.
-- A null pointer is `none`; `outputs` says that the caller's output buffers are not null. The
-- clearing of key material behind the result is not modelled.
pub mod Block
pub mod Ghash
pub mod Inverse
pub mod Authentic
use otsardb.Base.{
  ℕ, zero, suc, ◌+◌, ◌%◌, ◌^◌, Bool, true, false, ◌&&◌, Option, none, some, List, [], ◌∷◌, ◌++◌,
  ◌==◌, if◌then◌else◌, ◌>>=◌, ◌>>◌, guard, ◌>>>◌, take, drop, length, replicate,
}
use otsardb.Bytes.{byte_at, low_byte}
use Block.{expand_key, encrypt_block, xor_bytes}
use Ghash.{ghash}

-- `ctrok`: the nonce and a big-endian counter.
unfoldable pub counter_block : List ℕ → ℕ → List ℕ
counter_block iv counter =
    take 12 iv
    ++ low_byte (counter >>> 24)
      ∷ low_byte (counter >>> 16)
      ∷ low_byte (counter >>> 8)
      ∷ low_byte counter
      ∷ []

-- The keystream loop, the same in both directions; the size of the data is fuel enough.
unfoldable pub crypt : ℕ → List ℕ → List ℕ → ℕ → List ℕ → List ℕ
unfolding counter_block encrypt_block
crypt zero rk iv counter bytes = []
crypt (suc fuel) rk iv counter [] = []
crypt (suc fuel) rk iv counter (b ∷ bytes) =
    let ks = encrypt_block rk (counter_block iv counter) in
    let part = take 16 (b ∷ bytes) in
    xor_bytes (length part) 0 part ks
    ++ crypt fuel rk iv ((counter + 1) % 2 ^ 32) (drop 16 (b ∷ bytes))

-- The tag: the hash under H = AES_K(0), masked with the first counter block.
unfoldable pub tag_of : List ℕ → List ℕ → List ℕ → List ℕ → List ℕ
unfolding counter_block encrypt_block ghash
tag_of rk iv aad ct =
    xor_bytes 16 0 (ghash (encrypt_block rk (replicate 16 0)) aad ct)
      (encrypt_block rk (counter_block iv 1))

unfoldable pub encrypt :
    Option (List ℕ)
    → Option (List ℕ)
    → List ℕ
    → Option (List ℕ)
    → ℕ
    → Bool
    → Option (List ℕ × List ℕ)
encrypt key iv aad plaintext plaintext_size outputs = do
  key' ← key
  iv' ← iv
  guard outputs
  bytes ← elim plaintext [
    | none ↦ if plaintext_size == 0 then some [] else none
    | some p ↦ some (take plaintext_size p)
  ]
  let rk = expand_key key'
  let ct = crypt (length bytes) rk iv' 2 bytes
  some (ct, tag_of rk iv' aad ct)

-- `expect_tag[i] != tag[i]` at no index from `i` on.
unfoldable pub tag_ok : ℕ → ℕ → List ℕ → List ℕ → Bool
tag_ok zero i expected tag = true
tag_ok (suc left) i expected tag =
    byte_at expected i == byte_at tag i && tag_ok left (i + 1) expected tag

unfoldable pub decrypt :
    Option (List ℕ)
    → Option (List ℕ)
    → List ℕ
    → Option (List ℕ)
    → ℕ
    → Option (List ℕ)
    → Bool
    → Option (List ℕ)
decrypt key iv aad ct ct_size tag outputs = do
  key' ← key
  iv' ← iv
  ct' ← ct
  tag' ← tag
  guard outputs
  let bytes = take ct_size ct'
  let rk = expand_key key'
  guard (tag_ok 16 0 (tag_of rk iv' aad bytes) tag')
  some (crypt (length bytes) rk iv' 2 bytes)
