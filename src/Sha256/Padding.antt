-- ===== src/Sha256/Padding.antt =====
-- src/crypto/sha256_pure.c: the digest against the definition of FIPS 180-4, which pads the message
-- to whole blocks and compresses them in order.
use native.Mathlib.Nat.{mod-add-mod, mod-lt}
use otsardb.Base.{
  ℕ, zero, suc, ◌+◌, ◌-◌, ◌*◌, ◌/◌, ◌%◌, ◌^◌, ◌≤◌, ◌<◌, ◌≡◌, refl, ap, sym, ◌∙◌, List, [], ◌∷◌,
  ◌++◌, append_assoc, length, length-append, length-take, length-drop, take, drop, replicate,
  length-replicate, take-append-drop, arith, ltb, Bool-cases, inl, inr, false, true,
}
use otsardb.Sha256.{
  Ctx, flush, init, update, final_h, final, digest, length_bytes, zero_fill, store_words, hex,
  hex_data,
}
use otsardb.Sha256.Compress.{compress, initial, store_be32}
use otsardb.Sha256.Stream.{feed, feed-append, feed_chunk, feed-counted, update-feed, counted}

-- The 0x80, the zeros and the length that follow a message of `size` bytes: as few zeros as make
-- the whole a multiple of 64 bytes.
unfoldable pub padding : ℕ → List ℕ
padding size = (0x80 ∷ replicate ((119 - size % 64) % 64) 0) ++ length_bytes (size * 8 % 2 ^ 64)

-- The blocks of a padded message, compressed in order.
unfoldable pub hash_blocks : ℕ → List ℕ → List ℕ → List ℕ
hash_blocks zero h bytes = h
hash_blocks (suc left) h bytes = hash_blocks left (compress h (take 64 bytes)) (drop 64 bytes)

flush_full :
    (c : Ctx) → length c.block ≡ 64 → flush c ≡ record c { h = compress c.h c.block; block = [] }
unfolding flush
flush_full c e = rw e

-- Whole blocks from an empty block.
feed_blocks :
    (n : ℕ) (h : List ℕ) (bits : ℕ) (bytes : List ℕ)
    → length bytes ≡ n * 64
    → feed (record { h = h; total_bits = bits; block = [] }) bytes
      ≡ record { h = hash_blocks n h bytes; total_bits = bits; block = [] }
unfolding feed hash_blocks
feed_blocks zero h bits [] e = refl
feed_blocks zero h bits (b ∷ bytes) e = absurd (omega arith)
feed_blocks (suc n) h bits bytes e =
    let c : Ctx = record { h = h; total_bits = bits; block = [] } in
    let size = length-take 64 bytes in
    let size' = length-drop 64 bytes in
    ap (feed c) (sym (take-append-drop 64 bytes))
    ∙ feed-append c (take 64 bytes) (drop 64 bytes)
    ∙ ap (λ d. feed d (drop 64 bytes))
        (feed_chunk c (take 64 bytes) (omega arith) (omega arith) (omega arith)
          ∙ flush_full (record c { block = take 64 bytes }) (omega arith))
    ∙ feed_blocks n (compress h (take 64 bytes)) bits (drop 64 bytes) (omega arith)

flush-used : (c : Ctx) → length c.block ≤ 64 → length (flush c).block ≡ length c.block % 64
unfolding flush
flush-used c h = ground arith

-- The bytes in the block are what is over of those that came in.
feed-used :
    (c : Ctx) (xs : List ℕ)
    → length c.block < 64
    → length (feed c xs).block ≡ (length c.block + length xs) % 64
unfolding feed
feed-used c [] h = omega arith
feed-used c (x ∷ xs) h =
    let size = length-append c.block (x ∷ []) in
    let c' = record c { block = c.block ++ x ∷ [] } in
    let used = flush-used c' (omega arith) in
    feed-used (flush c') xs (omega arith)
    ∙ ap (λ n. (n + length xs) % 64) used
    ∙ mod-add-mod (length c'.block) 64 (length xs)
    ∙ ap (λ n. n % 64) (omega arith)

length-length_bytes : (bits : ℕ) → length (length_bytes bits) ≡ 8
unfolding length_bytes
length-length_bytes bits = refl

-- Bytes that fill the block up are compressed with it.
feed_fills :
    (c : Ctx) (xs : List ℕ)
    → length c.block < 64
    → length c.block + length xs ≡ 64
    → feed c xs ≡ record c { h = compress c.h (c.block ++ xs); block = [] }
feed_fills c xs h e =
    let size = length-append c.block xs in
    feed_chunk c xs h (omega arith) (omega arith)
    ∙ flush_full (record c { block = c.block ++ xs }) (omega arith)

-- The mark and `k` zeros in the block, as the code writes them and as they are fed.
filled :
    (block : List ℕ) (limit k : ℕ)
    → length block + 1 + k ≡ limit
    → zero_fill limit (block ++ 0x80 ∷ []) ≡ block ++ (0x80 ∷ replicate k 0)
unfolding zero_fill
filled block limit k e =
    let size = length-append block (0x80 ∷ []) in
    let room : limit - length (block ++ 0x80 ∷ []) ≡ k = omega (arith, size) in
    rw room (append_assoc block (0x80 ∷ []) (replicate k 0))

-- The length fits behind the mark.
final_short :
    (c : Ctx) (k : ℕ)
    → length c.block + 1 + k ≡ 56
    → final_h c ≡ (feed c ((0x80 ∷ replicate k 0) ++ length_bytes c.total_bits)).h
unfolding final_h
final_short c k e =
    let end = length_bytes c.total_bits in
    let mark : List ℕ = 0x80 ∷ replicate k 0 in
    let size = length-append c.block (0x80 ∷ []) in
    let tail_size = length-append mark end in
    let zeros = length-replicate {A = ℕ} k 0 in
    let eight = length-length_bytes c.total_bits in
    let short : ltb 56 (length (c.block ++ 0x80 ∷ [])) ≡ false = ground arith in
    let fed : (feed c (mark ++ end)).h ≡ compress c.h (c.block ++ (mark ++ end)) =
      ap (λ d. d.h) (feed_fills c (mark ++ end) (omega arith) (omega arith)) in
    rw short (
      ap (λ block. compress c.h (block ++ end)) (filled c.block 56 k e)
      ∙ ap (compress c.h) (append_assoc c.block mark end)
      ∙ sym fed)

-- The length does not fit: the mark and zeros end this block, and another one holds the length.
final_long :
    (c : Ctx) (k : ℕ)
    → 56 ≤ length c.block
    → length c.block + 1 + k ≡ 64
    → final_h c
      ≡ (feed c ((0x80 ∷ replicate k 0) ++ (replicate 56 0 ++ length_bytes c.total_bits))).h
unfolding final_h zero_fill
final_long c k h e =
    let end = length_bytes c.total_bits in
    let mark : List ℕ = 0x80 ∷ replicate k 0 in
    let last : List ℕ = replicate 56 0 ++ end in
    let size = length-append c.block (0x80 ∷ []) in
    let zeros = length-replicate {A = ℕ} k 0 in
    let last_size = length-append (replicate {A = ℕ} 56 0) end in
    let zeros' = length-replicate {A = ℕ} 56 0 in
    let eight = length-length_bytes c.total_bits in
    let long : ltb 56 (length (c.block ++ 0x80 ∷ [])) ≡ true = ground arith in
    let c' : Ctx = record c { h = compress c.h (c.block ++ mark); block = [] } in
    let fed : feed c (mark ++ last) ≡ record c' { h = compress c'.h last } =
      feed-append c mark last
      ∙ ap (λ d. feed d last) (feed_fills c mark (omega arith) (omega arith))
      ∙ feed_fills c' last (omega arith) (omega arith) in
    rw long (
      ap (λ block. compress (compress c.h block) last) (filled c.block 64 k e)
      ∙ sym (ap (λ d. d.h) fed))

replicate-append : (m n k : ℕ) → m + n ≡ k → replicate {A = ℕ} m 0 ++ replicate n 0 ≡ replicate k 0
replicate-append zero n k e = ap (λ j. replicate j 0) (omega arith)
replicate-append (suc m) n zero e = absurd (omega arith)
replicate-append (suc m) n (suc k) e = ap (λ xs. 0 ∷ xs) (replicate-append m n k (omega arith))

-- `final` feeds the padding.
final_h-feed :
    (c : Ctx) (size : ℕ)
    → length c.block ≡ size % 64
    → c.total_bits ≡ size * 8 % 2 ^ 64
    → final_h c ≡ (feed c (padding size)).h
unfolding padding
final_h-feed c size used bits =
    let z = (119 - size % 64) % 64 in
    let mark : ℕ → List ℕ = λ k. 0x80 ∷ replicate k 0 in
    let below : size % 64 < 64 = mod-lt size (omega arith) in
    let ends = ap (λ b. (feed c (mark z ++ length_bytes b)).h) (sym bits) in
    elim (Bool-cases (ltb (length c.block) 56)) [
      | inl short ↦ final_short c z (ground arith) ∙ sym ends
      | inr long ↦
          let k = 63 - length c.block in
          let end = length_bytes c.total_bits in
          let room : length c.block + 1 + k ≡ 64 = omega arith in
          final_long c k (ground arith) room
          ∙ ap (λ xs. (feed c xs).h)
              (sym (append_assoc (mark k) (replicate 56 0) end)
                ∙ ap (λ xs. (0x80 ∷ xs) ++ end) (replicate-append k 56 z (ground arith)))
          ∙ sym ends
    ]

length-padding : (size : ℕ) → length (padding size) ≡ 9 + (119 - size % 64) % 64
unfolding padding
length-padding size =
    let k = (119 - size % 64) % 64 in
    let end = length_bytes (size * 8 % 2 ^ 64) in
    let joined = length-append (0x80 ∷ replicate k 0) end in
    let zeros = length-replicate {A = ℕ} k 0 in
    let eight = length-length_bytes (size * 8 % 2 ^ 64) in omega arith

-- The message with its padding is whole blocks, and the digest of the message is the result of
-- compressing these blocks in order from the initial words, stored big-endian.
pub digest_padded :
    (bytes : List ℕ)
    → (length (bytes ++ padding (length bytes)) % 64 ≡ 0)
      × (digest bytes
          ≡ store_words (
              hash_blocks
                (length (bytes ++ padding (length bytes)) / 64)
                initial
                (bytes ++ padding (length bytes))))
unfolding digest final counted
digest_padded bytes =
    let size = length bytes in
    let bits = size * 8 % 2 ^ 64 in
    let whole = bytes ++ padding size in
    let c = counted bits (feed init bytes) in
    let joined = length-append bytes (padding size) in
    let padded = length-padding size in
    let run : update init bytes ≡ c =
      update-feed init bytes (omega arith)
      ∙ ap (λ n. counted (n % 2 ^ 64) (feed init bytes)) (omega arith) in
    let fed : feed c (padding size) ≡ counted bits (feed init whole) =
      feed-counted bits (feed init bytes) (padding size)
      ∙ ap (counted bits) (sym (feed-append init bytes (padding size))) in
    let blocks = length whole / 64 in
    let whole_blocks : length whole % 64 ≡ 0 = omega arith in
    let hashed : feed init whole
        ≡ record { h = hash_blocks blocks initial whole; total_bits = 0; block = [] } =
      feed_blocks blocks initial 0 whole (omega arith) in
    let used : length c.block ≡ size % 64 =
      feed-used init bytes (omega arith) ∙ ap (λ n. n % 64) (omega arith) in
    (
      whole_blocks,
      ap store_words (
          ap final_h run
          ∙ final_h-feed c size used refl
          ∙ ap (λ d. d.h) fed
          ∙ ap (λ d. d.h) hashed),
    )

pub length-digest : (bytes : List ℕ) → length (digest bytes) ≡ 32
unfolding digest store_words store_be32 final_h compress
length-digest bytes = refl

pub length-hex_data : (bytes : List ℕ) → length (hex_data bytes) ≡ 64
unfolding hex_data hex digest store_words store_be32 final_h compress
length-hex_data bytes = refl
