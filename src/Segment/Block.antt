-- ===== src/Segment/Block.antt =====
-- src/storage/segment.c: the decoder of a block reads what the encoder wrote.
use otsardb.Base.{
  ℕ, zero, suc, ◌+◌, ◌-◌, ◌^◌, ◌≤◌, ◌<◌, ◌≡◌, ◌≢◌, refl, ap, ◌∙◌, Bool, true, ◌&&◌, Option, none,
  some, List, [], ◌∷◌, ◌++◌, bit_and, bit_xor, bit_xor-lt, bit_and-mask, ==_refl, not, ◌>>>◌, ltb,
  leb, ◌==◌, length, drop, length-append, drop-append, take-append, arith, Bool-cases, inl, inr,
}
use otsardb.Bytes.{byte_at, put_u32_le, get_u32_le}
use otsardb.Bytes.RoundTrip.{get-put_u32_le}
use otsardb.Segment.{
  block_header_size, max_decompressed, flag_lz4, Lz4, IsLz4, crc_rounds, crc_loop, crc32,
  try_compress,
}
use otsardb.Segment.Frame.{block_frame, frame_decode, stored_frame, block_bytes, encode_block}

crc_rounds-lt : (left c : ℕ) → c < 2 ^ 32 → crc_rounds left c < 2 ^ 32
unfolding crc_rounds
crc_rounds-lt zero c h = h
crc_rounds-lt (suc left) c h =
    let mixed = bit_xor-lt 32 0xEDB88320 (c >>> 1) (omega arith) (omega arith) in
    elim (Bool-cases (bit_and c 1 == 1)) [
      | inl odd ↦ rw odd (crc_rounds-lt left (bit_xor 0xEDB88320 (c >>> 1)) mixed)
      | inr even ↦ rw even (crc_rounds-lt left (c >>> 1) (omega arith))
    ]

crc_loop-lt : (bytes : List ℕ) (crc : ℕ) → crc < 2 ^ 32 → crc_loop bytes crc < 2 ^ 32
unfolding crc_loop
crc_loop-lt [] crc h = h
crc_loop-lt (b ∷ bytes) crc h =
    let i = bit_and (bit_xor crc b) 0xff in
    let small : i < 2 ^ 32 = omega (arith, bit_and-mask 8 (bit_xor crc b)) in
    crc_loop-lt bytes (bit_xor (crc_rounds 8 i) (crc >>> 8))
      (bit_xor-lt 32 (crc_rounds 8 i) (crc >>> 8) (crc_rounds-lt 8 i small) (omega arith))

crc32-lt : (bytes : List ℕ) → crc32 bytes < 2 ^ 32
unfolding crc32
crc32-lt bytes =
    bit_xor-lt 32 (crc_loop bytes 0xFFFF_FFFF) 0xFFFF_FFFF
      (crc_loop-lt bytes 0xFFFF_FFFF (omega arith)) (omega arith)

-- The frames that an encoder stores: at least a page of 512 bytes behind a page number and a zero word.
pub record IsFrame (frame : List ℕ) : Type 0 where
  pub least : 520 ≤ length frame
  pub most : length frame ≤ max_decompressed
  pub page_given : get_u32_le frame ≢ 0
  pub padded : get_u32_le (drop 4 frame) ≡ 0

-- A block with known contents is decoded.
module _ (lz : Lz4) (frame stored rest : List ℕ) (flags : ℕ) (is : IsFrame frame)
    (small : length stored ≤ length frame) (known : bit_and flags 0xfe ≡ 0)
    (gives : block_frame lz flags (stored ++ rest) (length stored) (length frame)
      ≡ some frame) where
  abbrev whole : List ℕ
  whole = block_bytes frame (flags, stored) ++ rest

  whole_orig_len : get_u32_le whole ≡ length frame
  unfolding put_u32_le
  whole_orig_len = get-put_u32_le (length frame) _ (omega (arith, is.most))

  whole_data_len : get_u32_le (drop 4 whole) ≡ length stored
  unfolding put_u32_le
  whole_data_len = get-put_u32_le (length stored) _ (omega (arith, is.most))

  whole_flags : byte_at whole 8 ≡ flags
  unfolding put_u32_le
  whole_flags = refl

  whole_crc : get_u32_le (drop 9 whole) ≡ crc32 frame
  unfolding put_u32_le
  whole_crc = get-put_u32_le (crc32 frame) _ (crc32-lt frame)

  whole_content : drop block_header_size whole ≡ stored ++ rest
  unfolding put_u32_le
  whole_content = refl

  whole_size : length whole ≡ block_header_size + (length stored + length rest)
  unfolding put_u32_le
  whole_size = omega (arith, length-append stored rest)

  block_decoded :
      (pre : List ℕ)
      → frame_decode lz (pre ++ whole) (length (pre ++ whole)) (length pre)
        ≡ some (record {
          frame = frame;
          page_no = get_u32_le frame;
          pos = length pre + (block_header_size + length stored);
        })
  unfolding frame_decode
  block_decoded pre =
      let size = length-append pre whole in
      let size' = whole_size in
      let least = is.least in
      let most = is.most in
      let same : (crc32 frame == crc32 frame) ≡ true = ==_refl (crc32 frame) in
      let behind = drop-append (length pre) pre whole refl in
      let in_buffer : (leb (length pre) (length (pre ++ whole))
            && leb block_header_size (length (pre ++ whole) - length pre))
          ≡ true =
        ground arith in
      let sized : (leb 520 (length frame)
            && (leb (length frame) max_decompressed && bit_and flags 0xfe == 0))
          ≡ true =
        ground arith in
      let whole_fits : leb (length stored) (length (pre ++ whole) - length pre - block_header_size)
          ≡ true =
        ground arith in
      let page : (not (get_u32_le frame == 0) && get_u32_le (drop 4 frame) == 0) ≡ true =
        ground (arith, is.page_given, is.padded) in
      rw
        (
          in_buffer, behind, whole_orig_len, whole_data_len, whole_flags, whole_crc, whole_content,
          sized, whole_fits, gives, same, page,
        )
        refl

-- What a stored frame gives back.
record Stores (lz : Lz4) (frame rest : List ℕ) (p : ℕ × List ℕ) : Type 0 where
  known : bit_and p.0 0xfe ≡ 0
  small : length p.1 ≤ length frame
  gives : block_frame lz p.0 (p.1 ++ rest) (length p.1) (length frame) ≡ some frame

module _ {lz : Lz4} (law : IsLz4 lz) (frame rest : List ℕ) where
  stored_raw : Stores lz frame rest (0, frame)
  stored_raw = record {
    known = refl;
    small = omega arith;
    gives =
        unfold block_frame in
        rw (==_refl (length frame), take-append (length frame) frame rest refl) refl;
  }

  stored_lz4 :
      (out : List ℕ)
      → lz.decompress_safe (out ++ rest) (length out) (length frame) ≡ some frame
      → length out ≤ length frame
      → Stores lz frame rest (flag_lz4, out)
  stored_lz4 out h short = record {
    known = refl;
    small = short;
    gives = unfold block_frame in rw (h, ==_refl (length frame)) refl;
  }

  stored_frame-Stores :
      (q : Option (List ℕ))
      → ((out : List ℕ)
          → q ≡ some out
          → lz.decompress_safe (out ++ rest) (length out) (length frame) ≡ some frame)
      → Stores lz frame rest (stored_frame frame q)
  unfolding stored_frame
  stored_frame-Stores none h = stored_raw
  stored_frame-Stores (some out) h =
      elim (Bool-cases (ltb 0 (length out) && ltb (length out) (length frame))) [
        | inl smaller ↦ rw smaller (stored_lz4 out (h out refl) (ground arith))
        | inr larger ↦ rw larger stored_raw
      ]

  pub try_compress_restores :
      (compress : Bool) (out : List ℕ)
      → length frame < 2 ^ 31
      → try_compress lz compress frame ≡ some out
      → lz.decompress_safe (out ++ rest) (length out) (length frame) ≡ some frame
  unfolding try_compress
  try_compress_restores compress out short h =
      let bound = lz.compress_bound (length frame) in
      elim (Bool-cases
        ((compress && (leb 64 (length frame) && leb (length frame) (2 ^ 31 - 1))) && ltb 0 bound)) [
          | inl asked ↦ law.restores frame out rest bound short (rw asked at h)
          | inr refused ↦ absurd (cc (rw refused at h))
        ]

  -- Behind whatever stands before it, a block that the encoder wrote for a frame, compressed or not,
  -- is decoded to this frame, and the position moves to the end of the block. LZ4 gives back what
  -- it compressed.
  pub frame_decode-encode_block :
      (compress : Bool) (pre : List ℕ)
      → IsFrame frame
      → frame_decode lz
          (pre ++ (encode_block lz compress frame ++ rest))
          (length (pre ++ (encode_block lz compress frame ++ rest)))
          (length pre)
        ≡ some (record {
          frame = frame;
          page_no = get_u32_le frame;
          pos = length pre + length (encode_block lz compress frame);
        })
  unfolding encode_block
  frame_decode-encode_block compress pre is =
      let p = stored_frame frame (try_compress lz compress frame) in
      let most = is.most in
      let s =
        stored_frame-Stores (try_compress lz compress frame)
          (λ out. try_compress_restores compress out (omega arith)) in
      let size : block_header_size + length p.1 ≡ length (block_bytes frame p) =
        unfold put_u32_le in omega arith in
      block_decoded lz frame p.1 rest p.0 is s.small s.known s.gives pre
      ∙ ap (λ n. some (record { frame = frame; page_no = get_u32_le frame; pos = length pre + n }))
          size
