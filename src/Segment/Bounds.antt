-- ===== src/Segment/Bounds.antt =====
-- src/storage/segment.c: what the decoder of a block accepts.
use otsardb.Base.{
  ℕ, ◌+◌, ◌-◌, ◌≤◌, ◌≡◌, ◌≢◌, true, some, List, leb→le, length-drop, leb, length, drop, length-take,
  arith,
}
use otsardb.Bytes.{byte_at, get_u32_le}
use otsardb.Segment.{block_header_size, max_decompressed, Lz4}
use otsardb.Segment.Frame.{Decoded, block_frame, frame_decode}

-- A frame that was decoded from a position: its block ends behind the header and within the buffer,
-- it has a size that a record can have, and it is that of a page.
pub record Accepted (size pos : ℕ) (d : Decoded) : Type 0 where
  pub moves : pos + block_header_size ≤ d.pos
  pub inside : d.pos ≤ size
  pub measured : (520 ≤ length d.frame) × (length d.frame ≤ max_decompressed)
  pub page_given : d.page_no ≢ 0
  pub page_of_frame : d.page_no ≡ get_u32_le d.frame
  pub padded : get_u32_le (drop 4 d.frame) ≡ 0

length-block_frame :
    (lz : Lz4) (flags data_len orig_len : ℕ) (stored frame : List ℕ)
    → data_len ≤ length stored
    → block_frame lz flags stored data_len orig_len ≡ some frame
    → length frame ≡ orig_len
unfolding block_frame
length-block_frame lz flags data_len orig_len stored frame long h =
    let size = length-take orig_len stored in ground arith

-- Whatever the bytes of a buffer and whatever LZ4 gives, a block that is accepted ends behind its
-- header and within the buffer, and its frame has between 520 bytes and 2^30 bytes and names a page
-- that is not 0, followed by a zero word.
pub frame_decode-Accepted :
    (lz : Lz4) (bytes : List ℕ) (pos : ℕ) (d : Decoded)
    → frame_decode lz bytes (length bytes) pos ≡ some d
    → Accepted (length bytes) pos d
unfolding frame_decode
frame_decode-Accepted lz bytes pos d h =
    let block = drop pos bytes in
    let left = length-drop pos bytes in
    let left' = length-drop block_header_size block in
    let orig_len = get_u32_le block in
    let data_len = get_u32_le (drop 4 block) in
    let frame : block_frame lz (byte_at block 8) (drop block_header_size block) data_len orig_len
        ≡ some d.frame =
      ground arith in
    let fits : data_len ≤ length bytes - pos - block_header_size = ground arith in
    let size =
      length-block_frame lz (byte_at block 8) data_len orig_len (drop block_header_size block)
        d.frame (omega arith) frame in
    let least : leb 520 orig_len ≡ true = ground arith in
    let most : leb orig_len max_decompressed ≡ true = ground arith in
    record {
      moves = ground arith;
      inside = ground arith;
      measured = (
        omega (arith, leb→le 520 orig_len least),
        omega (arith, leb→le orig_len max_decompressed most),
      );
      page_given = ground arith;
      page_of_frame = ground arith;
      padded = ground arith;
    }
