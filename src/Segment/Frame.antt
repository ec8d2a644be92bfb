-- ===== src/Segment/Frame.antt =====
-- src/storage/segment.c: the blocks of format 3, each with the record of one frame.
use otsardb.Base.{
  ℕ, ◌+◌, ◌-◌, Bool, ◌&&◌, not, Option, none, some, List, ◌∷◌, ◌++◌, bit_and, ltb, leb, ◌==◌,
  if◌then◌else◌, ◌>>=◌, ◌>>◌, guard, length, take, drop,
}
use otsardb.Bytes.{byte_at, put_u32_le, get_u32_le}
use otsardb.Segment.{max_decompressed, block_header_size, flag_lz4, Lz4, crc32, try_compress}

-- A frame, its page, and the position behind its block.
pub record Decoded : Type 0 where
  pub frame : List ℕ
  pub page_no : ℕ
  pub pos : ℕ

-- A block as the encoder writes it: compressed if that makes it smaller.
unfoldable pub stored_frame : List ℕ → Option (List ℕ) → ℕ × List ℕ
stored_frame frame none = (0, frame)
stored_frame frame (some out) =
    if ltb 0 (length out) && ltb (length out) (length frame) then (flag_lz4, out) else (0, frame)

abbrev pub block_bytes : List ℕ → ℕ × List ℕ → List ℕ
block_bytes frame (flags, stored) =
    put_u32_le (length frame)
    ++ (put_u32_le (length stored) ++ (flags ∷ (put_u32_le (crc32 frame) ++ stored)))

module _ (lz : Lz4) where
  -- The frame that a block stores.
  unfoldable pub block_frame : ℕ → List ℕ → ℕ → ℕ → Option (List ℕ)
  block_frame flags stored data_len orig_len =
      if bit_and flags flag_lz4 == 1
      then (lz.decompress_safe stored data_len orig_len >>= λ frame.
          guard (length frame == orig_len) >> some frame)
      else guard (data_len == orig_len) >> some (take orig_len stored)

  -- `otsardb_segment_frame_decode` on a buffer of `size` bytes.
  unfoldable pub frame_decode : List ℕ → ℕ → ℕ → Option Decoded
  unfolding block_frame crc32
  frame_decode bytes size pos = do
    guard (leb pos size && leb block_header_size (size - pos))
    let block = drop pos bytes
    let orig_len = get_u32_le block
    let data_len = get_u32_le (drop 4 block)
    let flags = byte_at block 8
    let frame_crc = get_u32_le (drop 9 block)
    guard (leb 520 orig_len && (leb orig_len max_decompressed && bit_and flags 0xfe == 0))
    guard (leb data_len (size - pos - block_header_size))
    frame ← block_frame flags (drop block_header_size block) data_len orig_len
    guard (crc32 frame == frame_crc)
    guard (not (get_u32_le frame == 0) && get_u32_le (drop 4 frame) == 0)
    some (record {
      frame = frame;
      page_no = get_u32_le frame;
      pos = pos + (block_header_size + data_len);
    })

  unfoldable pub encode_block : Bool → List ℕ → List ℕ
  unfolding stored_frame try_compress crc32
  encode_block compress frame =
      block_bytes frame (stored_frame frame (try_compress lz compress frame))
