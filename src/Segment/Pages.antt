-- ===== src/Segment/Pages.antt =====
-- src/storage/segment.c: format 3, one block for each page of a batch, and the batch that is rebuilt
-- from the blocks.
pub mod Newest
pub mod Order
pub mod Header
pub mod Rebuild
pub mod Stored
use otsardb.Base.{
  ℕ, zero, suc, ◌+◌, ◌-◌, ◌*◌, ◌/◌, ◌%◌, ◌^◌, Bool, true, false, ◌&&◌, ◌||◌, not, Option, none,
  some, List, [], ◌∷◌, ◌++◌, bit_and, ltb, leb, ◌==◌, if◌then◌else◌, ◌>>=◌, ◌>>◌, guard, length,
  take, drop, map,
}
use otsardb.Bytes.{put_u32_le, get_u32_le, bytes_eq}
use otsardb.Sha256.{hex_data}
use otsardb.WalBatch
use otsardb.WalBatch.{record_size, valid_page_size}
use otsardb.Segment.{
  commit_id_max, max_decompressed, format_version, wal_frames, Lz4, View, Encoded, encode_object,
  encode, fits_size,
}
use otsardb.Segment.Frame.{Decoded, frame_decode, encode_block}

-- A page and its newest frame.
pub record PageRef : Type 0 where
  pub page_no : ℕ
  pub last_frame_index : ℕ

-- Frame `i` is the newest of its page.
unfoldable pub note_page : List PageRef → ℕ → ℕ → List PageRef
note_page [] page_no i = record { page_no = page_no; last_frame_index = i } ∷ []
note_page (r ∷ refs) page_no i =
    let rest = note_page refs page_no i in
    if r.page_no == page_no then record r { last_frame_index = i } ∷ refs else r ∷ rest

-- The loop over the frames of the batch, with the frames that are left.
unfoldable pub collect : WalBatch.View → ℕ → ℕ → List PageRef → Option (List PageRef)
unfolding note_page
collect batch zero i refs = some refs
collect batch (suc left) i refs =
    WalBatch.frame batch i >>= λ f. collect batch left (i + 1) (note_page refs f.0 i)

-- `qsort` by page number; no two references have the same.
unfoldable pub insert_ref : PageRef → List PageRef → List PageRef
insert_ref r [] = r ∷ []
insert_ref r (s ∷ refs) =
    let rest = insert_ref r refs in if ltb r.page_no s.page_no then r ∷ s ∷ refs else s ∷ rest

unfoldable pub sort_refs : List PageRef → List PageRef
unfolding insert_ref
sort_refs [] = []
sort_refs (r ∷ refs) = insert_ref r (sort_refs refs)

-- The record of the frame that a reference names.
abbrev pub frame_of : WalBatch.View → PageRef → List ℕ
frame_of batch r =
    take (record_size batch.page_size)
      (drop (32 + r.last_frame_index * record_size batch.page_size) batch.bytes)

-- The header of the batch with another count of frames.
abbrev pub patched_header : List ℕ → ℕ → List ℕ
patched_header bytes count = take 24 bytes ++ (put_u32_le count ++ take 4 (drop 28 bytes))

module _ (lz : Lz4) where
  unfoldable pub encode_blocks : Bool → List (List ℕ) → List ℕ
  encode_blocks compress [] = []
  encode_blocks compress (frame ∷ frames) =
      encode_block lz compress frame ++ encode_blocks compress frames

  -- Where each block starts in the object, and its page.
  unfoldable pub block_table : Bool → WalBatch.View → ℕ → List PageRef → List (ℕ × ℕ)
  block_table compress batch offset [] = []
  block_table compress batch offset (r ∷ refs) =
      (offset, r.page_no)
      ∷ block_table compress batch (offset + length (encode_block lz compress (frame_of batch r)))
          refs

  -- `segment_encode_v3`. LZ4 is asked twice for a frame, once for the size and once for the bytes,
  -- and gives the same answer.
  unfoldable pub encode_v3 : List ℕ → List ℕ → Bool → Option Encoded
  unfolding collect sort_refs encode_blocks block_table encode_object
  encode_v3 commit_id payload compress = do
    batch ← WalBatch.decode (some payload) (length payload)
    guard (batch.format_version == WalBatch.version)
    found ← collect batch batch.frame_count 0 []
    guard (leb (record_size batch.page_size) (2 ^ 31 - 1))
    let refs = sort_refs found
    let stored =
        patched_header batch.bytes (length refs)
        ++ encode_blocks compress (map (frame_of batch) refs)
    guard (leb (length commit_id) commit_id_max)
    guard (fits_size (length commit_id) (length stored))
    let bytes = encode_object format_version wal_frames commit_id 0 stored
    some (record {
      bytes = bytes;
      object_sha256 = hex_data bytes;
      frames = block_table compress batch (60 + length commit_id + 32) refs;
    })

  -- `otsardb_segment_encode_with_frames`
  unfoldable pub encode_with_frames : ℕ → List ℕ → List ℕ → Bool → Option Encoded
  unfolding encode_v3
  encode_with_frames kind commit_id payload compress =
      let v3 = if kind == wal_frames then encode_v3 commit_id payload compress else none in
      if length commit_id == 0 || kind == 0
      then none
      else elim v3 [ none ↦ encode lz kind commit_id payload compress | some e ↦ some e ]

  -- The loop that decodes the blocks, with the blocks that are left.
  unfoldable pub frames_at : ℕ → List ℕ → ℕ → ℕ → Option (List ℕ × ℕ)
  frames_at zero payload record_size' pos = some ([], pos)
  frames_at (suc left) payload record_size' pos =
      frame_decode lz payload (length payload) pos >>= λ d.
      guard (length d.frame == record_size')
      >> (frames_at left payload record_size' d.pos >>= λ r. some (d.frame ++ r.0, r.1))

  -- `segment_decompress_v3`. Every frame has the size of a record, so the size of the batch that is
  -- rebuilt needs no test.
  unfoldable pub decompress_v3 : List ℕ → Option (List ℕ)
  unfolding frames_at valid_page_size
  decompress_v3 payload = do
    guard (leb 32 (length payload) && bytes_eq (take 8 payload) WalBatch.magic)
    let page_size = get_u32_le (drop 12 payload)
    let frame_count = get_u32_le (drop 24 payload)
    guard (valid_page_size page_size && not (frame_count == 0))
    guard (leb frame_count ((max_decompressed - 32) / record_size page_size))
    (frames, pos) ← frames_at frame_count payload (record_size page_size) 32
    guard (pos == length payload)
    let out = take 32 payload ++ frames
    batch ← WalBatch.decode (some out) (length out)
    some out

  -- `otsardb_segment_decompress`
  unfoldable pub decompress : View → Option (List ℕ)
  unfolding decompress_v3
  decompress view =
      let stored = take view.payload_size view.payload in
      let original_size = get_u32_le stored in
      if leb 3 view.version then decompress_v3 stored else (do
        guard view.compressed
        guard (leb 4 view.payload_size)
        guard (not (original_size == 0) && leb original_size max_decompressed)
        out ←
            lz.decompress_safe (drop 4 view.payload) ((view.payload_size - 4) % 2 ^ 32)
              original_size
        guard (length out == original_size)
        some out)
