-- ===== src/Segment/Pages/Stored.antt =====
-- src/storage/segment.c: an object of format 3 is decoded and decompressed to the newest frames.
use otsardb.Base.{
  ℕ, suc, ◌+◌, ◌-◌, ◌*◌, ◌^◌, ◌≤◌, ◌<◌, ◌≡◌, ◌≢◌, refl, ap, sym, ◌∙◌, subst, Bool, true, some, List,
  [], ◌∷◌, ◌++◌, length, length-take, length-drop, take_all, drop, map, All, arith,
}
use otsardb.Bytes.{get_u32_le}
use otsardb.WalBatch
use otsardb.WalBatch.{record_size}
use otsardb.WalBatch.Bounds.{Accepted, decode-Accepted}
use otsardb.Segment.{
  header_size, commit_id_max, max_decompressed, format_version, wal_frames, Lz4, IsLz4, View,
  Encoded, encode_object, fits_size, decode,
}
use otsardb.Segment.Block.{IsFrame}
use otsardb.Segment.Layout.{view_of, decode-encode_object}
use otsardb.Segment.Pages.{
  PageRef, collect, sort_refs, frame_of, patched_header, encode_blocks, encode_v3, decompress_v3,
  decompress,
}
use otsardb.Segment.Pages.Newest.{page_of, IsNewest, has}
use otsardb.Segment.Pages.Order.{sort_refs-collect}
use otsardb.Segment.Pages.Header.{get_u32_le-take}
use otsardb.Segment.Pages.Rebuild.{concat, Records, decompress_v3-encode_blocks}

module _ (payload : List ℕ) (batch : WalBatch.View)
    (decoded : WalBatch.decode (some payload) (length payload) ≡ some batch) where
  bytes_lem : batch.bytes ≡ payload
  unfolding WalBatch.decode
  bytes_lem = ground arith

  accepted : Accepted payload (length payload) batch
  accepted = decode-Accepted payload (length payload) batch decoded

  -- The record of frame `i`.
  abbrev record_at : ℕ → List ℕ
  record_at i = drop (32 + i * record_size batch.page_size) batch.bytes

  record_at-IsFrame :
      (r : PageRef)
      → IsNewest batch batch.frame_count r
      → get_u32_le (drop 4 (record_at r.last_frame_index)) ≡ 0
      → IsFrame (frame_of batch r) × (length (frame_of batch r) ≡ record_size batch.page_size)
  record_at-IsFrame r is padded =
      let i = r.last_frame_index in
      let here = record_at i in
      let a = accepted in
      let (least, most) = a.page_bounds in
      let inside = a.inside i is.within in
      let whole = ap (λ l. length l) bytes_lem in
      let left = length-drop (32 + i * record_size batch.page_size) batch.bytes in
      let room : record_size batch.page_size ≤ length here = omega arith in
      let size : length (frame_of batch r) ≡ record_size batch.page_size =
        omega (arith, length-take (record_size batch.page_size) here) in
      let page = get_u32_le-take 0 (record_size batch.page_size) here (omega arith) room in
      let pad = get_u32_le-take 4 (record_size batch.page_size) here (omega arith) room in
      (
        record {
          least = omega arith;
          most = omega arith;
          page_given = λ z. is.given (sym is.named ∙ sym page ∙ z);
          padded = pad ∙ padded;
        },
        size,
      )

  refs-Records :
      (refs : List PageRef)
      → All (IsNewest batch batch.frame_count) refs
      → ((i : ℕ) → i < batch.frame_count → get_u32_le (drop 4 (record_at i)) ≡ 0)
      → Records (record_size batch.page_size) (map (frame_of batch) refs)
  refs-Records [] h padded = tt
  refs-Records (r ∷ refs) h padded = (
    record_at-IsFrame r h.0 (padded r.last_frame_index (h.0).within),
    refs-Records refs h.1 padded,
  )

length-map : (f : PageRef → List ℕ) (refs : List PageRef) → length (map f refs) ≡ length refs
length-map f [] = refl
length-map f (r ∷ refs) = ap suc (length-map f refs)

has-nonempty : (refs : List PageRef) (p : ℕ) → has refs p ≡ true → length refs ≢ 0
has-nonempty [] p h = absurd (cc h)
has-nonempty (r ∷ refs) p h = omega arith

-- What the encoder stores for the references.
abbrev stored_of : Lz4 → Bool → WalBatch.View → List PageRef → List ℕ
stored_of lz compress batch refs =
    patched_header batch.bytes (length refs)
    ++ encode_blocks lz compress (map (frame_of batch) refs)

record IsEncoded (lz : Lz4) (commit_id : List ℕ) (compress : Bool) (batch : WalBatch.View)
    (refs : List PageRef) (e : Encoded) : Type 0 where
  id_short : length commit_id ≤ commit_id_max
  fits : fits_size (length commit_id) (length (stored_of lz compress batch refs)) ≡ true
  object :
      e.bytes
      ≡ encode_object format_version wal_frames commit_id 0 (stored_of lz compress batch refs)

encode_v3-IsEncoded :
    (lz : Lz4) (commit_id payload : List ℕ) (compress : Bool) (batch : WalBatch.View)
    (found : List PageRef) (e : Encoded)
    → WalBatch.decode (some payload) (length payload) ≡ some batch
    → collect batch batch.frame_count 0 [] ≡ some found
    → encode_v3 lz commit_id payload compress ≡ some e
    → IsEncoded lz commit_id compress batch (sort_refs found) e
unfolding encode_v3
encode_v3-IsEncoded lz commit_id payload compress batch found e d c h =
    let h' = rw (d, c) at h in
    record { id_short = ground arith; fits = ground arith; object = ground arith }

-- A batch whose frames have a zero word behind the page number, as its encoder writes it, and which is
-- encoded with format 3, is decoded from the object with its commit identifier, and decompressed to
-- the batch of the newest frames: the header of the batch with their count, and the record of each
-- page's last frame, in the order of the pages. They are not more than 2^30 bytes. LZ4 gives back
-- what it compressed.
pub decompress-encode_v3 :
    {lz : Lz4}
    → IsLz4 lz
    → (commit_id payload : List ℕ) (compress : Bool) (batch : WalBatch.View) (found : List PageRef)
      (e : Encoded)
    → WalBatch.decode (some payload) (length payload) ≡ some batch
    → collect batch batch.frame_count 0 [] ≡ some found
    → ((i : ℕ)
        → i < batch.frame_count
        → get_u32_le (drop 4 (drop (32 + i * record_size batch.page_size) batch.bytes)) ≡ 0)
    → length (sort_refs found) * record_size batch.page_size ≤ max_decompressed - 32
    → length commit_id ≢ 0
    → encode_v3 lz commit_id payload compress ≡ some e
    → (view : View) × (decode e.bytes (length e.bytes) ≡ some view)
      × (view.commit_id ≡ commit_id)
      × (decompress lz view
          ≡ some (
              patched_header payload (length (sort_refs found))
              ++ concat (map (frame_of batch) (sort_refs found))))
unfolding decompress
decompress-encode_v3 {lz} law commit_id payload compress batch found e d c padded few given h =
    let refs = sort_refs found in
    let frames = map (frame_of batch) refs in
    let is = encode_v3-IsEncoded lz commit_id payload compress batch found e d c h in
    let (newest, covers, ordered) = sort_refs-collect batch batch.frame_count found c in
    let a = decode-Accepted payload (length payload) batch d in
    let nonempty = a.nonempty in
    let some_refs = has-nonempty refs (page_of batch 0) (covers 0 (omega arith)) in
    let counted = length-map (frame_of batch) refs in
    let rebuilt =
      decompress_v3-encode_blocks law compress payload batch d frames
        (refs-Records payload batch d refs newest padded) (λ z. some_refs (sym counted ∙ z))
        (subst (λ n. n * record_size batch.page_size ≤ max_decompressed - 32) (sym counted) few) in
    let stored = stored_of lz compress batch refs in
    let id = is.id_short in
    let fits = is.fits in
    let total : header_size + length commit_id + length stored < 2 ^ 64 = ground arith in
    (
      view_of format_version wal_frames commit_id 0 stored,
      ap (λ b. decode b (length b)) is.object
          ∙ decode-encode_object format_version wal_frames 0 commit_id stored (omega arith)
              (omega arith) (omega arith) id total (ground arith),
      refl,
      ap (decompress_v3 lz) (take_all (length stored) stored (omega arith))
          ∙ ap
              (λ b.
                decompress_v3 lz
                  (patched_header b (length refs) ++ encode_blocks lz compress frames))
              (bytes_lem payload batch d)
          ∙ ap
              (λ n. decompress_v3 lz (patched_header payload n ++ encode_blocks lz compress frames))
              (sym counted)
          ∙ rebuilt
          ∙ ap (λ n. some (patched_header payload n ++ concat frames)) counted,
    )
