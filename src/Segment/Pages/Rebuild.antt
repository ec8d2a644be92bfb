-- ===== src/Segment/Pages/Rebuild.antt =====
-- src/storage/segment.c: the batch that is rebuilt from the blocks of format 3.
use native.Mathlib.Nat.{mod-eq_of_lt, le-div_iff_mul-le}
use otsardb.Base.{
  ℕ, suc, ◌+◌, ◌-◌, ◌*◌, ◌/◌, ◌^◌, ◌≤◌, ◌<◌, ◌≡◌, ◌≢◌, refl, ap, sym, ◌∙◌, Bool, true, not, some,
  List, [], ◌∷◌, ◌++◌, leb, le→leb, ◌==◌, ==_refl, length, length-append, take, drop, append_assoc,
  append-nil, All, arith,
}
use otsardb.Bytes.{get_u32_le, get_u64_le, bytes_eq}
use otsardb.WalBatch
use otsardb.WalBatch.{record_size, valid_page_size, fits_size, total_size, size_max}
use otsardb.Segment.{max_decompressed, Lz4, IsLz4}
use otsardb.Segment.Frame.{frame_decode, encode_block}
use otsardb.Segment.Block.{IsFrame, frame_decode-encode_block}
use otsardb.Segment.Pages.{patched_header, encode_blocks, frames_at, decompress_v3}
use otsardb.Segment.Pages.Header.{
  copy_magic, copy_u32, copy_u64, copied_frames, copy_header, length-patched_header,
}

abbrev pub concat : List (List ℕ) → List ℕ
concat [] = []
concat (frame ∷ frames) = frame ++ concat frames

abbrev pub Records : ℕ → List (List ℕ) → Type 0
Records size = All (λ frame. IsFrame frame × (length frame ≡ size))

length-concat :
    (size : ℕ) (frames : List (List ℕ))
    → Records size frames
    → length (concat frames) ≡ length frames * size
length-concat size [] h = omega arith
length-concat size (frame ∷ frames) h =
    let rest = length-concat size frames h.1 in
    let join = length-append frame (concat frames) in
    let this = h.0.1 in
    let more : suc (length frames) * size ≡ size + length frames * size = omega arith in omega arith

module _ {lz : Lz4} (law : IsLz4 lz) (compress : Bool) (size : ℕ) where
  frames_at_block :
      (left pos' : ℕ) (payload frame frames : List ℕ) (pos end' : ℕ)
      → frame_decode lz payload (length payload) pos
        ≡ some (record { frame = frame; page_no = get_u32_le frame; pos = pos' })
      → length frame ≡ size
      → frames_at lz left payload size pos' ≡ some (frames, end')
      → frames_at lz (suc left) payload size pos ≡ some (frame ++ frames, end')
  unfolding frames_at
  frames_at_block left pos' payload frame frames pos end' h e rest =
      rw (h, e, ==_refl size, rest) refl

  frames_at-encode_blocks :
      (pre : List ℕ) (frames : List (List ℕ))
      → Records size frames
      → frames_at lz (length frames) (pre ++ encode_blocks lz compress frames) size (length pre)
        ≡ some (concat frames, length (pre ++ encode_blocks lz compress frames))
  unfolding encode_blocks
  frames_at-encode_blocks pre [] h =
      unfold frames_at in ap (λ l. some ([], length l)) (sym (append-nil pre))
  frames_at-encode_blocks pre (frame ∷ frames) h =
      let block = encode_block lz compress frame in
      let behind = encode_blocks lz compress frames in
      let whole = pre ++ (block ++ behind) in
      let same : (pre ++ block) ++ behind ≡ whole = append_assoc pre block behind in
      let this = frame_decode-encode_block law frame behind compress pre h.0.0 in
      let rest = frames_at-encode_blocks (pre ++ block) frames h.1 in
      frames_at_block (length frames) (length pre + length block) whole frame (concat frames)
        (length pre) (length whole) this h.0.1
        (ap (λ n. frames_at lz (length frames) whole size n) (sym (length-append pre block))
          ∙ ap (λ l. frames_at lz (length frames) l size (length (pre ++ block))) (sym same)
          ∙ rest
          ∙ ap (λ l. some (concat frames, length l)) same)

-- What a batch that was decoded says of its header.
record Header (payload : List ℕ) (batch : WalBatch.View) : Type 0 where
  versioned : get_u32_le (drop 8 payload) ≡ 1
  sized : get_u32_le (drop 12 payload) ≡ batch.page_size
  databased : get_u64_le (drop 16 payload) ≢ 0
  valid : valid_page_size batch.page_size ≡ true
  tagged : bytes_eq (take 8 payload) WalBatch.magic ≡ true
  long : 32 ≤ length payload

decode-Header :
    (payload : List ℕ) (batch : WalBatch.View)
    → WalBatch.decode (some payload) (length payload) ≡ some batch
    → Header payload batch
unfolding WalBatch.decode
decode-Header payload batch h = record {
  versioned = ground arith;
  sized = ground arith;
  databased = ground arith;
  valid = ground arith;
  tagged = ground arith;
  long = ground arith;
}

-- A buffer with known fields is decoded as a batch.
decode_known :
    (out : List ℕ) (ps count : ℕ)
    → bytes_eq (take 8 out) WalBatch.magic ≡ true
    → get_u32_le (drop 8 out) ≡ 1
    → get_u32_le (drop 12 out) ≡ ps
    → get_u64_le (drop 16 out) ≢ 0
    → get_u32_le (drop 24 out) ≡ count
    → valid_page_size ps ≡ true
    → count ≢ 0
    → fits_size ps count ≡ true
    → length out ≡ 32 + count * record_size ps
    → length out < 2 ^ 64
    → (batch : WalBatch.View) × (WalBatch.decode (some out) (length out) ≡ some batch)
unfolding WalBatch.decode
decode_known out ps count tagged versioned sized databased counted valid given fits size small =
    let total : (total_size ps count == length out) ≡ true =
      let wrap : total_size ps count ≡ 32 + count * record_size ps = mod-eq_of_lt (omega arith) in
      ground arith in
    let long : leb 32 (length out) ≡ true = ground arith in
    (
      record {
        format_version = 1;
        page_size = ps;
        database_size_pages = get_u64_le (drop 16 out);
        frame_count = count;
        bytes = out;
        size = length out;
      },
      rw (long, tagged, versioned, sized, counted, valid, fits, total) (ground arith),
    )

module _ {lz : Lz4} (law : IsLz4 lz) (compress : Bool) (payload : List ℕ) (batch : WalBatch.View)
    (decoded : WalBatch.decode (some payload) (length payload) ≡ some batch)
    (frames : List (List ℕ)) (records : Records (record_size batch.page_size) frames)
    (given : length frames ≢ 0)
    (few : length frames * record_size batch.page_size ≤ max_decompressed - 32) where
  abbrev count : ℕ
  count = length frames

  abbrev stored : List ℕ
  stored = patched_header payload count ++ encode_blocks lz compress frames

  abbrev rebuilt : List ℕ
  rebuilt = patched_header payload count ++ concat frames

  header : Header payload batch
  header = decode-Header payload batch decoded

  count_small : count < 2 ^ 32
  count_small = grind arith

  few_enough : leb count ((max_decompressed - 32) / record_size batch.page_size) ≡ true
  few_enough =
      le→leb count ((max_decompressed - 32) / record_size batch.page_size)
        ((le-div_iff_mul-le (omega arith)).1 few)

  fits : fits_size batch.page_size count ≡ true
  fits =
      le→leb count ((size_max - 32) / record_size batch.page_size)
        ((le-div_iff_mul-le (omega arith)).1 (omega arith))

  rebuilt_size : length rebuilt ≡ 32 + count * record_size batch.page_size
  rebuilt_size = omega (
    arith,
    length-append (patched_header payload count) (concat frames),
    length-concat (record_size batch.page_size) frames records,
    length-patched_header payload count [] header.long,
  )

  rebuilt_decodes : (b : WalBatch.View) × (WalBatch.decode (some rebuilt) (length rebuilt) ≡ some b)
  rebuilt_decodes =
      let h = header in
      let size = rebuilt_size in
      let tail = concat frames in
      decode_known rebuilt batch.page_size count
        (ap (λ l. bytes_eq l WalBatch.magic) (copy_magic payload count tail h.long) ∙ h.tagged)
        (copy_u32 payload count tail h.long 8 (omega arith) ∙ h.versioned)
        (copy_u32 payload count tail h.long 12 (omega arith) ∙ h.sized)
        (λ z. h.databased (sym (copy_u64 payload count tail h.long 16 (omega arith)) ∙ z))
        (copied_frames payload count tail h.long count_small) h.valid given fits rebuilt_size
        (omega arith)

  -- From the header of a batch with the count of the blocks and the blocks of any frames of its
  -- record size, of which there is one at least and which are not too large together, the batch
  -- of these frames behind this header is rebuilt. LZ4 gives back what it compressed.
  pub decompress_v3-encode_blocks : decompress_v3 lz stored ≡ some rebuilt
  unfolding decompress_v3
  decompress_v3-encode_blocks =
      let h = header in
      let tail = encode_blocks lz compress frames in
      let pre = length-patched_header payload count tail h.long in
      let long : leb 32 (length stored) ≡ true =
        le→leb 32 (length stored)
          (omega (arith, length-append (patched_header payload count) tail)) in
      let tagged =
        ap (λ l. bytes_eq l WalBatch.magic) (copy_magic payload count tail h.long) ∙ h.tagged in
      let sized = copy_u32 payload count tail h.long 12 (omega arith) ∙ h.sized in
      let counted = copied_frames payload count tail h.long count_small in
      let some_frames : not (count == 0) ≡ true = ground (arith, given) in
      let read : frames_at lz count stored (record_size batch.page_size) 32
          ≡ some (concat frames, length stored) =
        ap (frames_at lz count stored (record_size batch.page_size)) (sym pre)
        ∙ frames_at-encode_blocks law compress (record_size batch.page_size)
            (patched_header payload count) frames records in
      let (b, whole) = rebuilt_decodes in
      rw
        (
          long,
          tagged,
          sized,
          counted,
          h.valid,
          some_frames,
          few_enough,
          read,
          ==_refl (length stored),
          copy_header payload count tail h.long,
          whole,
        )
        refl
