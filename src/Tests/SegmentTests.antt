-- ===== src/Tests/SegmentTests.antt =====
-- Tests of src/storage/segment.c on a batch of three pages of 512 bytes, with a compression that
-- takes bytes which are all the same behind the first eight.
use otsardb.Base.{
  ℕ, zero, suc, ◌+◌, ◌-◌, ◌^◌, ◌≤◌, ◌<◌, ◌≡◌, refl, ap, sym, ◌∙◌, true, false, Option, none, some,
  List, [], ◌∷◌, ◌++◌, replicate, take, drop, length, arith, if◌then◌else◌, ◌==◌, ◌>>=◌,
  Option-cases, inl, inr, append_assoc, take-append, take-append-drop, length-take, length-drop,
  All, map, ◌*◌,
}
use otsardb.Bytes.{byte_at, put_u32_le, put_u64_le, get_u32_le, get_u64_le}
use otsardb.Bytes.RoundTrip.{byte_behind}
use otsardb.WalBatch
use otsardb.Sha256.{hex_data}
use otsardb.WalBatch.{record_size}
use otsardb.Segment.{Lz4, IsLz4, View, Encoded, crc32, encode_object, encode, decode, fits_size}
use otsardb.Segment.Frame.{Decoded, frame_decode, encode_block}
use otsardb.Segment.Whole.{contents, contents-encode}
use otsardb.Segment.Bounds.{Accepted, frame_decode-Accepted}
use otsardb.Segment.Block.{IsFrame, frame_decode-encode_block}
use otsardb.Segment.Pages.{
  PageRef, collect, sort_refs, frame_of, patched_header, encode_blocks, block_table, encode_v3,
  decompress,
}
use otsardb.Segment.Pages.Rebuild.{concat}
use otsardb.Segment.Pages.Stored.{decompress-encode_v3}
use otsardb.Segment.Pages.Newest.{IsNewest, has, page_of}
use otsardb.Segment.Pages.Order.{Ascending, sort_refs-collect}

abbrev uniform : List ℕ → Option ℕ
uniform [] = none
uniform (b ∷ []) = some b
uniform (b ∷ c ∷ bytes) = if b == c then uniform (c ∷ bytes) else none

abbrev toy : Lz4
toy = record {
  compress_bound = λ n. n;
  compress_default =
      λ source capacity. uniform (drop 8 source) >>= λ b. some (take 8 source ++ b ∷ []);
  decompress_safe =
      λ stored size capacity. some (take 8 stored ++ replicate (capacity - 8) (byte_at stored 8));
}

uniform-replicate :
    (bytes : List ℕ) (b : ℕ)
    → uniform bytes ≡ some b
    → (bytes ≡ replicate (length bytes) b) × (1 ≤ length bytes)
uniform-replicate [] b h = absurd (cc h)
uniform-replicate (c ∷ []) b h = let e : c ≡ b = cc h in (ap (λ x. x ∷ []) e, omega arith)
uniform-replicate (c ∷ d ∷ bytes) b h = let rest = uniform-replicate (d ∷ bytes) b in ground arith

toy-IsLz4 : IsLz4 toy
toy-IsLz4 = record { restores = restores_toy }
  where
    restores_toy :
        (source out rest : List ℕ) (capacity : ℕ)
        → length source < 2 ^ 31
        → toy.compress_default source capacity ≡ some out
        → toy.decompress_safe (out ++ rest) (length out) (length source) ≡ some source
    restores_toy source out rest capacity small h = elim (Option-cases (uniform (drop 8 source))) [
      | inl no_byte ↦ absurd (cc (rw no_byte at h))
      | inr (b, is) ↦
          let (same, long) = uniform-replicate (drop 8 source) b is in
          let size = length-drop 8 source in
          let head : length (take 8 source) ≡ 8 = omega (arith, length-take 8 source) in
          let whole : out ++ rest ≡ take 8 source ++ b ∷ rest =
            ap (λ o. o ++ rest) (sym (cc (rw is at h)))
            ∙ append_assoc (take 8 source) (b ∷ []) rest in
          let byte : byte_at (out ++ rest) 8 ≡ b =
            ap (λ l. byte_at l 8) whole ∙ byte_behind 8 (take 8 source) rest b head in
          let first : take 8 (out ++ rest) ≡ take 8 source =
            ap (take 8) whole ∙ take-append 8 (take 8 source) (b ∷ rest) head in
          ap some (
            ap (λ l. l ++ replicate (length source - 8) (byte_at (out ++ rest) 8)) first
            ∙ ap (λ x. take 8 source ++ replicate (length source - 8) x) byte
            ∙ ap (λ n. take 8 source ++ replicate n b) (sym size)
            ∙ ap (λ l. take 8 source ++ l) (sym same)
            ∙ take-append-drop 8 source)
    ]

-- A frame of page 3 with bytes that are all the same, and its block.
abbrev frame3 : List ℕ
frame3 = 3 ∷ 0 ∷ 0 ∷ 0 ∷ 0 ∷ 0 ∷ 0 ∷ 0 ∷ replicate 512 5

frame3-IsFrame : IsFrame frame3
unfolding get_u32_le
frame3-IsFrame = record {
  least = omega arith;
  most = omega arith;
  page_given = omega arith;
  padded = refl;
}

crc32_check : crc32 (49 ∷ 50 ∷ 51 ∷ 52 ∷ 53 ∷ 54 ∷ 55 ∷ 56 ∷ 57 ∷ []) ≡ 0xCBF43926
unfolding crc32
crc32_check = refl

block_small : length (encode_block toy true frame3) ≡ 22
unfolding encode_block put_u32_le
block_small = refl

block_raw : length (encode_block toy false frame3) ≡ 533
unfolding encode_block put_u32_le
block_raw = refl

abbrev behind : List ℕ
behind = 9 ∷ 9 ∷ []

abbrev decoded3 : Decoded
decoded3 = record {
  frame = frame3;
  page_no = get_u32_le frame3;
  pos = 1 + length (encode_block toy true frame3);
}

frame_decode-encode_block_example :
    frame_decode toy
      (7 ∷ (encode_block toy true frame3 ++ behind))
      (length (7 ∷ (encode_block toy true frame3 ++ behind)))
      1
    ≡ some decoded3
frame_decode-encode_block_example =
    frame_decode-encode_block toy-IsLz4 frame3 behind true (7 ∷ []) frame3-IsFrame

frame_decode-Accepted_example :
    Accepted (length (7 ∷ (encode_block toy true frame3 ++ behind))) 1 decoded3
frame_decode-Accepted_example =
    frame_decode-Accepted toy (7 ∷ (encode_block toy true frame3 ++ behind)) 1 decoded3
      frame_decode-encode_block_example

-- A batch with the pages 7, 3, 7.
abbrev pages : List ℕ
pages = replicate 512 1 ++ replicate 512 2

abbrev payload : List ℕ
payload =
    WalBatch.encode_header 512 9 3
    ++ (WalBatch.encode_frame 512 7 pages
        ++ (WalBatch.encode_frame 512 3 (drop 512 pages)
            ++ (WalBatch.encode_frame 512 7 pages ++ [])))

abbrev batch : WalBatch.View
batch = record {
  format_version = 1;
  page_size = 512;
  database_size_pages = 9;
  frame_count = 3;
  bytes = payload;
  size = length payload;
}

abbrev found : List PageRef
found =
    record { page_no = 7; last_frame_index = 2 } ∷ record { page_no = 3; last_frame_index = 1 } ∷ []

collected : collect batch 3 0 [] ≡ some found
unfolding collect WalBatch.frame get_u32_le WalBatch.encode_header put_u32_le put_u64_le
    WalBatch.encode_frame
collected = refl

sorted :
    sort_refs found
    ≡ record { page_no = 3; last_frame_index = 1 }
      ∷ record { page_no = 7; last_frame_index = 2 }
      ∷ []
unfolding sort_refs
sorted = refl

sort_refs-collect_example :
    All (IsNewest batch 3) (sort_refs found)
    × ((j : ℕ) → j < 3 → has (sort_refs found) (page_of batch j) ≡ true)
    × Ascending (sort_refs found)
sort_refs-collect_example = sort_refs-collect batch 3 found collected

-- The object of format 2 of a payload that is compressed.
abbrev id : List ℕ
id = 99 ∷ 49 ∷ []

abbrev object2 : Encoded
object2 =
    let bytes =
      encode_object 2 1 id 1 (put_u32_le 520 ++ (3 ∷ 0 ∷ 0 ∷ 0 ∷ 0 ∷ 0 ∷ 0 ∷ 0 ∷ 5 ∷ [])) in
    record { bytes = bytes; object_sha256 = hex_data bytes; frames = [] }

encoded2 : encode toy 1 id frame3 true ≡ some object2
unfolding encode put_u32_le
encoded2 = refl

contents-encode_example :
    (view : View) × (decode object2.bytes (length object2.bytes) ≡ some view)
    × (view.kind ≡ 1)
    × (view.commit_id ≡ id)
    × (contents toy view ≡ some frame3)
contents-encode_example =
    contents-encode toy-IsLz4 1 id frame3 true object2 encoded2 (omega arith) (omega arith)

no_commit_id : encode toy 1 [] frame3 true ≡ none
unfolding encode
no_commit_id = refl

-- The object of format 3 of the batch.
abbrev object3 : Encoded
object3 =
    let bytes = encode_object 3 1 id 0 (
      patched_header payload (length (sort_refs found))
      ++ encode_blocks toy true (map (frame_of batch) (sort_refs found))) in
    record {
      bytes = bytes;
      object_sha256 = hex_data bytes;
      frames = block_table toy true batch 94 (sort_refs found);
    }

batch_decoded : WalBatch.decode (some payload) (length payload) ≡ some batch
unfolding WalBatch.decode get_u32_le get_u64_le WalBatch.encode_header put_u32_le put_u64_le
    WalBatch.encode_frame
batch_decoded = refl

abbrev stored3 : List ℕ
stored3 =
    patched_header payload (length (sort_refs found))
    ++ encode_blocks toy true (map (frame_of batch) (sort_refs found))

size_fits : fits_size (length id) (length stored3) ≡ true
unfolding sort_refs encode_blocks encode_block put_u32_le put_u64_le WalBatch.encode_header
    WalBatch.encode_frame
size_fits = refl

encoded3 : encode_v3 toy id payload true ≡ some object3
unfolding encode_v3
encoded3 = rw (batch_decoded, collected, size_fits) refl

zero_words :
    (i : ℕ)
    → i < 3
    → get_u32_le (drop 4 (drop (32 + i * record_size batch.page_size) batch.bytes)) ≡ 0
unfolding get_u32_le WalBatch.encode_header put_u32_le put_u64_le WalBatch.encode_frame
zero_words zero h = refl
zero_words (suc zero) h = refl
zero_words (suc (suc zero)) h = refl
zero_words (suc (suc (suc i))) h = absurd (omega arith)

decompress-encode_v3_example :
    (view : View) × (decode object3.bytes (length object3.bytes) ≡ some view)
    × (view.commit_id ≡ id)
    × (decompress toy view
        ≡ some (
            patched_header payload (length (sort_refs found))
            ++ concat (map (frame_of batch) (sort_refs found))))
unfolding sort_refs
decompress-encode_v3_example =
    decompress-encode_v3 toy-IsLz4 id payload true batch found object3 batch_decoded collected
      zero_words (omega arith) (omega arith) encoded3
