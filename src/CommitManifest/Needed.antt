-- ===== src/CommitManifest/Needed.antt =====
-- src/storage/commit_manifest.c: the computed size, and the encoder as a whole from format 3 on.
use otsardb.Base.{
  ℕ, ◌+◌, ◌≤◌, ◌<◌, ◌^◌, ◌≡◌, refl, ap, Bool, true, false, Option, none, some, List, [], ◌∷◌, ◌++◌,
  leb, ltb, not, ◌||◌, ◌==◌, length, arith, All, length-append,
}
use otsardb.Text.{codes, decimal}
use otsardb.Text.Decimal.{decimal_given, decimal_short, decimal_size}
use otsardb.Text.Write.{int_max, print_size_lem, room_for_lem}
use otsardb.Sha256.{hex_data}
use otsardb.CommitManifest.{
  SegmentRef, Manifest, encodable, print_header, print_entry, comma, entries_size, array_size,
  written_offsets,
}
use otsardb.CommitManifest.Encode.{
  offsets_size, pages_size, segment_literal_size, segments_bytes, print_checksum, needed,
  encode_segments, encode_json,
}
use otsardb.CommitManifest.Written.{
  print_entries, print_array, print_offsets, print_pages, print_segment, print_segments, print_end,
  print_document, write_document-Writes,
}

-- The page numbers fit 32 bits.
abbrev pub PagesFit : List SegmentRef → Type 0
PagesFit = All (λ ref. All (λ page. page < 2 ^ 32) ref.pages)

abbrev Short : ℕ → List ℕ → Type 0
Short room = All (λ x. length (decimal x) < room)

entries_size_lem :
    (room : ℕ) (first : Bool) (xs : List ℕ)
    → Short room xs
    → entries_size room first xs ≡ some (length (print_entries first xs))
unfolding entries_size
entries_size_lem room first [] short = refl
entries_size_lem room first (x ∷ xs) short =
    let given = decimal_given x in
    let test : not (length (decimal x) == 0 || leb room (length (decimal x))) ≡ true =
      ground (arith, short.0) in
    let front = length-append (comma first) (decimal x) in
    let whole = length-append (comma first ++ decimal x) (print_entries false xs) in
    rw (test, entries_size_lem room false xs short.1) (ap some (omega arith))

array_size_lem :
    (room : ℕ) (xs : List ℕ)
    → Short room xs
    → length (print_array xs) ≤ int_max
    → array_size room xs ≡ some (length (print_array xs))
unfolding array_size
array_size_lem room xs short h =
    let size = length-append (print_entries true xs) (codes "]") in
    let test : not (ltb int_max (2 + length (print_entries true xs))) ≡ true = ground arith in
    rw (entries_size_lem room true xs short, test) (ap some (omega arith))

Short-pages : (pages : List ℕ) → All (λ page. page < 2 ^ 32) pages → Short 16 pages
Short-pages [] h = tt
Short-pages (page ∷ pages) h =
    let short = decimal_short 9 page (omega (arith, h.0)) in (omega arith, Short-pages pages h.1)

Short-offsets : (offsets : List ℕ) → Short 32 offsets
Short-offsets [] = tt
Short-offsets (x ∷ offsets) = let short = decimal_size x in (omega arith, Short-offsets offsets)

offsets_size_lem :
    (offsets : Option (List ℕ))
    → length (print_offsets offsets) ≤ int_max
    → offsets_size offsets ≡ some (length (print_offsets offsets))
unfolding offsets_size
offsets_size_lem none h = refl
offsets_size_lem (some offsets) h =
    rw (array_size_lem 32 offsets (Short-offsets offsets) (omega arith)) (ap some (omega arith))

pages_size_lem :
    (with_pages : Bool) (ref : SegmentRef)
    → All (λ page. page < 2 ^ 32) ref.pages
    → length (print_pages with_pages ref) ≤ int_max
    → pages_size with_pages ref ≡ some (length (print_pages with_pages ref))
unfolding pages_size
pages_size_lem false ref fit h = refl
pages_size_lem true ref fit h =
    let size = length-append (print_array ref.pages) (print_offsets (written_offsets ref)) in
    rw
      (
        array_size_lem 16 ref.pages (Short-pages ref.pages fit) (omega arith),
        offsets_size_lem (written_offsets ref) (omega arith),
      )
      (ap some (omega arith))

segment_literal_size_lem :
    (with_pages : Bool) (ref : SegmentRef)
    → All (λ page. page < 2 ^ 32) ref.pages
    → length (print_segment with_pages ref) ≤ int_max
    → segment_literal_size ref with_pages ≡ some (length (print_segment with_pages ref))
unfolding segment_literal_size
segment_literal_size_lem with_pages ref fit h =
    let all = length-append (print_entry ref) (print_pages with_pages ref ++ codes "}") in
    let end = length-append (print_pages with_pages ref) (codes "}") in
    let size : length (print_entry ref) + (length (print_pages with_pages ref) + 1)
        ≡ length (print_segment with_pages ref) =
      omega arith in
    let test : not (ltb int_max (length (print_segment with_pages ref))) ≡ true = ground arith in
    rw
      (
        print_size_lem (print_entry ref) (omega arith),
        pages_size_lem with_pages ref fit (omega arith),
        size,
        test,
      )
      refl

segments_bytes_lem :
    (with_pages first : Bool) (refs : List SegmentRef)
    → PagesFit refs
    → length (print_segments with_pages first refs) ≤ int_max
    → segments_bytes with_pages first refs ≡ some (length (print_segments with_pages first refs))
unfolding segments_bytes
segments_bytes_lem with_pages first [] fit h = refl
segments_bytes_lem with_pages first (ref ∷ refs) fit h =
    let others = print_segments with_pages false refs in
    let all = length-append (comma first) (print_segment with_pages ref ++ others) in
    let both = length-append (print_segment with_pages ref) others in
    rw
      (
        segment_literal_size_lem with_pages ref fit.0 (omega arith),
        segments_bytes_lem with_pages false refs fit.1 (omega arith),
      )
      (ap some (omega arith))

needed_lem :
    (m : Manifest)
    → PagesFit m.segments
    → length (print_document m) ≤ int_max
    → needed m ≡ some (length (print_document m))
unfolding needed
needed_lem m fit h =
    let segments = print_segments (leb 4 m.format_version) true m.segments in
    let checksum = print_checksum m.post_apply_checksum in
    let all = length-append (print_header m) (segments ++ print_end m) in
    let both = length-append segments (print_end m) in
    let end = length-append checksum (codes "}\n") in
    let size : length (print_header m) + (length segments + (length checksum + 3))
        ≡ length (print_document m) =
      omega arith in
    let test : not (ltb int_max (length (print_document m))) ≡ true = ground arith in
    rw
      (
        print_size_lem (print_header m) (omega arith),
        print_size_lem checksum (omega arith),
        segments_bytes_lem (leb 4 m.format_version) true m.segments fit (omega arith),
        size,
        test,
      )
      refl

print_document_given : (m : Manifest) → 1 ≤ length (print_document m)
unfolding print_header otsardb.CommitManifest.print_ids
print_document_given m = omega arith

encode_segments_lem :
    (m : Manifest)
    → PagesFit m.segments
    → length (print_document m) < int_max
    → encode_segments m ≡ some (print_document m)
unfolding encode_segments
encode_segments_lem m fit h =
    let size = length (print_document m) in
    let given = print_document_given m in
    let test : not (length (print_document m) == 0 || ltb size (length (print_document m))) ≡ true =
      ground arith in
    rw
      (
        needed_lem m fit (omega arith),
        room_for_lem size h,
        (write_document-Writes m).fits [] (size + 1) (omega arith),
        test,
      )
      refl

-- From format 3 on, what the encoder accepts is written as its whole document, with the hash of
-- this document, where page numbers fit 32 bits and the document's size is below the largest int.
pub encode_json-print_document :
    (m : Manifest)
    → encodable m ≡ true
    → 3 ≤ m.format_version
    → PagesFit m.segments
    → length (print_document m) < int_max
    → encode_json m ≡ some (print_document m, hex_data (print_document m))
unfolding encode_json
encode_json-print_document m accepted format fit h =
    let segmented : leb 3 m.format_version ≡ true = ground arith in
    rw (accepted, segmented, encode_segments_lem m fit h) refl
