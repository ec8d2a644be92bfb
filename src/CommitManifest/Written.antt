-- ===== src/CommitManifest/Written.antt =====
-- src/storage/commit_manifest.c: the size that the encoder computes is the size of the document, so that
-- no piece of it is cut off.
use otsardb.Base.{
  ℕ, ◌≤◌, Bool, true, false, Option, none, some, List, [], ◌∷◌, ◌++◌, leb, ◌>>=◌, length, arith,
  length-append,
}
use otsardb.Text.{Text, codes, decimal}
use otsardb.Text.Decimal.{decimal_given}
use otsardb.Text.Write.{emit, Writes, emit-Writes, Writes-both, Writes-none}
use otsardb.CommitManifest.{
  SegmentRef, Manifest, encodable, print_header, print_entry, comma, entries_size, array_size,
  write_entries, write_array, written_offsets,
}
use otsardb.CommitManifest.Encode.{
  write_offsets, write_pages, segment_literal_write, print_checksum, write_comma, write_segments,
  write_document,
}

-- The document, written as one text.
abbrev pub print_entries : Bool → List ℕ → Text
print_entries first [] = []
print_entries first (x ∷ xs) = (comma first ++ decimal x) ++ print_entries false xs

abbrev pub print_array : List ℕ → Text
print_array xs = codes "[" ++ (print_entries true xs ++ codes "]")

abbrev pub print_offsets : Option (List ℕ) → Text
print_offsets none = []
print_offsets (some offsets) = codes ",\"frame_offsets\":" ++ print_array offsets

abbrev pub print_pages : Bool → SegmentRef → Text
print_pages false ref = []
print_pages true ref =
    codes ",\"pages\":" ++ (print_array ref.pages ++ print_offsets (written_offsets ref))

abbrev pub print_segment : Bool → SegmentRef → Text
print_segment with_pages ref = print_entry ref ++ (print_pages with_pages ref ++ codes "}")

abbrev pub print_segments : Bool → Bool → List SegmentRef → Text
print_segments with_pages first [] = []
print_segments with_pages first (ref ∷ refs) =
    comma first ++ (print_segment with_pages ref ++ print_segments with_pages false refs)

abbrev pub print_end : Manifest → Text
print_end m = codes "]" ++ (print_checksum m.post_apply_checksum ++ codes "}\n")

abbrev pub print_document : Manifest → Text
print_document m =
    print_header m ++ (print_segments (leb 4 m.format_version) true m.segments ++ print_end m)

-- The writers write it where there is room.
write_entries-Writes :
    (first : Bool) (xs : List ℕ) → Writes (write_entries first xs) (print_entries first xs)
unfolding write_entries
write_entries-Writes first [] = Writes-none
write_entries-Writes first (x ∷ xs) =
    let given = decimal_given x in
    Writes-both (emit (comma first ++ decimal x)) (write_entries false xs)
      (comma first ++ decimal x) (print_entries false xs)
      (emit-Writes (comma first ++ decimal x)
        (omega (arith, length-append (comma first) (decimal x))))
      (write_entries-Writes false xs)

write_array-Writes : (xs : List ℕ) → Writes (write_array xs) (print_array xs)
unfolding write_array
write_array-Writes xs =
    Writes-both (emit (codes "[")) (λ b. write_entries true xs b >>= emit (codes "]")) (codes "[")
      (print_entries true xs ++ codes "]") (emit-Writes (codes "[") (omega arith))
      (Writes-both (write_entries true xs) (emit (codes "]")) (print_entries true xs) (codes "]")
        (write_entries-Writes true xs) (emit-Writes (codes "]") (omega arith)))

write_offsets-Writes :
    (offsets : Option (List ℕ)) → Writes (write_offsets offsets) (print_offsets offsets)
unfolding write_offsets
write_offsets-Writes none = Writes-none
write_offsets-Writes (some offsets) =
    Writes-both (emit (codes ",\"frame_offsets\":")) (write_array offsets)
      (codes ",\"frame_offsets\":") (print_array offsets)
      (emit-Writes (codes ",\"frame_offsets\":") (omega arith)) (write_array-Writes offsets)

write_pages-Writes :
    (with_pages : Bool) (ref : SegmentRef)
    → Writes (write_pages with_pages ref) (print_pages with_pages ref)
unfolding write_pages
write_pages-Writes false ref = Writes-none
write_pages-Writes true ref =
    let offsets = written_offsets ref in
    Writes-both (emit (codes ",\"pages\":"))
      (λ b. write_array ref.pages b >>= write_offsets offsets) (codes ",\"pages\":")
      (print_array ref.pages ++ print_offsets offsets)
      (emit-Writes (codes ",\"pages\":") (omega arith))
      (Writes-both (write_array ref.pages) (write_offsets offsets) (print_array ref.pages)
        (print_offsets offsets) (write_array-Writes ref.pages) (write_offsets-Writes offsets))

print_entry_given : (ref : SegmentRef) → 1 ≤ length (print_entry ref)
unfolding print_entry
print_entry_given ref = omega arith

segment_literal_write-Writes :
    (with_pages : Bool) (ref : SegmentRef)
    → Writes (segment_literal_write ref with_pages) (print_segment with_pages ref)
unfolding segment_literal_write
segment_literal_write-Writes with_pages ref =
    Writes-both (emit (print_entry ref)) (λ b. write_pages with_pages ref b >>= emit (codes "}"))
      (print_entry ref) (print_pages with_pages ref ++ codes "}")
      (emit-Writes (print_entry ref) (print_entry_given ref))
      (Writes-both (write_pages with_pages ref) (emit (codes "}")) (print_pages with_pages ref)
        (codes "}") (write_pages-Writes with_pages ref) (emit-Writes (codes "}") (omega arith)))

write_comma-Writes : (first : Bool) → Writes (write_comma first) (comma first)
write_comma-Writes true = Writes-none
write_comma-Writes false = emit-Writes (codes ",") (omega arith)

write_segments-Writes :
    (with_pages first : Bool) (refs : List SegmentRef)
    → Writes (write_segments with_pages first refs) (print_segments with_pages first refs)
unfolding write_segments
write_segments-Writes with_pages first [] = Writes-none
write_segments-Writes with_pages first (ref ∷ refs) =
    Writes-both (write_comma first)
      (λ b. segment_literal_write ref with_pages b >>= write_segments with_pages false refs)
      (comma first) (print_segment with_pages ref ++ print_segments with_pages false refs)
      (write_comma-Writes first)
      (Writes-both (segment_literal_write ref with_pages) (write_segments with_pages false refs)
        (print_segment with_pages ref) (print_segments with_pages false refs)
        (segment_literal_write-Writes with_pages ref) (write_segments-Writes with_pages false refs))

print_header_given : (m : Manifest) → 1 ≤ length (print_header m)
unfolding print_header otsardb.CommitManifest.print_ids
print_header_given m = omega arith

pub write_document-Writes : (m : Manifest) → Writes (write_document m) (print_document m)
unfolding write_document
write_document-Writes m =
    let with_pages = leb 4 m.format_version in
    Writes-both (emit (print_header m))
      (λ b. write_segments with_pages true m.segments b >>= emit (print_end m)) (print_header m)
      (print_segments with_pages true m.segments ++ print_end m)
      (emit-Writes (print_header m) (print_header_given m))
      (Writes-both (write_segments with_pages true m.segments) (emit (print_end m))
        (print_segments with_pages true m.segments) (print_end m)
        (write_segments-Writes with_pages true m.segments)
        (emit-Writes (print_end m) (omega arith)))
