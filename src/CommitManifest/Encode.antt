-- ===== src/CommitManifest/Encode.antt =====
-- src/storage/commit_manifest.c: the encoder. It computes the size of the document first, and writes
-- the document into a buffer of that size.
use otsardb.Base.{
  ℕ, ◌+◌, Bool, true, false, not, Option, none, some, List, [], ◌∷◌, ◌++◌, ltb, leb, ◌||◌,
  if◌then◌else◌, ◌>>=◌, ◌>>◌, guard, length, ◌==◌,
}
use otsardb.Text.{Text, codes}
use otsardb.Text.Write.{Buffer, int_max, emit, room_for, print_size}
use otsardb.Sha256.{hex_data}
use otsardb.CommitManifest.{
  SegmentRef, Manifest, encodable, print_header, print_flat, print_entry, comma, array_size,
  write_array, written_offsets,
}

unfoldable pub offsets_size : Option (List ℕ) → Option ℕ
unfolding array_size
offsets_size none = some 0
offsets_size (some offsets) = do
  size ← array_size 32 offsets
  some (length (codes ",\"frame_offsets\":") + size)

unfoldable pub pages_size : Bool → SegmentRef → Option ℕ
unfolding array_size offsets_size
pages_size false ref = some 0
pages_size true ref = do
  size ← array_size 16 ref.pages
  offsets ← offsets_size (written_offsets ref)
  some (length (codes ",\"pages\":") + (size + offsets))

unfoldable pub segment_literal_size : SegmentRef → Bool → Option ℕ
unfolding print_size print_entry pages_size
segment_literal_size ref with_pages = do
  literal ← print_size (print_entry ref)
  pages ← pages_size with_pages ref
  guard (not (ltb int_max (literal + (pages + 1))))
  some (literal + (pages + 1))

unfoldable pub write_offsets : Option (List ℕ) → Buffer → Option Buffer
unfolding emit write_array
write_offsets none buffer = some buffer
write_offsets (some offsets) buffer = do
  marked ← emit (codes ",\"frame_offsets\":") buffer
  write_array offsets marked

unfoldable pub write_pages : Bool → SegmentRef → Buffer → Option Buffer
unfolding emit write_array write_offsets
write_pages false ref buffer = some buffer
write_pages true ref buffer = do
  marked ← emit (codes ",\"pages\":") buffer
  filled ← write_array ref.pages marked
  write_offsets (written_offsets ref) filled

unfoldable pub segment_literal_write : SegmentRef → Bool → Buffer → Option Buffer
unfolding emit print_entry write_pages
segment_literal_write ref with_pages buffer = do
  named ← emit (print_entry ref) buffer
  paged ← write_pages with_pages ref named
  emit (codes "}") paged

unfoldable pub segments_bytes : Bool → Bool → List SegmentRef → Option ℕ
unfolding segment_literal_size
segments_bytes with_pages first [] = some 0
segments_bytes with_pages first (ref ∷ refs) = do
  literal ← segment_literal_size ref with_pages
  rest ← segments_bytes with_pages false refs
  some (literal + (length (comma first) + rest))

-- What follows the segments.
unfoldable pub print_checksum : Text → Text
print_checksum [] = []
print_checksum (c ∷ checksum) =
    codes ",\"post_apply_checksum\":\"" ++ ((c ∷ checksum) ++ codes "\"")

-- The size of the whole document from format 3 on.
unfoldable pub needed : Manifest → Option ℕ
unfolding print_size segments_bytes print_header print_checksum
needed m = do
  header_len ← print_size (print_header m)
  checksum_len ← print_size (print_checksum m.post_apply_checksum)
  bytes ← segments_bytes (leb 4 m.format_version) true m.segments
  guard (not (ltb int_max (header_len + (bytes + (checksum_len + 3)))))
  some (header_len + (bytes + (checksum_len + 3)))

-- A comma is written before each entry but the first.
abbrev pub write_comma : Bool → Buffer → Option Buffer
write_comma true buffer = some buffer
write_comma false buffer = emit (codes ",") buffer

unfoldable pub write_segments : Bool → Bool → List SegmentRef → Buffer → Option Buffer
unfolding segment_literal_write emit
write_segments with_pages first [] buffer = some buffer
write_segments with_pages first (ref ∷ refs) buffer = do
  next ← write_comma first buffer
  written ← segment_literal_write ref with_pages next
  write_segments with_pages false refs written

unfoldable pub write_document : Manifest → Buffer → Option Buffer
unfolding emit print_header write_segments print_checksum
write_document m buffer = do
  opened ← emit (print_header m) buffer
  filled ← write_segments (leb 4 m.format_version) true m.segments opened
  emit (codes "]" ++ (print_checksum m.post_apply_checksum ++ codes "}\n")) filled

-- From format 3 on: some bytes must be written, and no more than were computed.
unfoldable pub encode_segments : Manifest → Option Text
unfolding needed room_for write_document
encode_segments m = do
  size ← needed m
  room ← room_for size
  (json, remaining) ← write_document m ([], room)
  guard (not (length json == 0 || ltb size (length json)))
  some json

-- Formats 1 and 2 hold the first segment only.
unfoldable pub encode_flat : Manifest → List SegmentRef → Option Text
unfolding print_size print_flat
encode_flat m [] = none
encode_flat m (ref ∷ refs) = do size ← print_size (print_flat m ref); some (print_flat m ref)

-- `otsardb_commit_manifest_encode_json`: the document and its hash.
unfoldable pub encode_json : Manifest → Option (Text × Text)
unfolding encodable encode_segments encode_flat
encode_json m = do
  guard (encodable m)
  json ← (if leb 3 m.format_version then encode_segments m else encode_flat m m.segments)
  some (json, hex_data json)
