-- ===== src/CommitManifest/Parse.antt =====
-- src/storage/commit_manifest.c: the decoder. It searches the document for the fields, and walks over
-- the array of the segments. `none` is the failure, whatever was written until then.
use otsardb.Base.{
  ℕ, zero, suc, ◌+◌, ◌-◌, ◌^◌, Bool, true, false, ◌&&◌, ◌||◌, not, Option, none, some, List, [],
  ◌∷◌, ltb, leb, ◌==◌, if◌then◌else◌, ◌>>=◌, ◌>>◌, guard, length, drop,
}
use otsardb.Text.{Text, codes, is_prefix, strstr}
use otsardb.Text.Scan.{
  skip_blanks, head_is, skip_char, skip_marker, until_quote, parse_u64, behind_key, quoted_value,
}
use otsardb.Journal.{u64_pattern, string_pattern}
use otsardb.CommitManifest.{
  SegmentRef, sha256_hex_size, max_segments, segment_key_max, max_list_entries, pages_list_valid,
  frame_offsets_valid,
}

unfoldable pub extract_u64 : Text → Text → Option ℕ
unfolding behind_key parse_u64
extract_u64 json name = do
  p ← behind_key json (u64_pattern name)
  (value, end) ← parse_u64 (skip_blanks p)
  some value

-- An optional field may be absent, and is then empty.
abbrev pub if_absent : Bool → Text → Text → Option Text
if_absent allow_empty json pattern =
    if allow_empty
      && not (leb 80 (length pattern))
      && elim (strstr json pattern) [ none ↦ true | some found ↦ false ]
    then some []
    else none

unfoldable pub extract_string : Text → Text → ℕ → Bool → Option Text
unfolding behind_key quoted_value
extract_string json name out_size allow_empty = elim (behind_key json (string_pattern name)) [
  | none ↦ if_absent allow_empty json (string_pattern name)
  | some p ↦ quoted_value allow_empty out_size p
]

-- What the loop over a list comes to: its numbers and what is behind the bracket, the source's
-- failure, or a loop that has used up its fuel.
pub data ListRead : Type 0 where
  parsed : List ℕ → Text → ListRead
  refused : ListRead
  out_of_fuel : ListRead

abbrev pub prepend : ℕ → ListRead → ListRead
prepend value (parsed values p) = parsed (value ∷ values) p
prepend value refused = refused
prepend value out_of_fuel = out_of_fuel

-- The numbers up to the closing bracket, `count` of them being read before. The array grows up to its
-- cap, and has no room for a number more.
unfoldable pub parse_list : ℕ → ℕ → Text → ListRead
unfolding parse_u64
parse_list zero count p = out_of_fuel
parse_list (suc fuel) count p =
    let q = skip_blanks p in
    if head_is 93 q then parsed [] (drop 1 q) else elim (parse_u64 q) [
      | none ↦ refused
      | some (value, end) ↦
          let r = skip_blanks end in
          let rest = parse_list fuel (count + 1) (drop 1 r) in
          if not (ltb count max_list_entries)
          then refused
          else if head_is 93 r
          then parsed (value ∷ []) (drop 1 r)
          else if head_is 44 r
          then prepend value rest
          else refused
    ]

-- The failure of the source. Each round takes a byte, so a fuel above the length of the text is enough.
abbrev pub numbers_of : ListRead → Option (List ℕ × Text)
numbers_of (parsed values p) = some (values, p)
numbers_of refused = none
numbers_of out_of_fuel = none

unfoldable pub parse_u64_list : Text → Option (List ℕ × Text)
unfolding parse_list
parse_u64_list p = numbers_of (parse_list (length p + 1) 0 p)

abbrev pub all_u32 : List ℕ → Bool
all_u32 [] = true
all_u32 (x ∷ xs) = not (ltb (2 ^ 32 - 1) x) && all_u32 xs

unfoldable pub parse_u32_list : Text → Option (List ℕ × Text)
unfolding parse_u64_list
parse_u32_list p = do (values, q) ← parse_u64_list p; guard (all_u32 values); some (values, q)

-- An empty list leaves the pointer to the array null.
abbrev pub array_or_null : List ℕ → Option (List ℕ)
array_or_null [] = none
array_or_null (x ∷ xs) = some (x ∷ xs)

abbrev pub offsets_marker : Text
offsets_marker = codes ",\"frame_offsets\":["

-- The offsets, if the document has them here: as many as pages.
unfoldable pub parse_offsets : ℕ → ℕ → Text → Option (Option (List ℕ) × Text)
unfolding parse_u64_list frame_offsets_valid
parse_offsets page_count size p =
    if is_prefix offsets_marker p
    then (do
      (offsets, q) ← parse_u64_list (drop (length offsets_marker) p)
      guard (length offsets == page_count)
      guard (frame_offsets_valid offsets size)
      some (array_or_null offsets, q))
    else some (none, p)

-- The pages and offsets of an entry, from format 4 on.
unfoldable pub parse_page_set : ℕ → ℕ → ℕ → Text → Option (List ℕ × Option (List ℕ) × Text)
unfolding parse_u32_list parse_offsets pages_list_valid
parse_page_set format_version database_size_pages size p =
    if leb 4 format_version
    then (do
      q ← skip_marker (codes ",\"pages\":[") p
      (pages, r) ← parse_u32_list q
      guard (not (ltb (2 ^ 32 - 1) (length pages)))
      (offsets, s) ← parse_offsets (length pages) size r
      guard (pages_list_valid pages database_size_pages)
      some (pages, offsets, s))
    else some ([], none, p)

-- What every format has in an entry, from the brace on: the key, the hash and the size.
unfoldable pub parse_entry : Text → Option (Text × Text × ℕ × Text)
unfolding until_quote parse_u64
parse_entry p = do
  p1 ← skip_char 123 (skip_blanks p)
  p2 ← skip_marker (codes "\"key\":\"") p1
  (key, p3) ← until_quote p2
  guard (not (length key == 0 || leb (segment_key_max + 1) (length key)))
  p4 ← skip_marker (codes ",\"sha256\":\"") p3
  (sha256, p5) ← until_quote p4
  guard (length sha256 == sha256_hex_size)
  p6 ← skip_marker (codes ",\"size\":") p5
  (size, p7) ← parse_u64 (skip_blanks p6)
  some (key, sha256, size, p7)

-- One entry of the array.
unfoldable pub parse_segment : ℕ → ℕ → Text → Option (SegmentRef × Text)
unfolding parse_entry parse_page_set
parse_segment format_version database_size_pages p = do
  (key, sha256, size, q) ← parse_entry p
  (pages, offsets, r) ← parse_page_set format_version database_size_pages size q
  s ← skip_char 125 (skip_blanks r)
  some (
    record { key = key; sha256 = sha256; size = size; pages = pages; frame_offsets = offsets },
    s,
  )

-- The entries, of which `left` may still come; after the last of them the array must end.
unfoldable pub parse_segments : ℕ → ℕ → ℕ → Text → Option (List SegmentRef)
unfolding parse_segment
parse_segments zero format_version database_size_pages p = if head_is 93 p then some [] else none
parse_segments (suc left) format_version database_size_pages p = do
  (ref, q) ← parse_segment format_version database_size_pages p
  let r = skip_blanks q
  let rest = parse_segments left format_version database_size_pages (drop 1 r)
  if head_is 93 r
      then some (ref ∷ [])
      else (do guard (head_is 44 r); refs ← rest; some (ref ∷ refs))

unfoldable pub extract_segments : Text → ℕ → ℕ → Option (List SegmentRef)
unfolding parse_segments
extract_segments json format_version database_size_pages = do
  found ← strstr json (codes "\"segments\":[")
  parse_segments max_segments format_version database_size_pages
      (drop (length (codes "\"segments\":[")) found)
