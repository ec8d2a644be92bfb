-- ===== src/CommitManifest.antt =====
-- src/storage/commit_manifest.c: the JSON document of a commit, which names its parent and its segments.
-- This file has the data, the conditions and the encoder. Allocations succeed. A null page array is
-- the empty list; `frame_offsets` is `none` where the source has a null pointer, and else it holds an
-- offset for each page.
pub mod Encode
pub mod Parent
pub mod Accepted
pub mod Needed
pub mod Written
pub mod Parse
pub mod ListEnds
pub mod Lists
pub mod EntryFields
pub mod Segments
pub mod Decode
pub mod Entries
use otsardb.Base.{
  ℕ, ◌+◌, ◌^◌, ◌%◌, Bool, true, false, ◌&&◌, ◌||◌, not, Option, none, some, List, [], ◌∷◌, ◌++◌,
  ltb, leb, ◌==◌, if◌then◌else◌, ◌>>=◌, ◌>>◌, guard, length,
}
use otsardb.Text.{Text, codes, decimal}
use otsardb.Text.Write.{Buffer, int_max, emit, print_size}
use otsardb.Sha256.{hex_data}

abbrev pub manifest_id_max : ℕ
manifest_id_max = 63

abbrev pub sha256_hex_size : ℕ
sha256_hex_size = 64

abbrev pub manifest_version : ℕ
manifest_version = 4

abbrev pub max_segments : ℕ
max_segments = 128

abbrev pub segment_key_max : ℕ
segment_key_max = 128

abbrev pub max_list_entries : ℕ
max_list_entries = 1_000_000

pub record SegmentRef : Type 0 where
  pub key : Text
  pub sha256 : Text
  pub size : ℕ
  pub pages : List ℕ
  pub frame_offsets : Option (List ℕ)

pub record Manifest : Type 0 where
  pub format_version : ℕ
  pub generation : ℕ
  pub parent_generation : ℕ
  pub page_size : ℕ
  pub database_size_pages : ℕ
  pub database_id : Text
  pub commit_id : Text
  pub parent_commit_id : Text
  pub parent_manifest_sha256 : Text
  pub segments : List SegmentRef
  pub post_apply_checksum : Text

-- `text[0] == '\0'`
abbrev pub is_empty : Text → Bool
is_empty [] = true
is_empty (c ∷ text) = false

abbrev pub format_allowed : ℕ → Bool
format_allowed format_version = leb 1 format_version && leb format_version manifest_version

-- The genesis commit has no parent; any other commit follows its parent in the next generation.
unfoldable pub manifest_parent_is_valid : Manifest → Bool
manifest_parent_is_valid m =
    if m.parent_generation == 0
    then m.generation == 1
      && (is_empty m.parent_commit_id
          && not (leb 2 m.format_version && not (is_empty m.parent_manifest_sha256)))
    else (m.parent_generation + 1) % 2 ^ 64 == m.generation
      && (not (is_empty m.parent_commit_id)
          && not (leb 2 m.format_version && not (length m.parent_manifest_sha256 == 64)))

-- Whether the entries increase from one that is behind `last`, and pass a test.
abbrev pub increasing_from : (ℕ → Bool) → ℕ → List ℕ → Bool
increasing_from test last [] = true
increasing_from test last (x ∷ xs) = test x && (ltb last x && increasing_from test x xs)

-- The first page has no page before it, and is not 0.
unfoldable pub pages_list_valid : List ℕ → ℕ → Bool
pages_list_valid pages database_size_pages =
    increasing_from (λ page. leb page database_size_pages) 0 pages

-- The first offset has no offset before it.
unfoldable pub frame_offsets_valid : List ℕ → ℕ → Bool
frame_offsets_valid [] segment_size = true
frame_offsets_valid (x ∷ offsets) segment_size =
    ltb x segment_size && increasing_from (λ offset. ltb offset segment_size) x offsets

-- The conditions of format 4 on one entry.
unfoldable pub page_set_valid : ℕ → SegmentRef → Bool
unfolding pages_list_valid frame_offsets_valid
page_set_valid database_size_pages ref =
    pages_list_valid ref.pages database_size_pages && elim ref.frame_offsets [
      | none ↦ true
      | some offsets ↦ not (length ref.pages == 0) && frame_offsets_valid offsets ref.size
    ]

unfoldable pub segment_valid : ℕ → ℕ → SegmentRef → Bool
unfolding page_set_valid
segment_valid format_version database_size_pages ref =
    not (is_empty ref.key || not (length ref.sha256 == sha256_hex_size))
    && (not (leb 4 format_version) || page_set_valid database_size_pages ref)

-- Whether a test holds of each entry, one after another.
abbrev pub all_valid : (SegmentRef → Bool) → List SegmentRef → Bool
all_valid test [] = true
all_valid test (ref ∷ refs) = test ref && all_valid test refs

unfoldable pub manifest_segments_valid : Manifest → Bool
unfolding segment_valid
manifest_segments_valid m =
    not (length m.segments == 0 || ltb max_segments (length m.segments))
    && all_valid (segment_valid m.format_version m.database_size_pages) m.segments

-- What the encoder asks of a manifest.
unfoldable pub encodable : Manifest → Bool
unfolding manifest_parent_is_valid manifest_segments_valid
encodable m =
    format_allowed m.format_version
    && (not (m.generation == 0)
        && (not (is_empty m.database_id)
            && (not (is_empty m.commit_id)
                && (not (m.page_size == 0)
                    && (manifest_parent_is_valid m && manifest_segments_valid m)))))

-- The fields that every format starts with.
unfoldable pub print_ids : Manifest → Text
print_ids m =
    codes "{\"otsardb_format\":"
    ++ (decimal m.format_version
        ++ (codes ",\"database_id\":\""
            ++ (m.database_id
                ++ (codes "\",\"generation\":"
                    ++ (decimal m.generation
                        ++ (codes ",\"commit_id\":\""
                            ++ (m.commit_id
                                ++ (codes "\",\"parent_generation\":"
                                    ++ (decimal m.parent_generation
                                        ++ (codes ",\"parent_commit_id\":\""
                                            ++ m.parent_commit_id))))))))))

unfoldable pub print_sizes : Manifest → Text
print_sizes m =
    codes ",\"page_size\":"
    ++ (decimal m.page_size ++ (codes ",\"database_size_pages\":" ++ decimal m.database_size_pages))

unfoldable pub print_parent_sha : Manifest → Text
print_parent_sha m = codes "\",\"parent_manifest_sha256\":\"" ++ m.parent_manifest_sha256

-- The document from format 3 on, up to the array of the segments.
unfoldable pub print_header : Manifest → Text
unfolding print_ids print_sizes print_parent_sha
print_header m =
    print_ids m
    ++ (print_parent_sha m ++ (codes "\"" ++ (print_sizes m ++ codes ",\"segments\":[")))

unfoldable pub print_flat_segment : SegmentRef → Text
print_flat_segment ref =
    codes "\",\"segment_key\":\""
    ++ (ref.key
        ++ (codes "\",\"segment_sha256\":\""
            ++ (ref.sha256 ++ (codes "\",\"segment_size\":" ++ decimal ref.size))))

-- The whole document of formats 1 and 2.
unfoldable pub print_flat : Manifest → SegmentRef → Text
unfolding print_ids print_sizes print_parent_sha print_flat_segment
print_flat m ref =
    print_ids m
    ++ ((if m.format_version == 1 then [] else print_parent_sha m)
        ++ (print_flat_segment ref ++ (print_sizes m ++ codes "}\n")))

unfoldable pub print_entry : SegmentRef → Text
print_entry ref =
    codes "{\"key\":\""
    ++ (ref.key
        ++ (codes "\",\"sha256\":\"" ++ (ref.sha256 ++ (codes "\",\"size\":" ++ decimal ref.size))))

-- `i > 0 ? "," : ""`, where `first` is `i == 0`.
abbrev pub comma : Bool → Text
comma true = []
comma false = codes ","

-- Bytes of the entries with their commas; `room` is the size of the array a number is tried in.
unfoldable pub entries_size : ℕ → Bool → List ℕ → Option ℕ
entries_size room first [] = some 0
entries_size room first (x ∷ xs) = do
  guard (not (length (decimal x) == 0 || leb room (length (decimal x))))
  rest ← entries_size room false xs
  some (length (decimal x) + (length (comma first) + rest))

-- `u32_array_json_size` with a room of 16, `u64_array_json_size` with one of 32
unfoldable pub array_size : ℕ → List ℕ → Option ℕ
unfolding entries_size
array_size room xs = do
  total ← entries_size room true xs
  guard (not (ltb int_max (2 + total)))
  some (2 + total)

unfoldable pub write_entries : Bool → List ℕ → Buffer → Option Buffer
unfolding emit
write_entries first [] buffer = some buffer
write_entries first (x ∷ xs) buffer = do
  next ← emit (comma first ++ decimal x) buffer
  write_entries false xs next

-- `write_u32_array` and `write_u64_array`
unfoldable pub write_array : List ℕ → Buffer → Option Buffer
unfolding emit write_entries
write_array xs buffer = do
  opened ← emit (codes "[") buffer
  filled ← write_entries true xs opened
  emit (codes "]") filled

-- The offsets are written only where there are pages.
abbrev pub written_offsets : SegmentRef → Option (List ℕ)
written_offsets ref = if ltb 0 (length ref.pages) then ref.frame_offsets else none
