-- ===== src/CommitManifest/Decode.antt =====
-- src/storage/commit_manifest.c: the decoder of a whole document. `none` is the failure, whatever was
-- written until then.
use otsardb.Base.{
  ℕ, ◌+◌, ◌-◌, ◌^◌, ◌%◌, Bool, true, false, ◌&&◌, ◌||◌, not, Option, none, some, List, [], ◌∷◌, ltb,
  leb, ◌==◌, if◌then◌else◌, ◌>>=◌, ◌>>◌, guard, length,
}
use otsardb.Text.{Text, codes, cstr}
use otsardb.CommitManifest.{
  SegmentRef, Manifest, manifest_id_max, sha256_hex_size, max_segments, segment_key_max, is_empty,
  format_allowed, manifest_parent_is_valid,
}
use otsardb.CommitManifest.Parse.{extract_u64, extract_string, extract_segments}

-- The parent's hash, the segments and the checksum, where the format has them.
unfoldable pub extract_tail : Text → ℕ → ℕ → Option (Text × List SegmentRef × Text)
unfolding extract_string extract_segments
extract_tail json format database_size_pages =
    if leb 3 format
    then (do
      sha256 ← extract_string json (codes "parent_manifest_sha256") (sha256_hex_size + 1) true
      segments ← extract_segments json (format % 2 ^ 32) database_size_pages
      checksum ← extract_string json (codes "post_apply_checksum") 17 true
      some (sha256, segments, checksum))
    else if format == 2
    then (do
      sha256 ← extract_string json (codes "parent_manifest_sha256") (sha256_hex_size + 1) true
      some (sha256, [], []))
    else some ([], [], [])

-- The one segment of formats 1 and 2; the other formats have read theirs.
unfoldable pub flat_segments : Text → ℕ → List SegmentRef → Option (List SegmentRef)
unfolding extract_string extract_u64
flat_segments json format segments =
    if format == 1 || format == 2
    then (do
      key ← extract_string json (codes "segment_key") (segment_key_max + 1) false
      sha256 ← extract_string json (codes "segment_sha256") (sha256_hex_size + 1) false
      size ← extract_u64 json (codes "segment_size")
      some (
          record { key = key; sha256 = sha256; size = size; pages = []; frame_offsets = none }
          ∷ []))
    else some segments

abbrev pub all_named : List SegmentRef → Bool
all_named [] = true
all_named (ref ∷ refs) =
    not (is_empty ref.key || not (length ref.sha256 == sha256_hex_size)) && all_named refs

abbrev pub is_hex : ℕ → Bool
is_hex c = (leb 48 c && leb c 57) || ((leb 97 c && leb c 102) || (leb 65 c && leb c 70))

abbrev pub all_hex : Text → Bool
all_hex [] = true
all_hex (c ∷ text) = is_hex c && all_hex text

unfoldable pub checksum_valid : Text → Bool
checksum_valid checksum = is_empty checksum || (length checksum == 16 && all_hex checksum)

-- The numbers that every format has, as they are read: 64 bits each.
pub record Numbers : Type 0 where
  pub format : ℕ
  pub generation : ℕ
  pub parent_generation : ℕ
  pub page_size : ℕ
  pub database_size_pages : ℕ

-- The texts that every format has.
pub record Ids : Type 0 where
  pub database_id : Text
  pub commit_id : Text
  pub parent_commit_id : Text

unfoldable pub extract_numbers : Text → Option Numbers
unfolding extract_u64
extract_numbers json = do
  format ← extract_u64 json (codes "otsardb_format")
  generation ← extract_u64 json (codes "generation")
  parent_generation ← extract_u64 json (codes "parent_generation")
  page_size ← extract_u64 json (codes "page_size")
  database_size_pages ← extract_u64 json (codes "database_size_pages")
  some (record {
    format = format;
    generation = generation;
    parent_generation = parent_generation;
    page_size = page_size;
    database_size_pages = database_size_pages;
  })

unfoldable pub extract_ids : Text → Option Ids
unfolding extract_string
extract_ids json = do
  database_id ← extract_string json (codes "database_id") (manifest_id_max + 1) false
  commit_id ← extract_string json (codes "commit_id") (manifest_id_max + 1) false
  parent_commit_id ← extract_string json (codes "parent_commit_id") (manifest_id_max + 1) true
  some (record {
    database_id = database_id;
    commit_id = commit_id;
    parent_commit_id = parent_commit_id;
  })

-- The manifest of the fields; the format is cut to 32 bits, and so is the size of a page, which has
-- been tested to fit.
abbrev pub manifest_of : Numbers → Ids → Text → List SegmentRef → Text → Manifest
manifest_of n ids sha256 segments checksum = record {
  format_version = n.format % 2 ^ 32;
  generation = n.generation;
  parent_generation = n.parent_generation;
  page_size = n.page_size;
  database_size_pages = n.database_size_pages;
  database_id = ids.database_id;
  commit_id = ids.commit_id;
  parent_commit_id = ids.parent_commit_id;
  parent_manifest_sha256 = sha256;
  segments = segments;
  post_apply_checksum = checksum;
}

unfoldable pub numbers_valid : Numbers → Bool
numbers_valid n =
    format_allowed (n.format % 2 ^ 32)
    && (not (n.page_size == 0 || ltb (2 ^ 32 - 1) n.page_size) && not (n.generation == 0))

-- The tests on what was read.
unfoldable pub accept : Manifest → Option Manifest
unfolding checksum_valid manifest_parent_is_valid
accept m = do
  guard (not (length m.segments == 0 || ltb max_segments (length m.segments)))
  guard (all_named m.segments)
  guard (checksum_valid m.post_apply_checksum)
  guard (manifest_parent_is_valid m)
  some m

unfoldable pub decode_tail : Text → Numbers → Ids → Text × List SegmentRef × Text → Option Manifest
unfolding numbers_valid flat_segments accept
decode_tail json n ids (sha256, listed, checksum) = do
  guard (numbers_valid n)
  segments ← flat_segments json n.format listed
  accept (manifest_of n ids sha256 segments checksum)

unfoldable pub decode_fields : Text → Numbers → Ids → Option Manifest
unfolding extract_tail decode_tail
decode_fields json n ids = do
  tail ← extract_tail json n.format n.database_size_pages
  decode_tail json n ids tail

unfoldable pub decode_numbers : Text → Numbers → Option Manifest
unfolding extract_ids decode_fields
decode_numbers json n = do ids ← extract_ids json; decode_fields json n ids

unfoldable pub decode_text : Text → Option Manifest
unfolding extract_numbers decode_numbers
decode_text json = do n ← extract_numbers json; decode_numbers json n

-- `otsardb_commit_manifest_decode_json`
unfoldable pub decode_json : List ℕ → Option Manifest
unfolding decode_text
decode_json json = do guard (not (length json == 0)); decode_text (cstr json)
