-- ===== src/CheckpointManifest.antt =====
-- src/storage/checkpoint_manifest.c: the JSON document of a checkpoint, which lists its page groups, with
-- its encoder and its decoder. Allocations succeed. The pointer to the newest checkpoint is in
-- CheckpointManifest/Pointer.antt.
pub mod Pointer
pub mod Json
pub mod Written
use otsardb.Base.{
  ℕ, zero, suc, ◌+◌, ◌-◌, ◌^◌, ◌%◌, Bool, true, false, ◌&&◌, ◌||◌, not, Option, none, some, List,
  [], ◌∷◌, ◌++◌, ltb, leb, ◌==◌, if◌then◌else◌, ◌>>=◌, ◌>>◌, guard, length, drop,
}
use otsardb.Text.{Text, codes, cstr, strstr, strtoull, decimal}
use otsardb.Text.Scan.{
  skip_blanks, head_is, skip_char, skip_marker, until_quote, behind_key, quoted_value,
}
use otsardb.Text.Write.{Buffer, int_max, emit, room_for, print_size}
use otsardb.Sha256.{hex_data}
use otsardb.Journal.{u64_pattern, string_pattern}

abbrev pub checkpoint_format : ℕ
checkpoint_format = 1

abbrev pub page_group_key_max : ℕ
page_group_key_max = 128

abbrev pub max_page_groups : ℕ
max_page_groups = 128

abbrev pub checkpoint_id_max : ℕ
checkpoint_id_max = 63

abbrev pub checkpoint_sha_size : ℕ
checkpoint_sha_size = 64

abbrev pub page_header_size : ℕ
page_header_size = 32

abbrev pub page_record_header_size : ℕ
page_record_header_size = 12

pub record PageGroupRef : Type 0 where
  pub key : Text
  pub sha256 : Text
  pub size : ℕ

pub record CheckpointManifest : Type 0 where
  pub format_version : ℕ
  pub covered_generation : ℕ
  pub page_size : ℕ
  pub database_size_pages : ℕ
  pub database_id : Text
  pub base_commit_id : Text
  pub base_manifest_sha256 : Text
  pub page_groups : List PageGroupRef

-- A header and one or more records of a page each; the size has 64 bits and that of a page 32.
unfoldable pub page_group_size_valid : ℕ → ℕ → Bool
page_group_size_valid size page_size =
    let record_size = page_record_header_size + page_size in
    if ltb size (page_header_size + record_size)
    then false
    else (size - page_header_size) % record_size == 0

abbrev pub all_groups : (PageGroupRef → Bool) → List PageGroupRef → Bool
all_groups test [] = true
all_groups test (ref ∷ refs) = test ref && all_groups test refs

unfoldable pub group_valid : ℕ → PageGroupRef → Bool
unfolding page_group_size_valid
group_valid page_size ref =
    not (length ref.key == 0 || not (length ref.sha256 == checkpoint_sha_size))
    && page_group_size_valid ref.size page_size

-- What the encoder asks of a manifest.
unfoldable pub encodable : CheckpointManifest → Bool
unfolding group_valid
encodable m =
    m.format_version == checkpoint_format
    && (not (length m.database_id == 0)
        && (not (length m.base_commit_id == 0)
            && (not (m.page_size == 0)
                && (not (length m.page_groups == 0)
                    && (leb (length m.page_groups) max_page_groups
                        && all_groups (group_valid m.page_size) m.page_groups)))))

unfoldable pub print_header : CheckpointManifest → Text
print_header m =
    codes "{\"otsardb_checkpoint_format\":"
    ++ (decimal m.format_version
        ++ (codes ",\"database_id\":\""
            ++ (m.database_id
                ++ (codes "\",\"covered_generation\":"
                    ++ (decimal m.covered_generation
                        ++ (codes ",\"base_commit_id\":\""
                            ++ (m.base_commit_id
                                ++ (codes "\",\"base_manifest_sha256\":\""
                                    ++ (m.base_manifest_sha256
                                        ++ (codes "\",\"page_size\":"
                                            ++ (decimal m.page_size
                                                ++ (codes ",\"database_size_pages\":"
                                                    ++ (decimal m.database_size_pages
                                                        ++ codes ",\"page_groups\":[")))))))))))))

-- One entry, after a comma unless it is the first.
unfoldable pub print_group : Bool → PageGroupRef → Text
print_group first ref =
    (if first then [] else codes ",")
    ++ (codes "{\"key\":\""
        ++ (ref.key
            ++ (codes "\",\"sha256\":\""
                ++ (ref.sha256 ++ (codes "\",\"size\":" ++ (decimal ref.size ++ codes "}"))))))

unfoldable pub groups_bytes : Bool → List PageGroupRef → Option ℕ
unfolding print_size print_group
groups_bytes first [] = some 0
groups_bytes first (ref ∷ refs) = do
  literal ← print_size (print_group first ref)
  rest ← groups_bytes false refs
  some (literal + rest)

unfoldable pub needed : CheckpointManifest → Option ℕ
unfolding print_size print_header groups_bytes
needed m = do
  header_len ← print_size (print_header m)
  bytes ← groups_bytes true m.page_groups
  guard (not (ltb int_max (header_len + (bytes + 3))))
  some (header_len + (bytes + 3))

unfoldable pub write_groups : Bool → List PageGroupRef → Buffer → Option Buffer
unfolding emit print_group
write_groups first [] buffer = some buffer
write_groups first (ref ∷ refs) buffer = do
  next ← emit (print_group first ref) buffer
  write_groups false refs next

unfoldable pub write_document : CheckpointManifest → Buffer → Option Buffer
unfolding emit print_header write_groups
write_document m buffer = do
  opened ← emit (print_header m) buffer
  filled ← write_groups true m.page_groups opened
  emit (codes "]}\n") filled

-- `otsardb_checkpoint_manifest_encode`: the document and its hash.
unfoldable pub encode : CheckpointManifest → Option (Text × Text)
unfolding encodable needed room_for write_document
encode m = do
  guard (encodable m)
  size ← needed m
  room ← room_for size
  (json, remaining) ← write_document m ([], room)
  guard (length json == size)
  some (json, hex_data json)

-- A number is read as `strtoull` gives it, without the tests of the commit manifest.
unfoldable pub extract_u64 : Text → Text → Option ℕ
unfolding behind_key
extract_u64 json name = do
  p ← behind_key json (u64_pattern name)
  (value, end) ← strtoull (skip_blanks p)
  some value

unfoldable pub extract_string : Text → Text → ℕ → Bool → Option Text
unfolding behind_key quoted_value
extract_string json name out_size allow_empty = do
  p ← behind_key json (string_pattern name)
  quoted_value allow_empty out_size p

unfoldable pub parse_group : Text → Option (PageGroupRef × Text)
unfolding until_quote
parse_group p = do
  p1 ← skip_char 123 (skip_blanks p)
  p2 ← skip_marker (codes "\"key\":\"") p1
  (key, p3) ← until_quote p2
  guard (not (length key == 0 || leb (page_group_key_max + 1) (length key)))
  p4 ← skip_marker (codes ",\"sha256\":\"") p3
  (sha256, p5) ← until_quote p4
  guard (length sha256 == checkpoint_sha_size)
  p6 ← skip_marker (codes ",\"size\":") p5
  (size, p7) ← strtoull (skip_blanks p6)
  p8 ← skip_char 125 (skip_blanks p7)
  some (record { key = key; sha256 = sha256; size = size }, p8)

-- The entries, of which `left` may still come; after the last of them the array must end.
unfoldable pub parse_groups : ℕ → Text → Option (List PageGroupRef)
unfolding parse_group
parse_groups zero p = if head_is 93 p then some [] else none
parse_groups (suc left) p = do
  (ref, q) ← parse_group p
  let r = skip_blanks q
  let rest = parse_groups left (drop 1 r)
  if head_is 93 r
      then some (ref ∷ [])
      else (do guard (head_is 44 r); refs ← rest; some (ref ∷ refs))

unfoldable pub extract_page_groups : Text → Option (List PageGroupRef)
unfolding parse_groups
extract_page_groups json = do
  found ← strstr json (codes "\"page_groups\":[")
  parse_groups max_page_groups (drop (length (codes "\"page_groups\":[")) found)

-- `otsardb_checkpoint_manifest_decode`
unfoldable pub decode : List ℕ → Option CheckpointManifest
unfolding extract_u64 extract_string extract_page_groups page_group_size_valid
decode json = do
  guard (not (length json == 0))
  let copy = cstr json
  format ← extract_u64 copy (codes "otsardb_checkpoint_format")
  covered_generation ← extract_u64 copy (codes "covered_generation")
  page_size ← extract_u64 copy (codes "page_size")
  database_size_pages ← extract_u64 copy (codes "database_size_pages")
  database_id ← extract_string copy (codes "database_id") (checkpoint_id_max + 1) false
  base_commit_id ← extract_string copy (codes "base_commit_id") (checkpoint_id_max + 1) false
  base_manifest_sha256 ←
      extract_string copy (codes "base_manifest_sha256") (checkpoint_sha_size + 1) true
  page_groups ← extract_page_groups copy
  guard (format == checkpoint_format)
  guard (not (page_size == 0 || ltb (2 ^ 32 - 1) page_size))
  guard (not (covered_generation == 0))
  guard (all_groups (λ ref. page_group_size_valid ref.size page_size) page_groups)
  some (record {
    format_version = format;
    covered_generation = covered_generation;
    page_size = page_size;
    database_size_pages = database_size_pages;
    database_id = database_id;
    base_commit_id = base_commit_id;
    base_manifest_sha256 = base_manifest_sha256;
    page_groups = page_groups;
  })
