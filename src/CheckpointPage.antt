-- ===== src/CheckpointPage.antt =====
-- src/storage/checkpoint_page.c: the pages of a checkpoint, each a record with its own stored size,
-- behind a header.
-- `none` is a result of 0 or a null pointer. The caller's arrays hold `page_count` page numbers and
-- as many pages. A page that `frame` returns is a pointer into the buffer.
pub mod Bounds
pub mod Layout
pub mod Walk
pub mod RoundTrip
use otsardb.Base.{
  ℕ, zero, suc, ◌+◌, ◌-◌, ◌*◌, ◌/◌, ◌%◌, ◌^◌, Bool, true, false, ◌&&◌, ◌||◌, not, Option, none,
  some, List, [], ◌∷◌, ◌++◌, bit_and, ltb, leb, ◌==◌, if◌then◌else◌, ◌>>=◌, ◌>>◌, guard, get_or,
  take, drop,
}
use otsardb.Bytes.{put_u32_le, put_u64_le, get_u32_le, get_u64_le, bytes_eq}

abbrev size_max : ℕ
size_max = 2 ^ 64 - 1

abbrev pub version : ℕ
version = 1

abbrev pub header_size : ℕ
header_size = 32

-- "ARKCP01", and the NUL that fills the array up.
abbrev pub magic : List ℕ
magic = 65 ∷ 82 ∷ 75 ∷ 67 ∷ 80 ∷ 48 ∷ 49 ∷ 0 ∷ []

abbrev flag_lz4 : ℕ
flag_lz4 = 1

-- The first loop of the encoder, with the page numbers from index `i` on.
unfoldable pub pages_named : ℕ → List ℕ → ℕ → ℕ → Bool
pages_named zero page_nos i database_size_pages = true
pages_named (suc left) page_nos i database_size_pages =
    not (get_or page_nos i 0 == 0 || ltb database_size_pages (get_or page_nos i 0))
    && pages_named left page_nos (i + 1) database_size_pages

unfoldable pub encode_record : ℕ → ℕ → List ℕ → List ℕ
encode_record page_size page_no page =
    put_u32_le page_no ++ (put_u32_le 0 ++ (put_u32_le page_size ++ take page_size page))

unfoldable pub encode_records : ℕ → ℕ → List ℕ → List ℕ → ℕ → List ℕ
unfolding encode_record put_u32_le
encode_records zero page_size page_nos pages i = []
encode_records (suc left) page_size page_nos pages i =
    encode_record page_size (get_or page_nos i 0) (drop (i * page_size) pages)
    ++ encode_records left page_size page_nos pages (i + 1)

unfoldable pub encode_header : ℕ → ℕ → ℕ → List ℕ
encode_header page_size database_size_pages page_count =
    magic
    ++ (put_u32_le version
        ++ (put_u32_le page_size
            ++ (put_u64_le database_size_pages ++ (put_u32_le page_count ++ put_u32_le 0))))

unfoldable pub encode : ℕ → ℕ → Option (List ℕ) → Option (List ℕ) → ℕ → Option (List ℕ)
unfolding pages_named encode_records encode_header put_u32_le put_u64_le
encode page_size database_size_pages page_nos pages page_count = do
  page_nos' ← page_nos
  pages' ← pages
  guard (not (page_size == 0 || page_count == 0))
  guard (pages_named page_count page_nos' 0 database_size_pages)
  let per_record = 12 + page_size
  guard (leb per_record (size_max / page_count))
  guard (leb header_size (size_max - per_record * page_count))
  some (
      encode_header page_size database_size_pages page_count
      ++ encode_records page_count page_size page_nos' pages' 0)

-- The bytes are those from the first record on.
pub record View : Type 0 where
  pub format_version : ℕ
  pub page_size : ℕ
  pub database_size_pages : ℕ
  pub page_count : ℕ
  pub bytes : List ℕ
  pub size : ℕ

-- The loop of the decoder over a buffer of `size` bytes, at `position`: what it comes to in the
-- expected size and in the greatest page number. `12u + stored_size` is a sum of 32 bits.
unfoldable pub walk : List ℕ → ℕ → ℕ → ℕ → ℕ → ℕ → Option (ℕ × ℕ)
walk encoded size zero position expected_size max_page_no = some (expected_size, max_page_no)
walk encoded size (suc left) position expected_size max_page_no =
    let p = drop position encoded in
    let page_no = get_u32_le p in
    let stored_size = get_u32_le (drop 8 p) in
    let rest =
      walk encoded size left (position + 12 + stored_size)
        (expected_size + (12 + stored_size) % 2 ^ 32)
        (if ltb max_page_no page_no then page_no else max_page_no) in
    if ltb size ((position + 12) % 2 ^ 64)
    then none
    else if ltb (size_max - 12) stored_size || ltb (size_max - 12 - stored_size) expected_size
    then none
    else if ltb size ((position + 12 + stored_size) % 2 ^ 64)
    then none
    else rest

unfoldable pub decode : Option (List ℕ) → ℕ → Option View
unfolding walk get_u32_le get_u64_le
decode pointer size = do
  encoded ← pointer
  guard (leb header_size size)
  guard (bytes_eq (take 8 encoded) magic)
  let format_version = get_u32_le (drop 8 encoded)
  guard (format_version == version)
  let page_size = get_u32_le (drop 12 encoded)
  guard (not (page_size == 0))
  let database_size_pages = get_u64_le (drop 16 encoded)
  let page_count = get_u32_le (drop 24 encoded)
  guard (not (page_count == 0))
  found ← walk encoded size page_count header_size header_size 0
  guard (size == found.0)
  guard (not (found.1 == 0 || ltb database_size_pages found.1))
  some (record {
    format_version = format_version;
    page_size = page_size;
    database_size_pages = database_size_pages;
    page_count = page_count;
    bytes = drop header_size encoded;
    size = size;
  })

-- What `frame` reports of a record: its page number, whether it is compressed, its bytes and how
-- many of them were stored.
pub record Found : Type 0 where
  pub page_no : ℕ
  pub compressed : Bool
  pub page_data : List ℕ
  pub page_size : ℕ

abbrev pub found_at : List ℕ → Found
found_at p = record {
  page_no = get_u32_le p;
  compressed = not (bit_and (get_u32_le (drop 4 p)) flag_lz4 == 0);
  page_data = drop 12 p;
  page_size = get_u32_le (drop 8 p);
}

-- The loop of `frame`, with the records that it still passes by; `12 + stored_size` is a sum of 32
-- bits.
unfoldable pub pass_by : ℕ → List ℕ → List ℕ
pass_by zero p = p
pass_by (suc left) p = pass_by left (drop ((12 + get_u32_le (drop 8 p)) % 2 ^ 32) p)

unfoldable pub frame : View → ℕ → Option Found
unfolding pass_by get_u32_le
frame view index =
    if ltb index view.page_count then some (found_at (pass_by index view.bytes)) else none
