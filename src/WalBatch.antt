-- ===== src/WalBatch.antt =====
-- src/storage/wal_batch.c: the payload of a segment, the frames of one WAL commit behind a header.
-- `none` is a result of 0. A null pointer is `none` too. The caller's arrays hold `frame_count`
-- page numbers and as many pages; the page that `frame` returns is a pointer into the batch.
pub mod Layout
pub mod RoundTrip
pub mod Bounds
use otsardb.Base.{
  ℕ, zero, suc, ◌+◌, ◌-◌, ◌*◌, ◌/◌, ◌%◌, ◌^◌, Bool, true, false, ◌&&◌, ◌||◌, not, Option, none,
  some, List, [], ◌∷◌, ◌++◌, bit_and, ltb, leb, ◌==◌, if◌then◌else◌, ◌>>=◌, ◌>>◌, guard, get_or,
  take, drop,
}
use otsardb.Bytes.{put_u32_le, put_u64_le, get_u32_le, get_u64_le, bytes_eq}

abbrev pub size_max : ℕ
size_max = 2 ^ 64 - 1

abbrev pub version : ℕ
version = 1

abbrev pub header_size : ℕ
header_size = 32

abbrev pub frame_header_size : ℕ
frame_header_size = 8

-- "OTSWAL01"
abbrev pub magic : List ℕ
magic = 79 ∷ 84 ∷ 83 ∷ 87 ∷ 65 ∷ 76 ∷ 48 ∷ 49 ∷ []

unfoldable pub valid_page_size : ℕ → Bool
valid_page_size page_size =
    leb 512 page_size && (leb page_size 65536 && (bit_and page_size (page_size - 1) == 0))

abbrev pub record_size : ℕ → ℕ
record_size page_size = frame_header_size + page_size

-- The size of a batch in `size_t`, behind the test that rules a wrap out.
abbrev pub fits_size : ℕ → ℕ → Bool
fits_size page_size frame_count = leb frame_count ((size_max - header_size) / record_size page_size)

abbrev pub total_size : ℕ → ℕ → ℕ
total_size page_size frame_count = (header_size + frame_count * record_size page_size) % 2 ^ 64

unfoldable pub encode_frame : ℕ → ℕ → List ℕ → List ℕ
encode_frame page_size page_no page = put_u32_le page_no ++ (put_u32_le 0 ++ take page_size page)

-- The loop of the encoder at frame `i`, with the frames that are left.
unfoldable pub encode_frames : ℕ → List ℕ → List ℕ → ℕ → ℕ → Option (List ℕ)
unfolding encode_frame
encode_frames page_size page_nos pages zero i = some []
encode_frames page_size page_nos pages (suc left) i =
    let rest = encode_frames page_size page_nos pages left (i + 1) in
    if get_or page_nos i 0 == 0
    then none
    else rest >>= λ r.
        some (encode_frame page_size (get_or page_nos i 0) (drop (i * page_size) pages) ++ r)

unfoldable pub encode_header : ℕ → ℕ → ℕ → List ℕ
encode_header page_size database_size_pages frame_count =
    magic
    ++ (put_u32_le version
        ++ (put_u32_le page_size
            ++ (put_u64_le database_size_pages ++ (put_u32_le frame_count ++ put_u32_le 0))))

unfoldable pub encode : ℕ → ℕ → Option (List ℕ) → Option (List ℕ) → ℕ → Option (List ℕ)
unfolding valid_page_size encode_frames encode_header
encode page_size database_size_pages page_nos pages frame_count = do
  guard (valid_page_size page_size && not (database_size_pages == 0))
  page_nos' ← page_nos
  pages' ← pages
  guard (not (frame_count == 0))
  guard (fits_size page_size frame_count)
  frames ← encode_frames page_size page_nos' pages' frame_count 0
  some (encode_header page_size database_size_pages frame_count ++ frames)

pub record View : Type 0 where
  pub format_version : ℕ
  pub page_size : ℕ
  pub database_size_pages : ℕ
  pub frame_count : ℕ
  pub bytes : List ℕ
  pub size : ℕ

unfoldable pub decode : Option (List ℕ) → ℕ → Option View
unfolding valid_page_size
decode pointer size = do
  encoded ← pointer
  guard (leb header_size size)
  guard (bytes_eq (take 8 encoded) magic)
  let format_version = get_u32_le (drop 8 encoded)
  let page_size = get_u32_le (drop 12 encoded)
  let database_size_pages = get_u64_le (drop 16 encoded)
  let frame_count = get_u32_le (drop 24 encoded)
  guard (format_version == version && valid_page_size page_size)
  guard (not (database_size_pages == 0 || frame_count == 0))
  guard (fits_size page_size frame_count && (total_size page_size frame_count == size))
  some (record {
    format_version = format_version;
    page_size = page_size;
    database_size_pages = database_size_pages;
    frame_count = frame_count;
    bytes = encoded;
    size = size;
  })

unfoldable pub frame : View → ℕ → Option (ℕ × List ℕ)
frame batch index = do
  guard (ltb index batch.frame_count)
  let found = drop (header_size + index * record_size batch.page_size) batch.bytes
  guard (not (get_u32_le found == 0))
  some (get_u32_le found, drop frame_header_size found)
