-- ===== src/SqliteWal.antt =====
-- src/storage/sqlite_wal.c: the header of a SQLite WAL file, and the incremental scan that hands
-- each complete commit to a callback and moves a cursor behind it.
-- `read_at` is the caller's reader, which fails as `none`. The callback changes a world of its own
-- and returns 0 to go on; `none` is a null callback.
pub mod Fuel
pub mod Delivery
pub mod Capacity
use otsardb.Base.{
  ℕ, zero, suc, ◌+◌, ◌-◌, ◌*◌, ◌/◌, ◌%◌, ◌^◌, Bool, true, false, ◌&&◌, ◌||◌, not, Option, none,
  some, List, [], ◌∷◌, ◌++◌, ltb, leb, ◌==◌, if◌then◌else◌, ◌>>=◌, ◌>>◌, guard, take, drop,
}
use otsardb.Bytes.{read_u32_be, get_u32_le}
use otsardb.WalBatch.{valid_page_size, size_max}

abbrev pub magic_le : ℕ
magic_le = 0x377f_0682

abbrev pub magic_be : ℕ
magic_be = 0x377f_0683

abbrev pub header_size : ℕ
header_size = 32

abbrev pub frame_header_size : ℕ
frame_header_size = 24

unfoldable pub read_checksum_word : List ℕ → Bool → ℕ
read_checksum_word p big_endian = if big_endian then read_u32_be p else get_u32_le p

-- The loop of `checksum_bytes`, with the pairs of words that are left.
unfoldable pub checksum_words : ℕ → Bool → List ℕ → ℕ × ℕ → ℕ × ℕ
checksum_words zero big_endian p s = s
checksum_words (suc left) big_endian p (s0, s1) =
    let first = read_checksum_word p big_endian in
    let second = read_checksum_word (drop 4 p) big_endian in
    let s0' = (s0 + first + s1) % 2 ^ 32 in
    checksum_words left big_endian (drop 8 p) (s0', (s1 + second + s0') % 2 ^ 32)

unfoldable pub checksum_bytes : List ℕ → ℕ → Bool → ℕ × ℕ → ℕ × ℕ
unfolding checksum_words read_checksum_word
checksum_bytes p size big_endian s = checksum_words ((size + 7) / 8) big_endian p s

abbrev pub ReadAt : Type 0
ReadAt = ℕ → ℕ → Option (List ℕ)

pub record Header : Type 0 where
  pub page_size : ℕ
  pub salt1 : ℕ
  pub salt2 : ℕ
  pub checksum0 : ℕ
  pub checksum1 : ℕ
  pub checksum_big_endian : Bool

unfoldable pub read_header : ReadAt → ℕ → Option Header
unfolding checksum_bytes valid_page_size
read_header read_at wal_size = do
  guard (leb header_size wal_size)
  wal ← read_at 0 header_size
  let magic = read_u32_be wal
  guard (magic == magic_le || magic == magic_be)
  let checksum_big_endian = magic == magic_be
  let page_size = read_u32_be (drop 8 wal)
  guard (valid_page_size page_size)
  let sums = checksum_bytes wal 24 checksum_big_endian (0, 0)
  guard (sums.0 == read_u32_be (drop 24 wal) && (sums.1 == read_u32_be (drop 28 wal)))
  some (record {
    page_size = page_size;
    salt1 = read_u32_be (drop 16 wal);
    salt2 = read_u32_be (drop 20 wal);
    checksum0 = sums.0;
    checksum1 = sums.1;
    checksum_big_endian = checksum_big_endian;
  })

pub record Cursor : Type 0 where
  pub header : Header
  pub frame_count : ℕ
  pub checksum0 : ℕ
  pub checksum1 : ℕ

unfoldable pub cursor_reset : Header → Cursor
cursor_reset header = record {
  header = header;
  frame_count = 0;
  checksum0 = header.checksum0;
  checksum1 = header.checksum1;
}

pub record FrameRef : Type 0 where
  pub page_no : ℕ
  pub frame_offset : ℕ

abbrev pub ref_bytes : ℕ
ref_bytes = 16

-- `while (next < required) next *= 2`, which stops before `size_t` would wrap.
pub grow : ℕ → ℕ → ℕ → Option ℕ
grow zero next required = none
grow (suc fuel) next required =
    let more = grow fuel (next * 2) required in
    if ltb next required then (if ltb (size_max / 2) next then none else more) else some next

-- The capacity of the array of references, grown to hold `required` of them. The fuel is enough:
-- 64 doublings pass `size_max`.
unfoldable pub ensure_capacity : ℕ → ℕ → Option ℕ
ensure_capacity capacity required =
    if leb required capacity
    then some capacity
    else grow 65 (if capacity == 0 then 8 else capacity) required >>= λ next.
        if ltb (size_max / ref_bytes) next then none else some next

pub record ScanResult : Type 0 where
  pub page_size : ℕ
  pub salt1 : ℕ
  pub salt2 : ℕ
  pub valid_frames : ℕ
  pub committed_frames : ℕ
  pub commit_count : ℕ
  pub bytes_read : ℕ

-- What a valid frame says: its page, the database size of a commit frame (else 0), and the sums
-- that it leaves.
pub record FrameFacts : Type 0 where
  pub page_no : ℕ
  pub database_size_pages : ℕ
  pub sums : ℕ × ℕ

-- The tests of one frame against the salts and the running sums. `none` is the `break`.
unfoldable pub check_frame : Header → ℕ × ℕ → List ℕ → Option FrameFacts
check_frame header sums frame =
    let page_no = read_u32_be frame in
    let next =
      checksum_bytes (drop frame_header_size frame) header.page_size header.checksum_big_endian
        (checksum_bytes frame 8 header.checksum_big_endian sums) in
    if page_no == 0
      || (not (read_u32_be (drop 8 frame) == header.salt1)
          || not (read_u32_be (drop 12 frame) == header.salt2))
    then none
    else if not (next.0 == read_u32_be (drop 16 frame))
        || not (next.1 == read_u32_be (drop 20 frame))
    then none
    else some (record {
      page_no = page_no;
      database_size_pages = read_u32_be (drop 4 frame);
      sums = next;
    })

-- The callback's arguments but for the reader: the page size, the database size and the frames of
-- the commit.
abbrev pub Callback : Type 0 → Type 0
Callback W = ℕ → ℕ → List FrameRef → W → ℕ × W

-- The variables of the loop that decide what it does next.
pub record Core (W : Type 0) : Type 0 where
  pub cursor : Cursor
  pub offset : ℕ
  pub refs : List FrameRef
  pub sums : ℕ × ℕ
  pub absolute_frame_count : ℕ
  pub world : W

-- The variables that are only counted.
pub record Counts : Type 0 where
  pub valid_frames : ℕ
  pub commit_count : ℕ
  pub bytes_read : ℕ

-- What one round comes to: the loop's test failed, the read failed, an invalid frame, a valid
-- frame inside a commit, a commit that the callback refused, a commit that it took.
pub data Round (W : Type 0) : Type 0 where
  ended unread broken pending refused committed : Core W → Round W

pub data Outcome (W : Type 0) : Type 0 where
  stopped : Core W → Counts → Outcome W
  failed : Core W → Outcome W
  exhausted : Outcome W

abbrev pub no_counts : Counts
no_counts = record { valid_frames = 0; commit_count = 0; bytes_read = 0 }

-- What a scan leaves: whether it returned 1, the cursor and the callback's world, and what it
-- reports.
pub record Scanned (W : Type 0) : Type 0 where
  pub returned : Bool
  pub cursor : Cursor
  pub world : W
  pub result : Option ScanResult

module _ {W : Type 0} (read_at : ReadAt) (wal_size : ℕ) (callback : Option (Callback W)) where
  abbrev pub frame_size : Core W → ℕ
  frame_size c = frame_header_size + c.cursor.header.page_size

  abbrev pub call : Core W → ℕ → ℕ × W
  call c database_size_pages = elim callback [
    | none ↦ (0, c.world)
    | some f ↦ f c.cursor.header.page_size database_size_pages c.refs c.world
  ]

  -- The reference is kept, and the running variables move behind the frame.
  unfoldable pub push : Core W → FrameFacts → Core W
  push c f = record c {
    refs = c.refs ++ record { page_no = f.page_no; frame_offset = c.offset } ∷ [];
    absolute_frame_count = (c.absolute_frame_count + 1) % 2 ^ 32;
    sums = f.sums;
    offset = c.offset + frame_size c;
  }

  unfoldable pub commit : Core W → W → Core W
  commit c world = record c {
    cursor = record c.cursor {
      frame_count = c.absolute_frame_count;
      checksum0 = c.sums.0;
      checksum1 = c.sums.1;
    };
    refs = [];
    world = world;
  }

  unfoldable pub finish_frame : Core W → ℕ → Round W
  finish_frame c database_size_pages =
      if database_size_pages == 0
      then pending c
      else (let (answer, world) = call c database_size_pages in
          if answer == 0 then committed (commit c world) else refused (record c { world = world }))

  unfoldable pub round : Core W → Round W
  unfolding push commit finish_frame
  round c =
      if ltb wal_size c.offset || ltb (wal_size - c.offset) (frame_size c)
      then ended c
      else elim (read_at c.offset (frame_size c)) [
        | none ↦ unread c
        | some frame ↦ elim (check_frame c.cursor.header c.sums frame) [
          | none ↦ broken c
          | some f ↦ finish_frame (push c f) f.database_size_pages
        ]
      ]

  abbrev count_read : ℕ → Counts → Counts
  count_read size k = record k { bytes_read = k.bytes_read + size }

  abbrev count_valid : Counts → Counts
  count_valid k = record k { valid_frames = (k.valid_frames + 1) % 2 ^ 32 }

  abbrev count_commit : Counts → Counts
  count_commit k = record k { commit_count = (k.commit_count + 1) % 2 ^ 32 }

  -- What the loop does with a round; `go` is the rest of the loop.
  unfoldable pub follow : ℕ → Core W → Counts → (Core W → Counts → Outcome W) → Round W → Outcome W
  follow limit c k go (ended c') = stopped c' k
  follow limit c k go (unread c') = failed c'
  follow limit c k go (broken c') = stopped c' (count_read (frame_size c) k)
  follow limit c k go (pending c') = go c' (count_valid (count_read (frame_size c) k))
  follow limit c k go (refused c') = failed c'
  follow limit c k go (committed c') =
      let k' = count_commit (count_valid (count_read (frame_size c) k)) in
      let rest = go c' k' in
      if not (limit == 0) && leb limit k'.commit_count then stopped c' k' else rest

  unfoldable pub scan_loop : ℕ → ℕ → Core W → Counts → Outcome W
  scan_loop zero limit c k = exhausted
  scan_loop (suc fuel) limit c k = follow limit c k (scan_loop fuel limit) (round c)

  -- The loop's variables at the start of a scan.
  abbrev pub start : Cursor → W → Core W
  start cursor world = record {
    cursor = cursor;
    offset = header_size + cursor.frame_count * (frame_header_size + cursor.header.page_size);
    refs = [];
    sums = (cursor.checksum0, cursor.checksum1);
    absolute_frame_count = cursor.frame_count;
    world = world;
  }

  -- The tests before the loop.
  unfoldable pub scannable : Cursor → Bool
  scannable cursor =
      not (cursor.header.page_size == 0)
      && (leb cursor.frame_count
            ((size_max - header_size) / (frame_header_size + cursor.header.page_size))
          && leb (header_size + cursor.frame_count * (frame_header_size + cursor.header.page_size))
              wal_size)

  pub report : Core W → Counts → ScanResult
  report c k = record {
    page_size = c.cursor.header.page_size;
    salt1 = c.cursor.header.salt1;
    salt2 = c.cursor.header.salt2;
    valid_frames = k.valid_frames;
    committed_frames = c.cursor.frame_count;
    commit_count = k.commit_count;
    bytes_read = k.bytes_read;
  }

  unfoldable pub conclude : Cursor → W → Outcome W → Scanned W
  unfolding report
  conclude cursor world (stopped c k) = record {
    returned = true;
    cursor = c.cursor;
    world = c.world;
    result = some (report c k);
  }
  conclude cursor world (failed c) = record {
    returned = false;
    cursor = c.cursor;
    world = c.world;
    result = none;
  }
  conclude cursor world exhausted = record {
    returned = false;
    cursor = cursor;
    world = world;
    result = none;
  }

  -- Every round moves the offset on, so a fuel above the size of the file is enough.
  unfoldable pub scan_reader : Cursor → ℕ → W → Scanned W
  unfolding scannable conclude
  scan_reader cursor limit world =
      if scannable cursor
      then conclude cursor world (scan_loop (suc wal_size) limit (start cursor world) no_counts)
      else conclude cursor world (failed (start cursor world))

-- The reader of `otsardb_sqlite_wal_scan`, over a WAL in memory.
unfoldable pub memory_read_at : List ℕ → ℕ → ReadAt
memory_read_at bytes size offset count =
    if ltb size offset || ltb (size - offset) count
    then none
    else some (take count (drop offset bytes))

-- `otsardb_sqlite_wal_scan`: the header, then one scan of everything behind it. `none` is a 0
-- before the scan; otherwise what the scan left, with the header added to the bytes read.
unfoldable pub scan :
    {W : Type 0} → Option (List ℕ) → ℕ → Option (Callback W) → W → Option (Scanned W)
unfolding memory_read_at read_header cursor_reset scan_reader
scan wal_data wal_size callback world = do
  bytes ← wal_data
  guard (leb header_size wal_size)
  header ← read_header (memory_read_at bytes wal_size) wal_size
  let s =
      scan_reader (memory_read_at bytes wal_size) wal_size callback (cursor_reset header) 0 world
  some (record s {
    result = elim s.result [
      | none ↦ none
      | some r ↦ some (record r { bytes_read = r.bytes_read + header_size })
    ];
  })
