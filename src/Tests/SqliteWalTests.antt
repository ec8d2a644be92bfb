-- ===== src/Tests/SqliteWalTests.antt =====
-- Tests of src/storage/sqlite_wal.c on a WAL of two frames with pages of eight bytes: a commit of
-- page 5, and a frame of page 6 whose commit never came.
use otsardb.Base.{ℕ, ◌+◌, ◌≡◌, ◌≢◌, refl, true, some, List, [], ◌∷◌, ◌++◌, replicate, length, arith}
use otsardb.Bytes.{read_u32_be}
use otsardb.SqliteWal.{
  follow, round, checksum_bytes, Header, Cursor, FrameRef, Callback, scan_reader, scan_loop,
  check_frame, memory_read_at, exhausted, start, no_counts,
}
use otsardb.SqliteWal.Delivery.{Consecutive, logging, scan_reader-Consecutive}
use otsardb.SqliteWal.Fuel.{scan_loop-ne-exhausted}

abbrev word : ℕ → List ℕ
word n = 0 ∷ 0 ∷ 0 ∷ n ∷ []

abbrev first_frame : List ℕ
first_frame = word 5 ++ (word 1 ++ (word 1 ++ (word 2 ++ (word 11 ++ (word 17 ++ replicate 8 0)))))

abbrev second_frame : List ℕ
second_frame =
    word 6 ++ (word 0 ++ (word 1 ++ (word 2 ++ (word 85 ++ (word 136 ++ replicate 8 0)))))

abbrev wal : List ℕ
wal = replicate 32 0 ++ (first_frame ++ second_frame)

abbrev header : Header
header = record {
  page_size = 8;
  salt1 = 1;
  salt2 = 2;
  checksum0 = 0;
  checksum1 = 0;
  checksum_big_endian = true;
}

abbrev cursor : Cursor
cursor = record { header = header; frame_count = 0; checksum0 = 0; checksum1 = 0 }

abbrev take_all_commits : ℕ → ℕ → List FrameRef → ℕ
take_all_commits page_size db refs = 0

abbrev log_all : Callback (List FrameRef)
log_all = logging take_all_commits

-- Only the committed frame is handed over, and the cursor stays before the tail.
scan_delivers :
    let s = scan_reader (memory_read_at wal 96) 96 (some log_all) cursor 0 [] in
    (s.returned ≡ true)
    × (s.world ≡ record { page_no = 5; frame_offset = 32 } ∷ [])
    × (s.cursor.frame_count ≡ 1)
unfolding scan_reader scan_loop follow round check_frame checksum_bytes read_u32_be memory_read_at
    logging
scan_delivers = (refl, refl, refl)

scan_reader-Consecutive_example :
    let s = scan_reader (memory_read_at wal 96) 96 (some log_all) cursor 0 [] in
    Consecutive 32 0 s.world
    × (s.cursor.frame_count ≡ 0 + length s.world)
    × (s.cursor.header ≡ header)
scan_reader-Consecutive_example =
    scan_reader-Consecutive (memory_read_at wal 96) 96 take_all_commits 0 header (omega arith)
      cursor 0 refl refl

scan_loop-ne-exhausted_example :
    scan_loop
      (memory_read_at wal 96)
      96
      (some log_all)
      97
      0
      (start (memory_read_at wal 96) 96 (some log_all) cursor [])
      no_counts
    ≢ exhausted
scan_loop-ne-exhausted_example =
    scan_loop-ne-exhausted (memory_read_at wal 96) 96 (some log_all) 97 0
      (start (memory_read_at wal 96) 96 (some log_all) cursor []) no_counts (omega arith)
      (omega arith)
