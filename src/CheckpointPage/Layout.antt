-- ===== src/CheckpointPage/Layout.antt =====
-- Where the encoder puts each field of a checkpoint page object.
use otsardb.Base.{
  ℕ, suc, ◌+◌, ◌*◌, ◌^◌, ◌≤◌, ◌<◌, ◌≡◌, refl, false, List, ◌++◌, length, length-take, length-drop,
  take, drop, take-append, arith,
}
use otsardb.Bytes.{get_u32_le, get_u64_le, put_u32_le, put_u64_le}
use otsardb.Bytes.RoundTrip.{get-put_u32_le, get-put_u64_le}
use otsardb.CheckpointPage.{magic, version, encode_record, encode_header, found_at}

-- The fields of the header.
module _ (ps db count : ℕ) (rest : List ℕ) where
  abbrev whole : List ℕ
  whole = encode_header ps db count ++ rest

  pub object_magic : take 8 whole ≡ magic
  unfolding encode_header put_u32_le
  object_magic = refl

  pub object_version : get_u32_le (drop 8 whole) ≡ version
  unfolding encode_header put_u32_le
  object_version = get-put_u32_le version _ (omega arith)

  pub object_page_size : ps < 2 ^ 32 → get_u32_le (drop 12 whole) ≡ ps
  unfolding encode_header put_u32_le
  object_page_size h = get-put_u32_le ps _ h

  pub object_database_size : db < 2 ^ 64 → get_u64_le (drop 16 whole) ≡ db
  unfolding encode_header put_u32_le put_u64_le
  object_database_size h = get-put_u64_le db _ h

  pub object_page_count : count < 2 ^ 32 → get_u32_le (drop 24 whole) ≡ count
  unfolding encode_header put_u32_le put_u64_le
  object_page_count h = get-put_u32_le count _ h

  pub object_records : drop 32 whole ≡ rest
  unfolding encode_header put_u32_le put_u64_le
  object_records = refl

pub object_header_size : (ps db count : ℕ) → length (encode_header ps db count) ≡ 32
unfolding encode_header put_u32_le put_u64_le
object_header_size ps db count = refl

-- The fields of one record.
module _ (ps number : ℕ) (page rest : List ℕ) where
  pub record_number : number < 2 ^ 32 → get_u32_le (encode_record ps number page ++ rest) ≡ number
  unfolding encode_record put_u32_le
  record_number h = get-put_u32_le number _ h

  pub record_flags : get_u32_le (drop 4 (encode_record ps number page ++ rest)) ≡ 0
  unfolding encode_record put_u32_le
  record_flags = get-put_u32_le 0 _ (omega arith)

  pub record_stored : ps < 2 ^ 32 → get_u32_le (drop 8 (encode_record ps number page ++ rest)) ≡ ps
  unfolding encode_record put_u32_le
  record_stored h = get-put_u32_le ps _ h

  pub record_content :
      ps ≤ length page → take ps (drop 12 (encode_record ps number page ++ rest)) ≡ take ps page
  unfolding encode_record put_u32_le
  record_content h = take-append ps (take ps page) rest (omega (arith, length-take ps page))

  pub record_found :
      number < 2 ^ 32
      → ps < 2 ^ 32
      → found_at (encode_record ps number page ++ rest) ≡ record {
        page_no = number;
        compressed = false;
        page_data = drop 12 (encode_record ps number page ++ rest);
        page_size = ps;
      }
  record_found h h' = rw (record_number h, record_flags, record_stored h') refl

pub length-encode_record :
    (ps number : ℕ) (page : List ℕ)
    → ps ≤ length page
    → length (encode_record ps number page) ≡ 12 + ps
unfolding encode_record put_u32_le
length-encode_record ps number page h = omega (arith, length-take ps page)

pub page_room :
    (ps i n : ℕ) (pages : List ℕ)
    → (i + suc n) * ps ≤ length pages
    → (ps ≤ length (drop (i * ps) pages)) × ((i + 1 + n) * ps ≤ length pages)
page_room ps i n pages h = (
  grind (arith, length-drop (i * ps) pages),
  (let e : i + 1 + n ≡ i + suc n = omega arith in rw e h),
)
