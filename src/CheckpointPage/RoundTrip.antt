-- ===== src/CheckpointPage/RoundTrip.antt =====
-- The decoder of checkpoint pages reads back what the encoder wrote.
use native.Mathlib.Nat.{zero-add}
use otsardb.Base.{
  ℕ, ◌+◌, ◌*◌, ◌^◌, ◌≤◌, ◌<◌, ◌≡◌, ◌≢◌, ap, sym, ◌∙◌, true, false, some, List, ◌++◌, length,
  length-append, take, drop, get_or, arith,
}
use otsardb.Bytes.{get_u32_le, get_u64_le}
use otsardb.CheckpointPage.{
  View, magic, version, header_size, pages_named, encode_record, encode_records, encode_header,
  encode, walk, decode, frame, found_at, pass_by,
}
use otsardb.CheckpointPage.Bounds.{frame_below}
use otsardb.CheckpointPage.Layout.{
  object_magic, object_version, object_page_size, object_database_size, object_page_count,
  object_records, object_header_size, record_content, record_found,
}
use otsardb.CheckpointPage.Walk.{walk_records, pass_by-records}

-- An object that was encoded met the tests of the encoder.
record Encoded (ps db count : ℕ) (nos pages out : List ℕ) : Type 0 where
  sized : ps ≢ 0
  counted : count ≢ 0
  named : pages_named count nos 0 db ≡ true
  joined : out ≡ encode_header ps db count ++ encode_records count ps nos pages 0

encoded :
    (ps db count : ℕ) (nos pages out : List ℕ)
    → encode ps db (some nos) (some pages) count ≡ some out
    → Encoded ps db count nos pages out
encoded ps db count nos pages out h =
    unfold encode in
    record {
      sized = ground arith;
      counted = ground arith;
      named = ground arith;
      joined = ground arith;
    }

abbrev pub view_of : ℕ → ℕ → ℕ → List ℕ → View
view_of ps db count out = record {
  format_version = version;
  page_size = ps;
  database_size_pages = db;
  page_count = count;
  bytes = drop header_size out;
  size = length out;
}

-- The tests of the decoder, on a buffer whose fields are known.
decode-fields :
    (ps db count top : ℕ) (out : List ℕ)
    → take 8 out ≡ magic
    → get_u32_le (drop 8 out) ≡ version
    → get_u32_le (drop 12 out) ≡ ps
    → get_u64_le (drop 16 out) ≡ db
    → get_u32_le (drop 24 out) ≡ count
    → ps ≢ 0
    → count ≢ 0
    → header_size ≤ length out
    → walk out (length out) count header_size header_size 0 ≡ some (length out, top)
    → 1 ≤ top
    → top ≤ db
    → decode (some out) (length out) ≡ some (view_of ps db count out)
unfolding decode
decode-fields ps db count top out m v p d c sized counted long walks positive below =
    rw (m, v, p, d, c, walks) (ground arith)

-- What was encoded decodes to the sizes and the count of the caller, and every record of the decoded
-- object has the number and the bytes of the caller's page, not compressed. The sizes and numbers
-- are within their C types, a record's size within 32 bits, and the object smaller than 2^63.
pub decode-encode_object :
    (ps db count : ℕ) (nos pages out : List ℕ)
    → encode ps db (some nos) (some pages) count ≡ some out
    → 12 + ps < 2 ^ 32
    → db < 2 ^ 64
    → count < 2 ^ 32
    → ((k : ℕ) → get_or nos k 0 < 2 ^ 32)
    → count * ps ≤ length pages
    → length out < 2 ^ 63
    → (decode (some out) (length out) ≡ some (view_of ps db count out))
      × ((i : ℕ)
          → i < count
          → (page : List ℕ) × (frame (view_of ps db count out) i
              ≡ some (record {
                page_no = get_or nos i 0;
                compressed = false;
                page_data = page;
                page_size = ps;
              }))
            × (take ps page ≡ take ps (drop (i * ps) pages)))
decode-encode_object ps db count nos pages out written narrow db_bound count_bound small enough
      object_size =
    let e = encoded ps db count nos pages out written in
    let header = encode_header ps db count in
    let records = encode_records count ps nos pages 0 in
    let size = object_header_size ps db count in
    let room : (0 + count) * ps ≤ length pages = rw (zero-add count) enough in
    let w =
      walk_records ps db nos pages narrow small count 0 0 header out e.joined object_size room
        e.named (omega arith) in
    let walks = ap (λ q. walk out (length out) count q q 0) (sym size) ∙ w.walks in
    let at = e.joined in
    (
      decode-fields ps db count w.top out (ap (take 8) at ∙ object_magic ps db count records)
          (ap (λ x. get_u32_le (drop 8 x)) at ∙ object_version ps db count records)
          (ap (λ x. get_u32_le (drop 12 x)) at ∙ object_page_size ps db count records (omega arith))
          (ap (λ x. get_u64_le (drop 16 x)) at ∙ object_database_size ps db count records db_bound)
          (ap (λ x. get_u32_le (drop 24 x)) at ∙ object_page_count ps db count records count_bound)
          e.sized e.counted (omega (arith, ap (λ x. length x) at, length-append header records))
          walks (w.positive (omega (arith, e.counted))) w.below,
      λ i lt.
          let (rest, fits, reached) =
            pass_by-records ps db nos pages narrow small count 0 i i lt (omega arith) room in
          let page = drop (i * ps) pages in
          let this = encode_record ps (get_or nos i 0) page ++ rest in
          let found : pass_by i (drop header_size out) ≡ this =
            ap (λ x. pass_by i (drop header_size x)) at
            ∙ ap (pass_by i) (object_records ps db count records)
            ∙ reached in
          (
            drop 12 this,
            frame_below (view_of ps db count out) i lt
                ∙ ap (λ q. some (found_at q)) found
                ∙ ap some (record_found ps (get_or nos i 0) page rest (small i) (omega arith)),
            record_content ps (get_or nos i 0) page rest fits,
          ),
    )
