-- ===== src/Tests/WalBatchTests.antt =====
-- Tests of src/storage/wal_batch.c on a batch of two pages of 512 bytes.
use otsardb.Base.{
  ℕ, zero, suc, ◌*◌, ◌^◌, ◌<◌, ◌≡◌, ◌↔◌, refl, some, none, List, [], ◌∷◌, ◌++◌, replicate, get_or,
  drop, take, length, arith,
}
use otsardb.WalBatch.{encode, encode_header, encode_frame, decode, frame}
use otsardb.WalBatch.RoundTrip.{view_of, decode-encode, Encodable, encode_iff}
use otsardb.WalBatch.Bounds.{Accepted, decode-Accepted}

abbrev numbers : List ℕ
numbers = 3 ∷ 7 ∷ []

abbrev pages : List ℕ
pages = replicate 512 1 ++ replicate 512 2

abbrev batch : List ℕ
batch =
    encode_header 512 9 2
    ++ (encode_frame 512 3 pages ++ (encode_frame 512 7 (drop 512 pages) ++ []))

batch_written : encode 512 9 (some numbers) (some pages) 2 ≡ some batch
unfolding encode
batch_written = refl

encode_rejects_page_zero : encode 512 9 (some (3 ∷ 0 ∷ [])) (some pages) 2 ≡ none
unfolding encode
encode_rejects_page_zero = refl

numbers_small : (k : ℕ) → get_or numbers k 0 < 2 ^ 32
numbers_small zero = omega arith
numbers_small (suc zero) = omega arith
numbers_small (suc (suc k)) = omega arith

decode-encode_example :
    (decode (some batch) (length batch) ≡ some (view_of 512 9 2 batch))
    × ((i : ℕ)
        → i < 2
        → (page : List ℕ) × (frame (view_of 512 9 2 batch) i ≡ some (get_or numbers i 0, page))
          × (take 512 page ≡ take 512 (drop (i * 512) pages)))
decode-encode_example =
    decode-encode 512 9 2 numbers pages batch batch_written (omega arith) (omega arith)
      (omega arith) numbers_small

encode_iff_example :
    ((out : List ℕ) × (encode 512 9 (some numbers) (some pages) 2 ≡ some out))
    ↔ Encodable 512 9 2 numbers
encode_iff_example = encode_iff 512 9 2 numbers pages (omega arith) numbers_small

decode-Accepted_example : Accepted batch (length batch) (view_of 512 9 2 batch)
decode-Accepted_example =
    decode-Accepted batch (length batch) (view_of 512 9 2 batch) decode-encode_example.0
