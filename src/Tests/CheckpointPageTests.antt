-- ===== src/Tests/CheckpointPageTests.antt =====
-- Tests of src/storage/checkpoint_page.c on two pages of two bytes.
use otsardb.Base.{
  suc, zero, ◌<◌, get_or, take, drop, length, ◌*◌, ◌^◌, ℕ, ◌≡◌, refl, Bool, true, false, ◌&&◌, ltb,
  some, none, List, [], ◌∷◌, arith,
}
use otsardb.Bytes.{IsBytes}
use otsardb.CheckpointPage.{View, encode, decode, frame}
use otsardb.CheckpointPage.RoundTrip.{view_of, decode-encode_object}
use otsardb.CheckpointPage.Bounds.{Inside, decode-Inside}

abbrev numbers : List ℕ
numbers = 3 ∷ 7 ∷ []

abbrev pages : List ℕ
pages = 1 ∷ 2 ∷ 3 ∷ 4 ∷ []

abbrev records : List ℕ
records =
    3 ∷ 0 ∷ 0 ∷ 0 ∷ 0 ∷ 0 ∷ 0 ∷ 0 ∷ 2 ∷ 0 ∷ 0 ∷ 0 ∷ 1 ∷ 2 ∷ 7 ∷ 0 ∷ 0 ∷ 0 ∷ 0 ∷ 0 ∷ 0 ∷ 0 ∷ 2 ∷ 0
    ∷ 0 ∷ 0 ∷ 3 ∷ 4 ∷ []

abbrev buffer : List ℕ
buffer =
    65 ∷ 82 ∷ 75 ∷ 67 ∷ 80 ∷ 48 ∷ 49 ∷ 0 ∷ 1 ∷ 0 ∷ 0 ∷ 0 ∷ 2 ∷ 0 ∷ 0 ∷ 0 ∷ 9 ∷ 0 ∷ 0 ∷ 0 ∷ 0 ∷ 0 ∷ 0
    ∷ 0 ∷ 2 ∷ 0 ∷ 0 ∷ 0 ∷ 0 ∷ 0 ∷ 0 ∷ 0 ∷ records

abbrev view : View
view = record {
  format_version = 1;
  page_size = 2;
  database_size_pages = 9;
  page_count = 2;
  bytes = records;
  size = 60;
}

buffer_written : encode 2 9 (some numbers) (some pages) 2 ≡ some buffer
unfolding encode
buffer_written = refl

rejects_page_beyond : encode 2 6 (some numbers) (some pages) 2 ≡ none
unfolding encode
rejects_page_beyond = refl

buffer_read : decode (some buffer) 60 ≡ some view
unfolding decode
buffer_read = refl

rejects_short : decode (some buffer) 59 ≡ none
unfolding decode
rejects_short = refl

second_record :
    frame view 1
    ≡ some (record { page_no = 7; compressed = false; page_data = 3 ∷ 4 ∷ []; page_size = 2 })
unfolding frame
second_record = refl

all_small : List ℕ → Bool
all_small [] = true
all_small (b ∷ p) = ltb b 256 && all_small p

IsBytes-all_small : (p : List ℕ) → all_small p ≡ true → IsBytes p
unfolding all_small
IsBytes-all_small [] h = tt
IsBytes-all_small (b ∷ p) h = (ground arith, IsBytes-all_small p (ground arith))

buffer-IsBytes : IsBytes buffer
unfolding all_small
buffer-IsBytes = IsBytes-all_small buffer refl

decode-Inside_example : Inside buffer 60 view 1
decode-Inside_example =
    decode-Inside buffer 60 view 1 buffer-IsBytes (omega arith) buffer_read (omega arith)

numbers_small : (k : ℕ) → get_or numbers k 0 < 2 ^ 32
numbers_small zero = omega arith
numbers_small (suc zero) = omega arith
numbers_small (suc (suc k)) = omega arith

decode-encode_object_example :
    (decode (some buffer) (length buffer) ≡ some (view_of 2 9 2 buffer))
    × ((i : ℕ)
        → i < 2
        → (page : List ℕ) × (frame (view_of 2 9 2 buffer) i
            ≡ some (record {
              page_no = get_or numbers i 0;
              compressed = false;
              page_data = page;
              page_size = 2;
            }))
          × (take 2 page ≡ take 2 (drop (i * 2) pages)))
decode-encode_object_example =
    decode-encode_object 2 9 2 numbers pages buffer buffer_written (omega arith) (omega arith)
      (omega arith) numbers_small (omega arith) (omega arith)
