-- ===== src/WalBatch/Bounds.antt =====
-- What the decoder accepts is a whole batch: every frame lies inside the buffer.
use native.Mathlib.Nat.{mod-eq_of_lt}
use otsardb.Base.{ℕ, ◌+◌, ◌*◌, ◌≤◌, ◌<◌, ◌≡◌, ◌≢◌, ◌∙◌, sym, true, some, List, take, arith}
use otsardb.Bytes.{bytes_eq}
use otsardb.WalBatch.{
  View, magic, record_size, header_size, fits_size, total_size, valid_page_size, decode,
}
use otsardb.WalBatch.RoundTrip.{fits_size-le, valid-le}

-- A batch that the decoder accepts has the magic, a valid page size, at least one frame, and
-- exactly the bytes of its frames; so each frame's record ends within the buffer.
pub record Accepted (encoded : List ℕ) (size : ℕ) (v : View) : Type 0 where
  pub tagged : bytes_eq (take 8 encoded) magic ≡ true
  pub page_bounds : (512 ≤ v.page_size) × (v.page_size ≤ 65536)
  pub nonempty : v.frame_count ≢ 0
  pub sized : v.database_size_pages ≢ 0
  pub exact : size ≡ header_size + v.frame_count * record_size v.page_size
  pub inside :
      (i : ℕ)
      → i < v.frame_count
      → header_size + i * record_size v.page_size + record_size v.page_size ≤ size

pub decode-Accepted :
    (encoded : List ℕ) (size : ℕ) (v : View)
    → decode (some encoded) size ≡ some v
    → Accepted encoded size v
decode-Accepted encoded size v h =
    let fits : fits_size v.page_size v.frame_count ≡ true = unfold decode in ground arith in
    let total : total_size v.page_size v.frame_count ≡ size = unfold decode in ground arith in
    let valid : valid_page_size v.page_size ≡ true = unfold decode in ground arith in
    let exact : size ≡ header_size + v.frame_count * record_size v.page_size =
      sym total ∙ mod-eq_of_lt (omega (arith, fits_size-le v.page_size v.frame_count fits)) in
    record {
      tagged = unfold decode in ground arith;
      page_bounds = valid-le v.page_size valid;
      nonempty = unfold decode in ground arith;
      sized = unfold decode in ground arith;
      exact = exact;
      inside = λ i lt. grind arith;
    }
