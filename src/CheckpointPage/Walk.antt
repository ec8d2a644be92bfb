-- ===== src/CheckpointPage/Walk.antt =====
-- The loops of the decoder and of `frame`, over the records that the encoder wrote.
use native.Mathlib.Nat.{mod-eq_of_lt}
use otsardb.Base.{
  ℕ, zero, suc, ◌+◌, ◌*◌, ◌%◌, ◌^◌, ◌≤◌, ◌<◌, ◌≡◌, ◌≢◌, refl, ap, sym, ◌∙◌, true, some, List, ◌++◌,
  length, length-append, drop, drop-append, append_assoc, get_or, arith, ltb, if◌then◌else◌,
}
use otsardb.Bytes.{get_u32_le}
use otsardb.CheckpointPage.{pages_named, encode_record, encode_records, walk, pass_by}
use otsardb.CheckpointPage.Layout.{record_number, record_stored, length-encode_record, page_room}

module _ (ps db : ℕ) (nos pages : List ℕ) (narrow : 12 + ps < 2 ^ 32)
    (small : (k : ℕ) → get_or nos k 0 < 2 ^ 32) where
  -- The decoder's loop over the records from index `i` on.
  pub record Walked (whole : List ℕ) (n position m : ℕ) : Type 0 where
    pub top : ℕ
    pub walks : walk whole (length whole) n position position m ≡ some (length whole, top)
    pub above : m ≤ top
    pub positive : 1 ≤ n → 1 ≤ top
    pub below : top ≤ db

  named_first :
      (n i : ℕ)
      → pages_named (suc n) nos i db ≡ true
      → ((get_or nos i 0 ≢ 0) × (get_or nos i 0 ≤ db)) × (pages_named n nos (i + 1) db ≡ true)
  unfolding pages_named
  named_first n i h = ((ground arith, ground arith), ground arith)

  walk_step :
      (whole : List ℕ) (n position m number : ℕ)
      → length whole < 2 ^ 63
      → get_u32_le (drop position whole) ≡ number
      → get_u32_le (drop 8 (drop position whole)) ≡ ps
      → position + 12 + ps ≤ length whole
      → walk whole (length whole) (suc n) position position m
        ≡ walk whole
            (length whole)
            n
            (position + 12 + ps)
            (position + 12 + ps)
            (if ltb m number then number else m)
  unfolding walk
  walk_step whole n position m number object_size e e' fits =
      let near : (position + 12) % 2 ^ 64 ≡ position + 12 = mod-eq_of_lt (omega arith) in
      let far : (position + 12 + ps) % 2 ^ 64 ≡ position + 12 + ps = mod-eq_of_lt (omega arith) in
      let wide : (12 + ps) % 2 ^ 32 ≡ 12 + ps = mod-eq_of_lt narrow in
      let same : position + (12 + ps) ≡ position + 12 + ps = omega arith in
      rw (e, e', near, far, wide, same) (ground arith)

  pub walk_records :
      (n i m : ℕ) (pre whole : List ℕ)
      → whole ≡ pre ++ encode_records n ps nos pages i
      → length whole < 2 ^ 63
      → (i + n) * ps ≤ length pages
      → pages_named n nos i db ≡ true
      → m ≤ db
      → Walked whole n (length pre) m
  unfolding encode_records walk
  walk_records zero i m pre whole e object_size room named le =
      let size = ap (λ x. length x) e in
      let size' = length-append pre (encode_records zero ps nos pages i) in
      record {
        top = m;
        walks = ap (λ q. some (q, m)) (omega arith);
        above = omega arith;
        positive = λ h. absurd (omega arith);
        below = le;
      }
  walk_records (suc n) i m pre whole e object_size room named le =
      let number = get_or nos i 0 in
      let page = drop (i * ps) pages in
      let this = encode_record ps number page in
      let rest = encode_records n ps nos pages (i + 1) in
      let enough = page_room ps i n pages room in
      let first = named_first n i named in
      let this_size = length-encode_record ps number page enough.0 in
      let pre_size = length-append pre this in
      let split : whole ≡ (pre ++ this) ++ rest = e ∙ sym (append_assoc pre this rest) in
      let size = ap (λ x. length x) split in
      let size' = length-append (pre ++ this) rest in
      let here : drop (length pre) whole ≡ this ++ rest =
        ap (drop (length pre)) e ∙ drop-append (length pre) pre (this ++ rest) refl in
      let s =
        walk_step whole n (length pre) m number object_size
          (ap get_u32_le here ∙ record_number ps number page rest (small i))
          (ap (λ x. get_u32_le (drop 8 x)) here ∙ record_stored ps number page rest (omega arith))
          (omega arith) in
      let bounded = first.0.1 in
      let w =
        walk_records n (i + 1) (if ltb m number then number else m) (pre ++ this) whole split
          object_size enough.1 first.1 (ground arith) in
      let next : length pre + 12 + ps ≡ length (pre ++ this) = omega arith in
      let above = w.above in
      let not_zero = first.0.0 in
      record {
        top = w.top;
        walks =
            s
            ∙ ap (λ q. walk whole (length whole) n q q (if ltb m number then number else m)) next
            ∙ w.walks;
        above = ground arith;
        positive = λ h. ground arith;
        below = w.below;
      }

  -- The loop of `frame` comes to the record of each index.
  pub pass_by-records :
      (n i j k : ℕ)
      → j < n
      → k ≡ i + j
      → (i + n) * ps ≤ length pages
      → (rest : List ℕ) × (ps ≤ length (drop (k * ps) pages))
        × (pass_by j (encode_records n ps nos pages i)
            ≡ encode_record ps (get_or nos k 0) (drop (k * ps) pages) ++ rest)
  unfolding encode_records pass_by
  pass_by-records zero i j k lt e room = absurd (omega arith)
  pass_by-records (suc n) i zero k lt e room =
      let same : k ≡ i = omega arith in
      rw same (encode_records n ps nos pages (i + 1), (page_room ps i n pages room).0, refl)
  pass_by-records (suc n) i (suc j) k lt e room =
      let number = get_or nos i 0 in
      let page = drop (i * ps) pages in
      let this = encode_record ps number page in
      let rest = encode_records n ps nos pages (i + 1) in
      let enough = page_room ps i n pages room in
      let skipped : drop ((12 + get_u32_le (drop 8 (this ++ rest))) % 2 ^ 32) (this ++ rest)
          ≡ rest =
        ap (λ q. drop ((12 + q) % 2 ^ 32) (this ++ rest))
          (record_stored ps number page rest (omega arith))
        ∙ ap (λ q. drop q (this ++ rest)) (mod-eq_of_lt narrow)
        ∙ drop-append (12 + ps) this rest (length-encode_record ps number page enough.0) in
      let later = pass_by-records n (i + 1) j k (omega arith) (omega arith) enough.1 in
      (later.0, later.1, ap (pass_by j) skipped ∙ later.2)
