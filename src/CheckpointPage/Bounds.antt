-- ===== src/CheckpointPage/Bounds.antt =====
-- What the decoder of checkpoint pages accepts lies inside the buffer, record by record.
use native.Mathlib.Nat.{mod-eq_of_lt, mod-le}
use otsardb.Base.{
  ℕ, zero, suc, ◌+◌, ◌%◌, ◌^◌, ◌≤◌, ◌<◌, ◌≡◌, refl, ap, ◌∙◌, lt→ltb, some, List, Option-cases, inl,
  inr, drop-drop, drop, arith, ltb, if◌then◌else◌,
}
use otsardb.Bytes.{get_u32_le, IsBytes}
use otsardb.Bytes.RoundTrip.{get_u32_le-lt, IsBytes-drop}
use otsardb.CheckpointPage.{View, walk, decode, frame, found_at, pass_by, header_size}

-- Record `i` of a buffer that was accepted: where it is, and that it is what `frame` reports.
pub record Inside (encoded : List ℕ) (size : ℕ) (v : View) (i : ℕ) : Type 0 where
  pub offset : ℕ
  pub reported : frame v i ≡ some (found_at (drop offset encoded))
  pub behind_header : header_size ≤ offset
  pub fits : offset + 12 + get_u32_le (drop 8 (drop offset encoded)) ≤ size
  pub in_database : get_u32_le (drop offset encoded) ≤ v.database_size_pages

module _ (encoded : List ℕ) (size : ℕ) (bytes : IsBytes encoded) (object_size : size < 2 ^ 63) where
  abbrev number : ℕ → ℕ
  number position = get_u32_le (drop position encoded)

  abbrev stored : ℕ → ℕ
  stored position = get_u32_le (drop 8 (drop position encoded))

  stored-lt : (position : ℕ) → stored position < 2 ^ 32
  stored-lt position =
      get_u32_le-lt (drop 8 (drop position encoded))
        (IsBytes-drop 8 (drop position encoded) (IsBytes-drop position encoded bytes))

  abbrev greater : ℕ → ℕ → ℕ
  greater m n = if ltb m n then n else m

  -- One turn of the loop that went on.
  record Step (left position expected m : ℕ) (out : ℕ × ℕ) : Type 0 where
    inside : position + 12 + stored position ≤ size
    later :
        walk encoded size left
          (position + 12 + stored position)
          (expected + (12 + stored position) % 2 ^ 32)
          (greater m (number position))
        ≡ some out

  step :
      (left position expected m : ℕ) (out : ℕ × ℕ)
      → position ≤ size
      → walk encoded size (suc left) position expected m ≡ some out
      → Step left position expected m out
  step left position expected m out h e =
      let small = stored-lt position in
      let near : (position + 12) % 2 ^ 64 ≡ position + 12 = mod-eq_of_lt (omega arith) in
      let far : (position + 12 + stored position) % 2 ^ 64 ≡ position + 12 + stored position =
        mod-eq_of_lt (omega arith) in
      unfold walk in record { inside = ground arith; later = ground arith }

  -- The expected size grows no faster than the position.
  expected_le :
      (left position expected m : ℕ) (out : ℕ × ℕ)
      → position ≤ size
      → walk encoded size left position expected m ≡ some out
      → out.0 + position ≤ size + expected
  expected_le zero position expected m out h e = unfold walk in ground arith
  expected_le (suc left) position expected m out h e =
      let s = step left position expected m out h e in
      let rest =
        expected_le left (position + 12 + stored position)
          (expected + (12 + stored position) % 2 ^ 32) (greater m (number position)) out s.inside
          s.later in
      omega (arith, mod-le (12 + stored position) (2 ^ 32))

  greatest_le :
      (left position expected m : ℕ) (out : ℕ × ℕ)
      → position ≤ size
      → walk encoded size left position expected m ≡ some out
      → m ≤ out.1
  greatest_le zero position expected m out h e = unfold walk in ground arith
  greatest_le (suc left) position expected m out h e =
      let s = step left position expected m out h e in
      let rest =
        greatest_le left (position + 12 + stored position)
          (expected + (12 + stored position) % 2 ^ 32) (greater m (number position)) out s.inside
          s.later in
      ground arith

  -- A record that the loop passed, as the loop of `frame` comes to it.
  record Passed (i position top : ℕ) : Type 0 where
    offset : ℕ
    reached : pass_by i (drop position encoded) ≡ drop offset encoded
    onward : position ≤ offset
    fits : offset + 12 + stored offset ≤ size
    named : number offset ≤ top

  -- When the expected size comes out right, no sum of 32 bits wrapped.
  passed :
      (left i position expected m : ℕ) (out : ℕ × ℕ)
      → position ≤ size
      → expected ≡ position
      → walk encoded size left position expected m ≡ some out
      → out.0 ≡ size
      → i < left
      → Passed i position out.1
  unfolding pass_by
  passed zero i position expected m out h same e whole lt = absurd (omega arith)
  passed (suc left) zero position expected m out h same e whole lt =
      let s = step left position expected m out h e in
      let top =
        greatest_le left (position + 12 + stored position)
          (expected + (12 + stored position) % 2 ^ 32) (greater m (number position)) out s.inside
          s.later in
      record {
        offset = position;
        reached = refl;
        onward = omega arith;
        fits = s.inside;
        named = ground arith;
      }
  passed (suc left) (suc i) position expected m out h same e whole lt =
      let s = step left position expected m out h e in
      let next = position + 12 + stored position in
      let wide = (12 + stored position) % 2 ^ 32 in
      let grows =
        expected_le left next (expected + wide) (greater m (number position)) out s.inside
          s.later in
      let bound = mod-le (12 + stored position) (2 ^ 32) in
      let exact : wide ≡ 12 + stored position = omega arith in
      let p =
        passed left i next (expected + wide) (greater m (number position)) out s.inside
          (omega arith) s.later whole (omega arith) in
      record {
        offset = p.offset;
        reached =
            ap (pass_by i)
              (drop-drop wide position encoded ∙ ap (λ n. drop n encoded) (omega arith))
            ∙ p.reached;
        onward = (let onward = p.onward in omega arith);
        fits = p.fits;
        named = p.named;
      }

pub frame_below :
    (v : View) (i : ℕ) → i < v.page_count → frame v i ≡ some (found_at (pass_by i v.bytes))
unfolding frame
frame_below v i lt = rw (lt→ltb i v.page_count lt)

-- If the decoder accepts a buffer of bytes, smaller than 2^63, then for every index below the page
-- count the record that `frame` reports lies behind the header and ends within the buffer, its
-- stored bytes included, and its page number is at most the size of the database.
pub decode-Inside :
    (encoded : List ℕ) (size : ℕ) (v : View) (i : ℕ)
    → IsBytes encoded
    → size < 2 ^ 63
    → decode (some encoded) size ≡ some v
    → i < v.page_count
    → Inside encoded size v i
decode-Inside encoded size v i bytes object_size e lt =
    let count = get_u32_le (drop 24 encoded) in
    elim (Option-cases (walk encoded size count header_size header_size 0)) [
      | inl none' ↦ absurd (unfold decode in ground arith)
      | inr (out, w) ↦
          let same_size : out.0 ≡ size = unfold decode in ground arith in
          let long : header_size ≤ size = unfold decode in ground arith in
          let counted : v.page_count ≡ count = unfold decode in ground arith in
          let held : v.bytes ≡ drop header_size encoded = unfold decode in ground arith in
          let top : out.1 ≤ v.database_size_pages = unfold decode in ground arith in
          let p =
            passed encoded size bytes object_size count i header_size header_size 0 out long refl w
              same_size (omega arith) in
          let place : pass_by i v.bytes ≡ drop p.offset encoded = ap (pass_by i) held ∙ p.reached in
          let named = p.named in
          record {
            offset = p.offset;
            reported = frame_below v i lt ∙ ap (λ q. some (found_at q)) place;
            behind_header = p.onward;
            fits = p.fits;
            in_database = omega arith;
          }
    ]
