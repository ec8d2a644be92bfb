-- ===== src/WalBatch/RoundTrip.antt =====
-- The decoder reads back what the encoder wrote, and the encoder fails on bad arguments only.
use native.Mathlib.Nat.{mod-eq_of_lt, zero-add, div-mul-le_self}
use otsardb.Base.{
  ℕ, zero, suc, ◌+◌, ◌-◌, ◌*◌, ◌/◌, ◌^◌, ◌≤◌, ◌<◌, ◌≡◌, ◌≢◌, ◌↔◌, refl, ap, sym, ◌∙◌, true, some,
  List, ◌++◌, length, length-append, take, drop, get_or, arith, Option-cases, inl, inr, leb→le,
  le→leb, subst, ap₂, append-nil, [], drop_beyond,
}
use otsardb.Bytes.{get_u32_le, get_u64_le}
use otsardb.WalBatch.{
  View, magic, version, header_size, record_size, size_max, fits_size, total_size, valid_page_size,
  encode_header, encode_frame, encode_frames, encode, decode, frame,
}
use otsardb.WalBatch.Layout.{
  header_magic, header_version, header_page_size, header_database_size, header_frame_count,
  length-encode_header, length-encode_frames, encode_frames-suc, FrameAt-encode_frames,
}

-- A batch that was encoded met every test of the encoder.
record Encoded (ps db count : ℕ) (nos pages out : List ℕ) : Type 0 where
  frames : List ℕ
  valid : valid_page_size ps ≡ true
  sized : db ≢ 0
  framed : count ≢ 0
  fits : fits_size ps count ≡ true
  looped : encode_frames ps nos pages count 0 ≡ some frames
  joined : out ≡ encode_header ps db count ++ frames

encoded :
    (ps db count : ℕ) (nos pages out : List ℕ)
    → encode ps db (some nos) (some pages) count ≡ some out
    → Encoded ps db count nos pages out
encoded ps db count nos pages out h = elim (Option-cases (encode_frames ps nos pages count 0)) [
  | inl e ↦ absurd (unfold encode in ground arith)
  | inr (frames, e) ↦
      unfold encode in
      record {
        frames = frames;
        valid = ground arith;
        sized = ground arith;
        framed = ground arith;
        fits = ground arith;
        looped = e;
        joined = ground arith;
      }
]

abbrev pub view_of : ℕ → ℕ → ℕ → List ℕ → View
view_of ps db count out = record {
  format_version = version;
  page_size = ps;
  database_size_pages = db;
  frame_count = count;
  bytes = out;
  size = length out;
}

pub valid-le : (ps : ℕ) → valid_page_size ps ≡ true → (512 ≤ ps) × (ps ≤ 65536)
unfolding valid_page_size
valid-le ps h = ground arith

-- The tests of the decoder, on a buffer whose fields are known.
decode-fields :
    (ps db count : ℕ) (out : List ℕ)
    → take 8 out ≡ magic
    → get_u32_le (drop 8 out) ≡ version
    → get_u32_le (drop 12 out) ≡ ps
    → get_u64_le (drop 16 out) ≡ db
    → get_u32_le (drop 24 out) ≡ count
    → valid_page_size ps ≡ true
    → db ≢ 0
    → count ≢ 0
    → fits_size ps count ≡ true
    → header_size ≤ length out
    → total_size ps count ≡ length out
    → decode (some out) (length out) ≡ some (view_of ps db count out)
unfolding decode
decode-fields ps db count out m v p d c valid sized framed fits long total =
    rw (m, v, p, d, c, valid, fits, le→leb header_size (length out) long) (ground (arith, total))

pub fits_size-le : (ps count : ℕ) → fits_size ps count ≡ true → count * record_size ps ≤ 2 ^ 64 - 33
fits_size-le ps count h =
    let le : count ≤ (size_max - header_size) / record_size ps =
      leb→le count ((size_max - header_size) / record_size ps) h in
    grind (arith, div-mul-le_self (size_max - header_size) (record_size ps))

module _ (ps db count : ℕ) (nos pages out : List ℕ)
    (written : encode ps db (some nos) (some pages) count ≡ some out) (db_bound : db < 2 ^ 64)
    (count_bound : count < 2 ^ 32) (enough : count * ps ≤ length pages)
    (small : (k : ℕ) → get_or nos k 0 < 2 ^ 32) where
  parts : Encoded ps db count nos pages out
  parts = encoded ps db count nos pages out written

  length_out : length out ≡ 32 + count * record_size ps
  length_out =
      let e = parts in
      omega (
        arith,
        ap (λ x. length x) e.joined,
        length-append (encode_header ps db count) e.frames,
        length-encode_header ps db count,
        length-encode_frames ps nos pages count 0 e.frames e.looped (rw (zero-add count) enough),
      )

  whole_size : length out ≡ total_size ps count
  whole_size = sym (mod-eq_of_lt (omega (arith, fits_size-le ps count parts.fits)) ∙ sym length_out)

  -- Decoding gives back the page size, the database size and the number of frames.
  decoded : decode (some out) (length out) ≡ some (view_of ps db count out)
  decoded =
      let e = parts in
      let rest = e.frames in
      subst (λ x. decode (some x) (length x) ≡ some (view_of ps db count x)) (sym e.joined)
        (decode-fields ps db count (encode_header ps db count ++ rest)
          (header_magic ps db count rest) (header_version ps db count rest)
          (header_page_size ps db count rest (omega (arith, valid-le ps e.valid)))
          (header_database_size ps db count rest db_bound)
          (header_frame_count ps db count rest count_bound) e.valid e.sized e.framed e.fits
          (omega (
            arith,
            length-append (encode_header ps db count) rest,
            length-encode_header ps db count,
          ))
          (sym whole_size ∙ ap (λ x. length x) e.joined))

  -- Frame `i` of the batch has the caller's page number and the caller's page.
  frame_read :
      (i : ℕ)
      → i < count
      → (page : List ℕ) × (frame (view_of ps db count out) i ≡ some (get_or nos i 0, page))
        × (take ps page ≡ take ps (drop (i * ps) pages))
  frame_read i h =
      let e = parts in
      let found = drop (header_size + i * record_size ps) out in
      let place : found ≡ drop (i * record_size ps) (e.frames ++ []) =
        ap (drop (header_size + i * record_size ps)) e.joined
        ∙ drop_beyond (header_size + i * record_size ps) (encode_header ps db count) e.frames
            (omega (arith, length-encode_header ps db count))
        ∙ ap₂ (λ k x. drop k x) (omega (arith, length-encode_header ps db count))
            (sym (append-nil e.frames)) in
      let at =
        FrameAt-encode_frames ps nos pages count 0 i i (i * record_size ps) e.frames [] e.looped
          (rw (zero-add count) enough) small h (omega arith) refl in
      let number : get_u32_le found ≡ get_or nos i 0 = ap get_u32_le place ∙ at.1.number in
      (
        drop 8 found,
        unfold frame in ground (arith, number, at.0),
        ap (λ x. take ps (drop 8 x)) place ∙ at.1.content,
      )

  -- What was encoded decodes, with the sizes and the count of the caller, and every frame of the
  -- decoded batch has the number and the bytes of the caller's page.
  pub decode-encode :
      (decode (some out) (length out) ≡ some (view_of ps db count out))
      × ((i : ℕ)
          → i < count
          → (page : List ℕ) × (frame (view_of ps db count out) i ≡ some (get_or nos i 0, page))
            × (take ps page ≡ take ps (drop (i * ps) pages)))
  decode-encode = (decoded, frame_read)

frames_exist :
    (ps : ℕ) (nos pages : List ℕ) (n i : ℕ)
    → ((k : ℕ) → i ≤ k → k < i + n → get_or nos k 0 ≢ 0)
    → (r : List ℕ) × (encode_frames ps nos pages n i ≡ some r)
frames_exist ps nos pages zero i named = ([], unfold encode_frames in refl)
frames_exist ps nos pages (suc n) i named =
    let (r, e) =
      frames_exist ps nos pages n (i + 1) (λ k h h'. named k (omega arith) (omega arith)) in
    (
      encode_frame ps (get_or nos i 0) (drop (i * ps) pages) ++ r,
      encode_frames-suc ps nos pages n i r e (named i (omega arith) (omega arith)),
    )

-- What the encoder asks of its arguments.
pub record Encodable (ps db count : ℕ) (nos : List ℕ) : Type 0 where
  pub page_size_ok : valid_page_size ps ≡ true
  pub database_ok : db ≢ 0
  pub count_ok : count ≢ 0
  pub size_ok : fits_size ps count ≡ true
  pub numbers_ok : (k : ℕ) → k < count → get_or nos k 0 ≢ 0

-- The encoder succeeds exactly on the arguments that it asks for, when the caller's pages are
-- as many as it says.
pub encode_iff :
    (ps db count : ℕ) (nos pages : List ℕ)
    → count * ps ≤ length pages
    → ((k : ℕ) → get_or nos k 0 < 2 ^ 32)
    → ((out : List ℕ) × (encode ps db (some nos) (some pages) count ≡ some out))
      ↔ Encodable ps db count nos
encode_iff ps db count nos pages enough small = (
  λ (out, h).
      let e = encoded ps db count nos pages out h in
      record {
        page_size_ok = e.valid;
        database_ok = e.sized;
        count_ok = e.framed;
        size_ok = e.fits;
        numbers_ok = λ k lt.
            (FrameAt-encode_frames ps nos pages count 0 k k (k * record_size ps) e.frames []
              e.looped (rw (zero-add count) enough) small lt (omega arith) refl).0;
      },
  λ a.
      let (r, e) = frames_exist ps nos pages count 0 (λ k h h'. a.numbers_ok k (omega arith)) in
      (
        encode_header ps db count ++ r,
        (let valid = a.page_size_ok in
            let sized = a.database_ok in
            let framed = a.count_ok in
            let fits = a.size_ok in unfold encode in ground (arith, e, valid, sized, framed, fits)),
      ),
)
