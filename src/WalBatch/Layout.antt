-- ===== src/WalBatch/Layout.antt =====
-- Where the encoder puts each field of a batch.
use otsardb.Base.{
  ℕ, zero, suc, ◌+◌, ◌*◌, ◌^◌, ◌≤◌, ◌<◌, ◌≡◌, refl, ap, ◌∙◌, sym, List, ◌++◌, length, take, drop,
  get_or, append_assoc, arith, some, inl, inr, length-append, length-take, length-drop, take-append,
  Option-cases, drop_beyond, subst, ◌-◌, ◌≢◌,
}
use otsardb.Bytes.{put_u32_le, put_u64_le, get_u32_le, get_u64_le}
use otsardb.Bytes.RoundTrip.{get-put_u32_le, get-put_u64_le}
use otsardb.WalBatch.{magic, version, encode_header, encode_frame, encode_frames, record_size}

module _ (ps db count : ℕ) (rest : List ℕ) where
  abbrev whole : List ℕ
  whole = encode_header ps db count ++ rest

  pub header_magic : take 8 whole ≡ magic
  unfolding encode_header put_u32_le
  header_magic = refl

  pub header_version : get_u32_le (drop 8 whole) ≡ version
  unfolding encode_header put_u32_le
  header_version = get-put_u32_le version _ (omega arith)

  pub header_page_size : ps < 2 ^ 32 → get_u32_le (drop 12 whole) ≡ ps
  unfolding encode_header put_u32_le
  header_page_size h = get-put_u32_le ps _ h

  pub header_database_size : db < 2 ^ 64 → get_u64_le (drop 16 whole) ≡ db
  unfolding encode_header put_u32_le put_u64_le
  header_database_size h = get-put_u64_le db _ h

  pub header_frame_count : count < 2 ^ 32 → get_u32_le (drop 24 whole) ≡ count
  unfolding encode_header put_u32_le put_u64_le
  header_frame_count h = get-put_u32_le count _ h

  pub header_skipped : drop 32 whole ≡ rest
  unfolding encode_header put_u32_le put_u64_le
  header_skipped = refl

pub length-encode_header : (ps db count : ℕ) → length (encode_header ps db count) ≡ 32
unfolding encode_header put_u32_le put_u64_le
length-encode_header ps db count = refl

length-encode_frame :
    (ps number' : ℕ) (page : List ℕ)
    → ps ≤ length page
    → length (encode_frame ps number' page) ≡ record_size ps
unfolding encode_frame put_u32_le
length-encode_frame ps number' page h = omega (arith, length-take ps page)

-- One turn of the encoder's loop.
pub record Turn (ps : ℕ) (nos pages : List ℕ) (n i : ℕ) (out : List ℕ) : Type 0 where
  pub rest : List ℕ
  pub named : get_or nos i 0 ≢ 0
  pub later : encode_frames ps nos pages n (i + 1) ≡ some rest
  pub joined : out ≡ encode_frame ps (get_or nos i 0) (drop (i * ps) pages) ++ rest

pub turn :
    (ps : ℕ) (nos pages : List ℕ) (n i : ℕ) (out : List ℕ)
    → encode_frames ps nos pages (suc n) i ≡ some out
    → Turn ps nos pages n i out
unfolding encode_frames encode_frame
turn ps nos pages n i out h = elim (Option-cases (encode_frames ps nos pages n (i + 1))) [
  | inl e ↦ absurd (ground arith)
  | inr (r, e) ↦ record { rest = r; named = ground arith; later = e; joined = ground arith }
]

-- The records of the frames stand one behind the other.
pub record FrameAt (ps number' : ℕ) (page : List ℕ) (found : List ℕ) : Type 0 where
  pub number : get_u32_le found ≡ number'
  pub content : take ps (drop 8 found) ≡ take ps page

FrameAt-encode_frame :
    (ps number' : ℕ) (page rest : List ℕ)
    → number' < 2 ^ 32
    → ps ≤ length page
    → FrameAt ps number' page (encode_frame ps number' page ++ rest)
FrameAt-encode_frame ps number' page rest h fits = record {
  number =
      unfold encode_frame in
      ap get_u32_le (append_assoc (put_u32_le number') (put_u32_le 0 ++ take ps page) rest)
      ∙ get-put_u32_le number' ((put_u32_le 0 ++ take ps page) ++ rest) h;
  content =
      unfold encode_frame put_u32_le in
      take-append ps (take ps page) rest (omega (arith, length-take ps page));
}

page_room :
    (ps i n : ℕ) (pages : List ℕ)
    → (i + suc n) * ps ≤ length pages
    → (ps ≤ length (drop (i * ps) pages)) × ((i + 1 + n) * ps ≤ length pages)
page_room ps i n pages h = (
  grind (arith, length-drop (i * ps) pages),
  (let e : i + 1 + n ≡ i + suc n = omega arith in rw e h),
)

module _ (ps : ℕ) (nos pages : List ℕ) where
  pub length-encode_frames :
      (n i : ℕ) (out : List ℕ)
      → encode_frames ps nos pages n i ≡ some out
      → (i + n) * ps ≤ length pages
      → length out ≡ n * record_size ps
  length-encode_frames zero i out h fits = unfold encode_frames in ground arith
  length-encode_frames (suc n) i out h fits =
      let t = turn ps nos pages n i out h in
      let room = page_room ps i n pages fits in
      omega (
        arith,
        ap (λ x. length x) t.joined,
        length-append (encode_frame ps (get_or nos i 0) (drop (i * ps) pages)) t.rest,
        length-encode_frame ps (get_or nos i 0) (drop (i * ps) pages) room.0,
        length-encode_frames n (i + 1) t.rest t.later room.1,
      )

  -- Frame `j` of the records written from index `i` on is frame `k = i + j` of the caller.
  pub FrameAt-encode_frames :
      (n i j k offset : ℕ) (out tail : List ℕ)
      → encode_frames ps nos pages n i ≡ some out
      → (i + n) * ps ≤ length pages
      → ((m : ℕ) → get_or nos m 0 < 2 ^ 32)
      → j < n
      → k ≡ i + j
      → offset ≡ j * record_size ps
      → (get_or nos k 0 ≢ 0)
        × FrameAt ps (get_or nos k 0) (drop (k * ps) pages) (drop offset (out ++ tail))
  FrameAt-encode_frames zero i j k offset out tail h fits small lt e o = absurd (omega arith)
  FrameAt-encode_frames (suc n) i zero k offset out tail h fits small lt e o =
      let t = turn ps nos pages n i out h in
      let room = page_room ps i n pages fits in
      let e' : k ≡ i = omega arith in
      let o' : offset ≡ 0 = omega arith in
      rw (e', o', t.joined)
        (
          t.named,
          subst (FrameAt ps (get_or nos i 0) (drop (i * ps) pages))
              (sym
                (append_assoc (encode_frame ps (get_or nos i 0) (drop (i * ps) pages)) t.rest tail))
              (FrameAt-encode_frame ps (get_or nos i 0) (drop (i * ps) pages) (t.rest ++ tail)
                (small i) room.0),
        )
  FrameAt-encode_frames (suc n) i (suc j) k offset out tail h fits small lt e o =
      let t = turn ps nos pages n i out h in
      let room = page_room ps i n pages fits in
      let page = encode_frame ps (get_or nos i 0) (drop (i * ps) pages) in
      let size : length page ≡ record_size ps =
        length-encode_frame ps (get_or nos i 0) (drop (i * ps) pages) room.0 in
      let skip : drop offset (out ++ tail) ≡ drop (offset - record_size ps) (t.rest ++ tail) =
        ap (λ x. drop offset (x ++ tail)) t.joined
        ∙ ap (drop offset) (append_assoc page t.rest tail)
        ∙ drop_beyond offset page (t.rest ++ tail) (omega arith)
        ∙ ap (λ x. drop (offset - x) (t.rest ++ tail)) size in
      rw skip (
        FrameAt-encode_frames n (i + 1) j k (offset - record_size ps) t.rest tail t.later room.1
          small (omega arith) (omega arith) (omega arith))

pub encode_frames-suc :
    (ps : ℕ) (nos pages : List ℕ) (n i : ℕ) (r : List ℕ)
    → encode_frames ps nos pages n (i + 1) ≡ some r
    → get_or nos i 0 ≢ 0
    → encode_frames ps nos pages (suc n) i
      ≡ some (encode_frame ps (get_or nos i 0) (drop (i * ps) pages) ++ r)
unfolding encode_frames encode_frame
encode_frames-suc ps nos pages n i r e h = ground arith
