-- ===== src/SqliteWal/Delivery.antt =====
-- What the callback is given: the frames behind the cursor, in order, none twice and none left
-- out, and the cursor stands behind the last of them.
use native.Mathlib.Nat.{mod-eq_of_lt}
use otsardb.Base.{
  ℕ, zero, suc, ◌+◌, ◌*◌, ◌%◌, ◌^◌, ◌≤◌, ◌<◌, ◌≡◌, ◌≢◌, refl, ap, subst, some, arith, List, [], ◌∷◌,
  ◌++◌, length, length-append, ltb, not, ◌&&◌, leb, ◌==◌, if◌then◌else◌, Bool-cases, inl, inr,
}
use otsardb.SqliteWal.{
  ReadAt, Callback, Cursor, Header, FrameRef, FrameFacts, Core, Counts, Round, ended, unread,
  broken, pending, refused, committed, Outcome, stopped, failed, exhausted, round, scan_loop,
  follow, push, commit, finish_frame, call, check_frame, scan_reader, conclude, start, no_counts,
  scannable, header_size, frame_header_size,
}
use otsardb.SqliteWal.Fuel.{round_cases, finish_cases}

-- The frames of `size` bytes from index `first` on, one behind the other.
abbrev pub Consecutive : ℕ → ℕ → List FrameRef → Type 0
Consecutive size first [] = Unit
Consecutive size first (r ∷ rs) =
    (r.frame_offset ≡ header_size + first * size)
    × (r.page_no ≢ 0)
    × Consecutive size (first + 1) rs

pub Consecutive-append :
    (size first : ℕ) (xs ys : List FrameRef)
    → Consecutive size first xs
    → Consecutive size (first + length xs) ys
    → Consecutive size first (xs ++ ys)
Consecutive-append size first [] ys hx hy = let e : first + 0 ≡ first = omega arith in rw e at hy
Consecutive-append size first (x ∷ xs) ys hx hy =
    let e : first + suc (length xs) ≡ first + 1 + length xs = omega arith in
    (hx.0, hx.1, Consecutive-append size (first + 1) xs ys hx.2 (rw e at hy))

-- A valid frame has a page number.
pub check_frame-page :
    (header : Header) (sums : ℕ × ℕ) (frame : List ℕ) (f : FrameFacts)
    → check_frame header sums frame ≡ some f
    → f.page_no ≢ 0
unfolding check_frame
check_frame-page header sums frame f h = ground arith

-- A callback that writes down the frames of the commits that it takes; `answer` says which.
unfoldable pub logging : (ℕ → ℕ → List FrameRef → ℕ) → Callback (List FrameRef)
logging answer page_size db refs log =
    let a = answer page_size db refs in (a, if a == 0 then log ++ refs else log)

room_for_one : (a s b w : ℕ) → header_size + a * s + s ≤ w → w < header_size + b * s → a + 1 < b
room_for_one a s b w h k = mul-lt (a + 1) b s (omega (arith, h, k))
  where
    mul-lt : (x y z : ℕ) → x * z < y * z → x < y
    mul-lt x y z lt = elim (Bool-cases (ltb x y)) [
      | inl less ↦ ground arith
      | inr more ↦
          let le : y ≤ x = ground arith in
          let le' : y * z ≤ x * z = grind arith in absurd (omega arith)
    ]

module _ (read_at : ReadAt) (wal_size : ℕ) (answer : ℕ → ℕ → List FrameRef → ℕ) (first : ℕ)
    (header : Header)
    (countable : wal_size < header_size + 2 ^ 32 * (frame_header_size + header.page_size)) where
  abbrev size : ℕ
  size = frame_header_size + header.page_size

  -- The invariant of the loop.
  record Inv (c : Core (List FrameRef)) : Type 0 where
    same_header : c.cursor.header ≡ header
    placed : c.offset ≡ header_size + c.absolute_frame_count * size
    counted : c.absolute_frame_count ≡ c.cursor.frame_count + length c.refs
    waiting : Consecutive size c.cursor.frame_count c.refs
    delivered : Consecutive size first c.world
    moved : c.cursor.frame_count ≡ first + length c.world

  abbrev Holds : Round (List FrameRef) → Type 0
  Holds (ended c) = Inv c
  Holds (unread c) = Inv c
  Holds (broken c) = Inv c
  Holds (pending c) = Inv c
  Holds (refused c) = Inv c
  Holds (committed c) = Inv c

  push-Inv :
      (c : Core (List FrameRef)) (f : FrameFacts)
      → f.page_no ≢ 0
      → c.offset + (frame_header_size + c.cursor.header.page_size) ≤ wal_size
      → Inv c
      → Inv (push read_at wal_size (some (logging answer)) c f)
  unfolding push
  push-Inv c f real fits v =
      let width : frame_header_size + c.cursor.header.page_size ≡ size =
        ap (λ h. frame_header_size + h.page_size) v.same_header in
      let below : c.absolute_frame_count + 1 < 2 ^ 32 =
        room_for_one c.absolute_frame_count size (2 ^ 32) wal_size (omega (arith, v.placed, width))
          countable in
      let next : (c.absolute_frame_count + 1) % 2 ^ 32 ≡ c.absolute_frame_count + 1 =
        mod-eq_of_lt below in
      record {
        same_header = v.same_header;
        placed = omega (arith, v.placed, width, next, ap (λ (t : ℕ). t * size) next);
        counted = omega (
          arith,
          v.counted,
          next,
          length-append c.refs (record { page_no = f.page_no; frame_offset = c.offset } ∷ []),
        );
        waiting =
            Consecutive-append size c.cursor.frame_count c.refs _ v.waiting
              (omega (arith, v.placed, ap (λ (t : ℕ). t * size) v.counted), real, tt);
        delivered = v.delivered;
        moved = v.moved;
      }

  -- Whether it takes the commit or not, the log is as long as what the cursor passes.
  commit-Inv :
      (c : Core (List FrameRef))
      → Inv c
      → Inv (commit read_at wal_size (some (logging answer)) c (c.world ++ c.refs))
  unfolding commit
  commit-Inv c v = record {
    same_header = v.same_header;
    placed = v.placed;
    counted = omega arith;
    waiting = tt;
    delivered =
        Consecutive-append size first c.world c.refs v.delivered
          (subst (λ k. Consecutive size k c.refs) v.moved v.waiting);
    moved = omega (arith, v.counted, v.moved, length-append c.world c.refs);
  }

  finish-Holds :
      (c : Core (List FrameRef)) (db : ℕ)
      → Inv c
      → Holds (finish_frame read_at wal_size (some (logging answer)) c db)
  finish-Holds c db v =
      finish_cases read_at wal_size (some (logging answer)) Holds c db v
        (λ w e.
          subst (λ x. Inv (commit read_at wal_size (some (logging answer)) c x)) (taken w e)
            (commit-Inv c v))
        (λ a w other e. subst (λ x. Inv (record c { world = x })) (left_alone a w other e) v)
    where
      taken :
          (w : List FrameRef)
          → call read_at wal_size (some (logging answer)) c db ≡ (0, w)
          → c.world ++ c.refs ≡ w
      taken w e = unfold logging in ground arith

      left_alone :
          (a : ℕ) (w : List FrameRef)
          → a ≢ 0
          → call read_at wal_size (some (logging answer)) c db ≡ (a, w)
          → c.world ≡ w
      left_alone a w other e = unfold logging in ground arith

  round-Holds :
      (c : Core (List FrameRef)) → Inv c → Holds (round read_at wal_size (some (logging answer)) c)
  round-Holds c v =
      round_cases read_at wal_size (some (logging answer)) Holds c v v v λ frame f fits good.
        finish-Holds (push read_at wal_size (some (logging answer)) c f) f.database_size_pages
          (push-Inv c f (check_frame-page c.cursor.header c.sums frame f good) fits v)

  abbrev Ends : Outcome (List FrameRef) → Type 0
  Ends (stopped c k) = Inv c
  Ends (failed c) = Inv c
  Ends exhausted = Unit

  follow-Ends :
      (limit : ℕ) (c : Core (List FrameRef)) (k : Counts)
      (go : Core (List FrameRef) → Counts → Outcome (List FrameRef)) (r : Round (List FrameRef))
      → Holds r
      → ((c' : Core (List FrameRef)) (k' : Counts) → Inv c' → Ends (go c' k'))
      → Ends (follow read_at wal_size (some (logging answer)) limit c k go r)
  unfolding follow
  follow-Ends limit c k go (ended c') v h = v
  follow-Ends limit c k go (unread c') v h = v
  follow-Ends limit c k go (broken c') v h = v
  follow-Ends limit c k go (pending c') v h = h c' _ v
  follow-Ends limit c k go (refused c') v h = v
  follow-Ends limit c k go (committed c') v h =
      elim (Bool-cases (not (limit == 0) && leb limit ((k.commit_count + 1) % 2 ^ 32))) [
        | inl full ↦ rw full v
        | inr more ↦ rw more (h c' _ v)
      ]

  scan_loop-Ends :
      (fuel limit : ℕ) (c : Core (List FrameRef)) (k : Counts)
      → Inv c
      → Ends (scan_loop read_at wal_size (some (logging answer)) fuel limit c k)
  unfolding scan_loop
  scan_loop-Ends zero limit c k v = tt
  scan_loop-Ends (suc fuel) limit c k v =
      follow-Ends limit c k (scan_loop read_at wal_size (some (logging answer)) fuel limit)
        (round read_at wal_size (some (logging answer)) c) (round-Holds c v)
        (λ c' k' v'. scan_loop-Ends fuel limit c' k' v')

  start-Inv :
      (cursor : Cursor)
      → cursor.header ≡ header
      → cursor.frame_count ≡ first
      → Inv (start read_at wal_size (some (logging answer)) cursor [])
  start-Inv cursor same at =
      let width : cursor.header.page_size ≡ header.page_size = ap (λ h. h.page_size) same in
      record {
        same_header = same;
        placed = rw width refl;
        counted = omega arith;
        waiting = tt;
        delivered = tt;
        moved = omega arith;
      }

  concluded :
      (cursor : Cursor) (o : Outcome (List FrameRef))
      → cursor.header ≡ header
      → cursor.frame_count ≡ first
      → Ends o
      → let s = conclude read_at wal_size (some (logging answer)) cursor [] o in
        Consecutive size first s.world
        × (s.cursor.frame_count ≡ first + length s.world)
        × (s.cursor.header ≡ header)
  unfolding conclude
  concluded cursor (stopped c k) same at v = (v.delivered, v.moved, v.same_header)
  concluded cursor (failed c) same at v = (v.delivered, v.moved, v.same_header)
  concluded cursor exhausted same at v = (tt, omega arith, same)

  -- After a scan from a cursor at frame `first`, whatever the callback answered and however the
  -- scan ended, the frames that the callback took are the frames from `first` on, consecutive in
  -- the file and with page numbers, and the cursor has moved by exactly their number under an
  -- unchanged header.
  pub scan_reader-Consecutive :
      (cursor : Cursor) (limit : ℕ)
      → cursor.header ≡ header
      → cursor.frame_count ≡ first
      → let s = scan_reader read_at wal_size (some (logging answer)) cursor limit [] in
        Consecutive size first s.world
        × (s.cursor.frame_count ≡ first + length s.world)
        × (s.cursor.header ≡ header)
  scan_reader-Consecutive cursor limit same at =
      elim (Bool-cases (scannable read_at wal_size (some (logging answer)) cursor)) [
        | inl ready ↦
            unfold scan_reader in
            rw ready (
              concluded cursor
                (scan_loop read_at wal_size (some (logging answer)) (suc wal_size) limit
                  (start read_at wal_size (some (logging answer)) cursor []) no_counts)
                same at
                (scan_loop-Ends (suc wal_size) limit
                  (start read_at wal_size (some (logging answer)) cursor []) no_counts
                  (start-Inv cursor same at)))
        | inr unready ↦
            unfold scan_reader in
            rw unready (
              concluded cursor (failed (start read_at wal_size (some (logging answer)) cursor []))
                same at (start-Inv cursor same at))
      ]
