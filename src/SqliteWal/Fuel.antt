-- ===== src/SqliteWal/Fuel.antt =====
-- The cases of a round, and the end of the scan: every round that goes on has moved the offset by
-- a whole frame.
use otsardb.Base.{
  ℕ, zero, suc, ◌+◌, ◌-◌, ◌≤◌, ◌<◌, ◌≡◌, ◌≢◌, refl, Option, some, arith, List, ltb, ◌==◌, ◌||◌,
  Bool-cases, inl, inr, if◌then◌else◌, Option-cases, Bool, true, false,
}
use otsardb.SqliteWal.{
  ReadAt, Callback, Core, Counts, Round, ended, unread, broken, pending, refused, committed,
  Outcome, stopped, exhausted, frame_size, round, scan_loop, follow, finish_frame, push, commit,
  check_frame, call, FrameFacts,
}

if-ne {ℓ} : {A : Type ℓ} (b : Bool) (x y e : A) → x ≢ e → y ≢ e → (if b then x else y) ≢ e
if-ne true x y e hx hy = hx
if-ne false x y e hx hy = hy

module _ {W : Type 0} (read_at : ReadAt) (wal_size : ℕ) (callback : Option (Callback W)) where
  -- To prove something of a round: the three ways to end, and a valid frame that lies inside the
  -- file.
  pub round_cases :
      (P : Round W → Type 0) (c : Core W)
      → P (ended c)
      → P (unread c)
      → P (broken c)
      → ((frame : List ℕ) (f : FrameFacts)
          → c.offset + frame_size read_at wal_size callback c ≤ wal_size
          → check_frame c.cursor.header c.sums frame ≡ some f
          → P (
              finish_frame read_at wal_size callback
                (push read_at wal_size callback c f)
                f.database_size_pages))
      → P (round read_at wal_size callback c)
  unfolding round
  round_cases P c pe pu pb go =
      let size = frame_size read_at wal_size callback c in
      elim (Bool-cases (ltb wal_size c.offset || ltb (wal_size - c.offset) size)) [
        | inl over ↦ rw over pe
        | inr room ↦ elim (Option-cases (read_at c.offset size)) [
          | inl e ↦ rw (room, e) pu
          | inr (frame, e) ↦ elim (Option-cases (check_frame c.cursor.header c.sums frame)) [
            | inl bad ↦ rw (room, e, bad) pb
            | inr (f, good) ↦ rw (room, e, good) (go frame f (ground arith) good)
          ]
        ]
      ]

  -- The three ways to finish a valid frame.
  pub finish_cases :
      (P : Round W → Type 0) (c : Core W) (db : ℕ)
      → P (pending c)
      → ((w : W)
          → call read_at wal_size callback c db ≡ (0, w)
          → P (committed (commit read_at wal_size callback c w)))
      → ((a : ℕ) (w : W)
          → a ≢ 0
          → call read_at wal_size callback c db ≡ (a, w)
          → P (refused (record c { world = w })))
      → P (finish_frame read_at wal_size callback c db)
  unfolding finish_frame
  finish_cases P c db pp pc pr = elim (Bool-cases (db == 0)) [
    | inl inside ↦ rw inside pp
    | inr last ↦ rw last (answered (call read_at wal_size callback c db) refl)
  ]
    where
      answered :
          (r : ℕ × W)
          → call read_at wal_size callback c db ≡ r
          → P (
              if r.0 == 0
              then committed (commit read_at wal_size callback c r.1)
              else refused (record c { world = r.1 }))
      answered (zero, w) e = pc w e
      answered (suc a, w) e =
          let other : (suc a == 0) ≡ false = ground arith in rw other (pr (suc a) w (omega arith) e)

  -- A round that goes on leaves its offset one frame further, and inside the file.
  abbrev Advances : Core W → Round W → Type 0
  Advances c (pending c') = (c.offset + 24 ≤ c'.offset) × (c'.offset ≤ wal_size)
  Advances c (committed c') = (c.offset + 24 ≤ c'.offset) × (c'.offset ≤ wal_size)
  Advances c _ = Unit

  round-Advances : (c : Core W) → Advances c (round read_at wal_size callback c)
  unfolding push commit
  round-Advances c = round_cases (Advances c) c tt tt tt λ frame f fits good.
      finish_cases (Advances c) (push read_at wal_size callback c f) f.database_size_pages
        (omega arith) (λ w e. omega arith) (λ a w n e. tt)

  follow-ne-exhausted :
      (limit : ℕ) (c : Core W) (k : Counts) (go : Core W → Counts → Outcome W) (r : Round W)
      → Advances c r
      → ((c' : Core W) (k' : Counts)
          → c.offset + 24 ≤ c'.offset
          → c'.offset ≤ wal_size
          → go c' k' ≢ exhausted)
      → follow read_at wal_size callback limit c k go r ≢ exhausted
  unfolding follow
  follow-ne-exhausted limit c k go (ended c') a h = λ e. cc
  follow-ne-exhausted limit c k go (unread c') a h = λ e. cc
  follow-ne-exhausted limit c k go (broken c') a h = λ e. cc
  follow-ne-exhausted limit c k go (pending c') a h = h c' _ a.0 a.1
  follow-ne-exhausted limit c k go (refused c') a h = λ e. cc
  follow-ne-exhausted limit c k go (committed c') a h =
      if-ne _ (stopped c' _) (go c' _) exhausted (λ e. cc) (h c' _ a.0 a.1)

  -- Fuel above what is left of the file is never used up.
  pub scan_loop-ne-exhausted :
      (fuel limit : ℕ) (c : Core W) (k : Counts)
      → suc wal_size - c.offset ≤ fuel
      → 0 < fuel
      → scan_loop read_at wal_size callback fuel limit c k ≢ exhausted
  unfolding scan_loop
  scan_loop-ne-exhausted zero limit c k h h' = absurd (omega arith)
  scan_loop-ne-exhausted (suc fuel) limit c k h h' =
      follow-ne-exhausted limit c k (scan_loop read_at wal_size callback fuel limit)
        (round read_at wal_size callback c) (round-Advances c)
        (λ c' k' far near. scan_loop-ne-exhausted fuel limit c' k' (omega arith) (omega arith))
