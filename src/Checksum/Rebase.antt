-- ===== src/Checksum/Rebase.antt =====
-- The checksum can be brought up to date page by page, in any order.
use otsardb.Base.{
  ℕ, zero, suc, ◌+◌, ◌-◌, ◌*◌, ◌≤◌, ◌<◌, ◌≡◌, ◌≢◌, inl, inr, refl, ap, ◌∙◌, sym, Option, none, some,
  List, ◌++◌, bit_xor_swap, bit_xor-bit_xor, drop, take, length, Bool-cases, ltb, arith,
  drop-append, take-append, take_within, take_all, drop_beyond, length-append, append_assoc,
}
use otsardb.Checksum.{accumulate, compute, compute_loop}

-- Two updates may be made in either order.
pub accumulate_swap :
    (c i j : ℕ) (p q : Option (List ℕ)) (n : ℕ)
    → accumulate (accumulate c i p n) j q n ≡ accumulate (accumulate c j q n) i p n
unfolding accumulate
accumulate_swap c i j none none n = refl
accumulate_swap c i j none (some q) n = refl
accumulate_swap c i j (some p) none n = refl
accumulate_swap c i j (some p) (some q) n = elim (Bool-cases (ltb 65536 n)) [
  | inl large ↦ rw large
  | inr small ↦ rw small (bit_xor_swap c _ _)
]

-- An update is its own inverse.
pub accumulate_twice :
    (c i : ℕ) (p : Option (List ℕ)) (n : ℕ) → accumulate (accumulate c i p n) i p n ≡ c
unfolding accumulate
accumulate_twice c i none n = refl
accumulate_twice c i (some p) n = elim (Bool-cases (ltb 65536 n)) [
  | inl large ↦ rw large
  | inr small ↦ rw small (bit_xor-bit_xor c _)
]

-- The loop carries an update along.
pub compute_loop-accumulate :
    (n rounds : ℕ) (p : List ℕ) (i c j : ℕ) (q : Option (List ℕ))
    → compute_loop n rounds p i (accumulate c j q n)
      ≡ accumulate (compute_loop n rounds p i c) j q n
unfolding compute_loop
compute_loop-accumulate n zero p i c j q = refl
compute_loop-accumulate n (suc rounds) p i c j q =
    ap (compute_loop n rounds p (i + 1)) (accumulate_swap c j (i + 1) q (some (drop (i * n) p)) n)
    ∙ compute_loop-accumulate n rounds p (i + 1) (accumulate c (i + 1) (some (drop (i * n) p)) n) j
        q

-- Only the bytes of the page count.
pub accumulate-take :
    (c i : ℕ) (p q : List ℕ) (n : ℕ)
    → take n p ≡ take n q
    → accumulate c i (some p) n ≡ accumulate c i (some q) n
unfolding accumulate
accumulate-take c i p q n e = rw e refl

-- Two images `a` and `b` that agree on every page but page `k`.
module _ (n k : ℕ) (a b : List ℕ)
    (pages : (j : ℕ) → j ≢ k → take n (drop (j * n) a) ≡ take n (drop (j * n) b)) where
  loop_behind : (rounds i c : ℕ) → k < i → compute_loop n rounds b i c ≡ compute_loop n rounds a i c
  unfolding compute_loop
  loop_behind zero i c h = refl
  loop_behind (suc rounds) i c h =
      loop_behind rounds (i + 1) _ (omega arith)
      ∙ ap (compute_loop n rounds a (i + 1)) (
          sym
            (accumulate-take c (i + 1) (drop (i * n) a) (drop (i * n) b) n (pages i (omega arith))))

  loop_at :
      (rounds c : ℕ)
      → compute_loop n (suc rounds) b k c
        ≡ accumulate
            (accumulate (compute_loop n (suc rounds) a k c) (k + 1) (some (drop (k * n) a)) n)
            (k + 1)
            (some (drop (k * n) b))
            n
  unfolding compute_loop
  loop_at rounds c =
      let old = some (drop (k * n) a) in
      let new = some (drop (k * n) b) in
      loop_behind rounds (k + 1) (accumulate c (k + 1) new n) (omega arith)
      ∙ compute_loop-accumulate n rounds a (k + 1) c (k + 1) new
      ∙ ap (λ t. accumulate t (k + 1) new n)
          (sym (
            ap (λ t. accumulate t (k + 1) old n)
              (compute_loop-accumulate n rounds a (k + 1) c (k + 1) old)
            ∙ accumulate_twice (compute_loop n rounds a (k + 1) c) (k + 1) old n))

  loop_rebase :
      (rounds i c : ℕ)
      → i ≤ k
      → k < i + rounds
      → compute_loop n rounds b i c
        ≡ accumulate
            (accumulate (compute_loop n rounds a i c) (k + 1) (some (drop (k * n) a)) n)
            (k + 1)
            (some (drop (k * n) b))
            n
  unfolding compute_loop
  loop_rebase zero i c h h' = absurd (omega arith)
  loop_rebase (suc rounds) i c h h' = elim (Bool-cases (ltb i k)) [
    | inl before ↦
        ap (compute_loop n rounds b (i + 1)) (
          sym (
            accumulate-take c (i + 1) (drop (i * n) a) (drop (i * n) b) n (pages i (ground arith))))
        ∙ loop_rebase rounds (i + 1) (accumulate c (i + 1) (some (drop (i * n) a)) n) (ground arith)
            (omega arith)
    | inr reached ↦ let e : i ≡ k = ground arith in rw e (loop_at rounds c)
  ]

-- Behind page `k`, whatever it holds, stands the rest of the image.
behind_page :
    (n k j : ℕ) (pre page post : List ℕ)
    → length pre ≡ k * n
    → length page ≡ n
    → k * n + n ≤ j * n
    → drop (j * n) (pre ++ (page ++ post)) ≡ drop (j * n - (k * n + n)) post
behind_page n k j pre page post starts size past =
    let total : length (pre ++ page) ≡ k * n + n = omega (arith, length-append pre page) in
    ap (drop (j * n)) (sym (append_assoc pre page post))
    ∙ drop_beyond (j * n) (pre ++ page) post (omega arith)
    ∙ ap (λ t. drop (j * n - t) post) total

-- Replacing page `k` of an image leaves every other page as it is.
module _ (n k : ℕ) (pre old new post : List ℕ) (starts : length pre ≡ k * n)
    (old_size : length old ≡ n) (new_size : length new ≡ n) where
  other_pages :
      (j : ℕ)
      → j ≢ k
      → take n (drop (j * n) (pre ++ (old ++ post))) ≡ take n (drop (j * n) (pre ++ (new ++ post)))
  other_pages j h = elim (Bool-cases (ltb j k)) [
    | inl before ↦
        let below : j < k = ground arith in
        let fits : j * n + n ≤ length pre = grind arith in
        take_within (j * n) n pre (old ++ post) fits
        ∙ sym (take_within (j * n) n pre (new ++ post) fits)
    | inr behind ↦
        let above : k < j = ground arith in
        let past : k * n + n ≤ j * n = grind arith in
        ap (take n) (
          behind_page n k j pre old post starts old_size past
          ∙ sym (behind_page n k j pre new post starts new_size past))
  ]

  page_at :
      (page : List ℕ)
      → length page ≡ n
      → take n (drop (k * n) (pre ++ (page ++ post))) ≡ take n page
  page_at page size =
      ap (take n) (drop-append (k * n) pre (page ++ post) starts)
      ∙ take-append n page post size
      ∙ sym (take_all n page (omega arith))

  -- The checksum of an image in which page `k` (numbered `k + 1`) was replaced is the old
  -- checksum, updated by the old page and by the new one.
  pub compute-replace :
      (count : ℕ)
      → k < count
      → compute (some (pre ++ (new ++ post))) n count
        ≡ accumulate
            (accumulate (compute (some (pre ++ (old ++ post))) n count) (k + 1) (some old) n)
            (k + 1)
            (some new)
            n
  unfolding compute
  compute-replace count h =
      let a = pre ++ (old ++ post) in
      let b = pre ++ (new ++ post) in
      let base = compute_loop n count a 0 0 in
      loop_rebase n k a b other_pages count 0 0 (omega arith) (omega arith)
      ∙ ap (λ t. accumulate t (k + 1) (some (drop (k * n) b)) n)
          (accumulate-take base (k + 1) (drop (k * n) a) old n (page_at old old_size))
      ∙ accumulate-take (accumulate base (k + 1) (some old) n) (k + 1) (drop (k * n) b) new n
          (page_at new new_size)
