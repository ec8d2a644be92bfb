-- ===== src/Segment/Pages/Header.antt =====
-- src/storage/segment.c: the copy of the header of a batch keeps all fields but the count of frames.
use otsardb.Base.{
  ℕ, zero, suc, ◌+◌, ◌^◌, ◌≤◌, ◌<◌, ◌≡◌, refl, ap, sym, ◌∙◌, List, [], ◌∷◌, ◌++◌, length,
  length-append, length-take, length-drop, take, drop, drop-append, take-append, append_assoc,
  append-nil, arith,
}
use otsardb.Bytes.{byte_at, put_u32_le, get_u32_le, get_u64_le}
use otsardb.Bytes.RoundTrip.{get-put_u32_le, length-put_u32_le}
use otsardb.Segment.Pages.{patched_header}

byte_at-drop : (k i : ℕ) (p : List ℕ) → byte_at (drop k p) i ≡ byte_at p (k + i)
byte_at-drop zero i p = ap (byte_at p) (omega arith)
byte_at-drop (suc k) i [] = byte_at_nil i ∙ sym (byte_at_nil (suc k + i))
  where
    byte_at_nil : (j : ℕ) → byte_at [] j ≡ 0
    byte_at_nil j = refl
byte_at-drop (suc k) i (b ∷ p) =
    let next : suc k + i ≡ suc (k + i) = omega arith in
    byte_at-drop k i p ∙ sym (ap (byte_at (b ∷ p)) next)

byte_at-take :
    (j n : ℕ) (p rest : List ℕ) → j < n → n ≤ length p → byte_at (take n p ++ rest) j ≡ byte_at p j
byte_at-take j zero p rest h h' = absurd (omega arith)
byte_at-take j (suc n) [] rest h h' = absurd (omega arith)
byte_at-take zero (suc n) (b ∷ p) rest h h' = refl
byte_at-take (suc j) (suc n) (b ∷ p) rest h h' = byte_at-take j n p rest (omega arith) (omega arith)

take-take :
    (m n : ℕ) (p rest : List ℕ) → m ≤ n → n ≤ length p → take m (take n p ++ rest) ≡ take m p
take-take zero n p rest h h' = refl
take-take (suc m) zero p rest h h' = absurd (omega arith)
take-take (suc m) (suc n) [] rest h h' = absurd (omega arith)
take-take (suc m) (suc n) (b ∷ p) rest h h' =
    ap (λ t. b ∷ t) (take-take m n p rest (omega arith) (omega arith))

-- Words are read from their bytes.
u32_same :
    (p q : List ℕ)
    → byte_at p 0 ≡ byte_at q 0
    → byte_at p 1 ≡ byte_at q 1
    → byte_at p 2 ≡ byte_at q 2
    → byte_at p 3 ≡ byte_at q 3
    → get_u32_le p ≡ get_u32_le q
unfolding get_u32_le
u32_same p q a b c d = rw (a, b, c, d) refl

u64_same :
    (p q : List ℕ) → ((i : ℕ) → i < 8 → byte_at p i ≡ byte_at q i) → get_u64_le p ≡ get_u64_le q
unfolding get_u64_le
u64_same p q h =
    rw
      (
        h 0 (omega arith),
        h 1 (omega arith),
        h 2 (omega arith),
        h 3 (omega arith),
        h 4 (omega arith),
        h 5 (omega arith),
        h 6 (omega arith),
        h 7 (omega arith),
      )
      refl

pub get_u32_le-take :
    (k n : ℕ) (p : List ℕ)
    → k + 4 ≤ n
    → n ≤ length p
    → get_u32_le (drop k (take n p)) ≡ get_u32_le (drop k p)
get_u32_le-take k n p h h' =
    u32_same (drop k (take n p)) (drop k p) (same 0 (omega arith)) (same 1 (omega arith))
      (same 2 (omega arith)) (same 3 (omega arith))
  where
    same : (i : ℕ) → i < 4 → byte_at (drop k (take n p)) i ≡ byte_at (drop k p) i
    same i less =
        byte_at-drop k i (take n p)
        ∙ ap (λ l. byte_at l (k + i)) (sym (append-nil (take n p)))
        ∙ byte_at-take (k + i) n p [] (omega arith) h'
        ∙ sym (byte_at-drop k i p)

module _ (payload : List ℕ) (count : ℕ) (rest : List ℕ) (long : 32 ≤ length payload) where
  abbrev copy : List ℕ
  copy = patched_header payload count ++ rest

  copy_shape : copy ≡ take 24 payload ++ (put_u32_le count ++ (take 4 (drop 28 payload) ++ rest))
  copy_shape =
      append_assoc (take 24 payload) (put_u32_le count ++ take 4 (drop 28 payload)) rest
      ∙ ap (λ l. take 24 payload ++ l)
          (append_assoc (put_u32_le count) (take 4 (drop 28 payload)) rest)

  copy_byte : (k i : ℕ) → k + i < 24 → byte_at (drop k copy) i ≡ byte_at (drop k payload) i
  copy_byte k i h =
      byte_at-drop k i copy
      ∙ ap (λ l. byte_at l (k + i)) copy_shape
      ∙ byte_at-take (k + i) 24 payload (put_u32_le count ++ (take 4 (drop 28 payload) ++ rest)) h
          (omega arith)
      ∙ sym (byte_at-drop k i payload)

  pub copy_magic : take 8 copy ≡ take 8 payload
  copy_magic =
      ap (take 8) copy_shape
      ∙ take-take 8 24 payload (put_u32_le count ++ (take 4 (drop 28 payload) ++ rest))
          (omega arith) (omega arith)

  pub copy_u32 : (k : ℕ) → k + 4 ≤ 24 → get_u32_le (drop k copy) ≡ get_u32_le (drop k payload)
  copy_u32 k h =
      u32_same (drop k copy) (drop k payload) (copy_byte k 0 (omega arith))
        (copy_byte k 1 (omega arith)) (copy_byte k 2 (omega arith)) (copy_byte k 3 (omega arith))

  pub copy_u64 : (k : ℕ) → k + 8 ≤ 24 → get_u64_le (drop k copy) ≡ get_u64_le (drop k payload)
  copy_u64 k h = u64_same (drop k copy) (drop k payload) (λ i less. copy_byte k i (omega arith))

  pub copied_frames : count < 2 ^ 32 → get_u32_le (drop 24 copy) ≡ count
  copied_frames h =
      let size = length-take 24 payload in
      ap (λ l. get_u32_le (drop 24 l)) copy_shape
      ∙ ap get_u32_le (
          drop-append 24 (take 24 payload) (put_u32_le count ++ (take 4 (drop 28 payload) ++ rest))
            (omega arith))
      ∙ get-put_u32_le count (take 4 (drop 28 payload) ++ rest) h

  pub length-patched_header : length (patched_header payload count) ≡ 32
  length-patched_header =
      let size = length-take 24 payload in
      let size' = length-take 4 (drop 28 payload) in
      let left = length-drop 28 payload in
      let join = length-append (take 24 payload) (put_u32_le count ++ take 4 (drop 28 payload)) in
      let join' = length-append (put_u32_le count) (take 4 (drop 28 payload)) in
      let word = length-put_u32_le count in omega arith

  pub copy_header : take 32 copy ≡ patched_header payload count
  copy_header = take-append 32 (patched_header payload count) rest length-patched_header
