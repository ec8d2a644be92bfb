-- ===== src/Sha256/Stream.antt =====
-- src/crypto/sha256_pure.c: feeding a context piece by piece is feeding it all at once.
use otsardb.Base.{
  ℕ, zero, suc, ◌+◌, ◌-◌, ◌*◌, ◌%◌, ◌^◌, ◌≤◌, ◌<◌, ◌≡◌, refl, ap, ap₂, sym, subst, ◌∙◌, List, [],
  ◌∷◌, ◌++◌, append_assoc, length, length-append, length-take, length-drop, take, drop,
  take-append-drop, arith, ◌==◌, Bool-cases, inl, inr,
}
use native.Mathlib.Nat.{mod-add-mod}
use otsardb.Sha256.{Ctx, flush, update_loop, update}

-- One byte at a time.
unfoldable pub feed : Ctx → List ℕ → Ctx
feed c [] = c
feed c (b ∷ bytes) = feed (flush (record c { block = c.block ++ b ∷ [] })) bytes

pub feed-append : (c : Ctx) (xs ys : List ℕ) → feed c (xs ++ ys) ≡ feed (feed c xs) ys
unfolding feed
feed-append c [] ys = refl
feed-append c (x ∷ xs) ys = feed-append (flush (record c { block = c.block ++ x ∷ [] })) xs ys

flush_open : (c : Ctx) → length c.block < 64 → flush c ≡ c
unfolding flush
flush_open c h = ground arith

-- A part that does not pass the end of the block goes in at once.
feed_part :
    (c : Ctx) (x : ℕ) (xs : List ℕ)
    → length c.block + suc (length xs) ≤ 64
    → feed c (x ∷ xs) ≡ flush (record c { block = c.block ++ x ∷ xs })
unfolding feed
feed_part c x [] h = refl
feed_part c x (y ∷ xs) h =
    let c' = record c { block = c.block ++ x ∷ [] } in
    let size = length-append c.block (x ∷ []) in
    ap (λ d. feed d (y ∷ xs)) (flush_open c' (omega arith))
    ∙ feed_part c' y xs (omega arith)
    ∙ ap (λ block. flush (record c { block = block })) (append_assoc c.block (x ∷ []) (y ∷ xs))

pub feed_chunk :
    (c : Ctx) (xs : List ℕ)
    → length c.block < 64
    → 1 ≤ length xs
    → length c.block + length xs ≤ 64
    → feed c xs ≡ flush (record c { block = c.block ++ xs })
feed_chunk c [] h k l = absurd (omega arith)
feed_chunk c (x ∷ xs) h k l = feed_part c x xs l

-- After a flush the block is not full.
flush_lt : (c : Ctx) → length c.block ≤ 64 → length (flush c).block < 64
unfolding flush
flush_lt c h = ground arith

pub feed_lt : (c : Ctx) (xs : List ℕ) → length c.block < 64 → length (feed c xs).block < 64
unfolding feed
feed_lt c [] h = h
feed_lt c (x ∷ xs) h =
    let size = length-append c.block (x ∷ []) in
    feed_lt (flush (record c { block = c.block ++ x ∷ [] })) xs (flush_lt _ (omega arith))

-- The loop over parts is the fold over bytes.
update_loop-feed :
    (fuel : ℕ) (c : Ctx) (bytes : List ℕ)
    → length c.block < 64
    → length bytes ≤ fuel
    → update_loop fuel c bytes ≡ feed c bytes
unfolding update_loop feed
update_loop-feed zero c [] h k = refl
update_loop-feed zero c (b ∷ bytes) h k = absurd (omega arith)
update_loop-feed (suc fuel) c [] h k = refl
update_loop-feed (suc fuel) c (b ∷ bytes) h k =
    let room = 64 - length c.block in
    let chunk = take room (b ∷ bytes) in
    let rest = drop room (b ∷ bytes) in
    let size = length-take room (b ∷ bytes) in
    let size' = length-drop room (b ∷ bytes) in
    let c' = flush (record c { block = c.block ++ chunk }) in
    let joined = length-append c.block chunk in
    update_loop-feed fuel c' rest (flush_lt (record c { block = c.block ++ chunk }) (omega arith))
      (omega arith)
    ∙ ap (λ d. feed d rest) (sym (feed_chunk c chunk h (omega arith) (omega arith)))
    ∙ sym (feed-append c chunk rest)
    ∙ ap (feed c) (take-append-drop room (b ∷ bytes))

-- The number of bits does not matter to the fold.
unfoldable pub counted : ℕ → Ctx → Ctx
counted bits c = record c { total_bits = bits }

flush-counted : (bits : ℕ) (c : Ctx) → flush (counted bits c) ≡ counted bits (flush c)
unfolding flush counted
flush-counted bits c = elim (Bool-cases (length c.block == 64)) [ inl t ↦ rw t | inr f ↦ rw f ]

pub feed-counted :
    (bits : ℕ) (c : Ctx) (xs : List ℕ) → feed (counted bits c) xs ≡ counted bits (feed c xs)
unfolding feed counted
feed-counted bits c [] = refl
feed-counted bits c (x ∷ xs) =
    ap (λ d. feed d xs) (flush-counted bits (record c { block = c.block ++ x ∷ [] }))
    ∙ feed-counted bits (flush (record c { block = c.block ++ x ∷ [] })) xs

pub update-feed :
    (c : Ctx) (xs : List ℕ)
    → length c.block < 64
    → update c xs ≡ counted ((c.total_bits + length xs * 8) % 2 ^ 64) (feed c xs)
unfolding update counted
update-feed c xs h =
    update_loop-feed (length xs) _ xs h (omega arith)
    ∙ feed-counted ((c.total_bits + length xs * 8) % 2 ^ 64) c xs

-- From a context whose block is not full, as `init` and every update leave it, two updates in a
-- row are one update with the two parts joined, and leave the block not full again.
pub update-append :
    (c : Ctx) (xs ys : List ℕ)
    → length c.block < 64
    → (update (update c xs) ys ≡ update c (xs ++ ys)) × (length (update c xs).block < 64)
unfolding counted
update-append c xs ys h =
    let bits = (c.total_bits + length xs * 8) % 2 ^ 64 in
    let open_after = feed_lt c xs h in
    let first = update-feed c xs h in
    let second = update-feed (counted bits (feed c xs)) ys open_after in
    let sizes = length-append xs ys in
    let total =
      mod-add-mod (c.total_bits + length xs * 8) (2 ^ 64) (length ys * 8)
      ∙ ap (λ n. n % 2 ^ 64) (omega (arith, sizes)) in
    (
      ap (λ d. update d ys) first
          ∙ second
          ∙ ap (counted _) (feed-counted bits (feed c xs) ys)
          ∙ ap₂ counted total (sym (feed-append c xs ys))
          ∙ sym (update-feed c (xs ++ ys) h),
      subst (λ d. length d.block < 64) (sym first) open_after,
    )
