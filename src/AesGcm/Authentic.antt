-- ===== src/AesGcm/Authentic.antt =====
-- Decryption succeeds exactly on what encryption writes.
use otsardb.Base.{
  ℕ, zero, suc, ◌+◌, ◌≤◌, ◌<◌, ◌≡◌, ◌↔◌, refl, ap, ap₂, sym, ◌∙◌, true, Option, none, some, List,
  [], ◌∷◌, length, take_all, replicate, arith, ◌==◌, ==_refl, Bool-cases, inl, inr, ◌>>=◌, guard,
}
use otsardb.Bytes.{byte_at}
use otsardb.AesGcm.{counter_block, crypt, encrypt, decrypt, tag_of, tag_ok}
use otsardb.AesGcm.Block.{encrypt_block, expand_key}
use otsardb.AesGcm.Ghash.{ghash}
use otsardb.AesGcm.Inverse.{length-xor_bytes, length-crypt, crypt-crypt}

tag_ok_refl : (n i : ℕ) (t : List ℕ) → tag_ok n i t t ≡ true
unfolding tag_ok
tag_ok_refl zero i t = refl
tag_ok_refl (suc n) i t = rw (==_refl (byte_at t i)) (tag_ok_refl n (i + 1) t)

tag_ok-byte :
    (n i j : ℕ) (x y : List ℕ)
    → tag_ok n i x y ≡ true
    → i ≤ j
    → j < i + n
    → byte_at x j ≡ byte_at y j
tag_ok-byte zero i j x y h lo hi = absurd (omega arith)
tag_ok-byte (suc n) i j x y h lo hi = elim (Bool-cases (i == j)) [
  | inl here ↦ let e : i ≡ j = ground arith in rw (← e) (unfold tag_ok in ground arith)
  | inr later ↦
      let rest : tag_ok n (i + 1) x y ≡ true = unfold tag_ok in ground arith in
      tag_ok-byte n (i + 1) j x y rest (ground arith) (omega arith)
]

list_ext :
    (x y : List ℕ)
    → length x ≡ length y
    → ((j : ℕ) → j < length x → byte_at x j ≡ byte_at y j)
    → x ≡ y
list_ext [] [] l h = refl
list_ext [] (b ∷ y) l h = absurd (omega arith)
list_ext (a ∷ x) [] l h = absurd (omega arith)
list_ext (a ∷ x) (b ∷ y) l h =
    ap₂ ◌∷◌ (h 0 (omega arith)) (list_ext x y (omega arith) (λ j lt. h (suc j) (omega arith)))

length-tag_of : (rk iv aad ct : List ℕ) → length (tag_of rk iv aad ct) ≡ 16
unfolding tag_of
length-tag_of rk iv aad ct =
    length-xor_bytes 16 0 (ghash (encrypt_block rk (replicate 16 0)) aad ct)
      (encrypt_block rk (counter_block iv 1))

tag_ok_eq :
    (rk iv aad ct tag : List ℕ)
    → length tag ≡ 16
    → tag_ok 16 0 (tag_of rk iv aad ct) tag ≡ true
    → tag_of rk iv aad ct ≡ tag
tag_ok_eq rk iv aad ct tag l h =
    list_ext (tag_of rk iv aad ct) tag (length-tag_of rk iv aad ct ∙ sym l) λ j lt.
      tag_ok-byte 16 0 j (tag_of rk iv aad ct) tag h (omega arith)
        (omega (arith, length-tag_of rk iv aad ct))

none-ne-some {ℓ} : {A : Type ℓ} {a : A} → none ≡ some a → ⊥
none-ne-some h = cc

some_inj {ℓ} : {A : Type ℓ} {a b : A} → some a ≡ some b → a ≡ b
some_inj h = cc

some_pair {ℓ} :
    {A : Type ℓ} (a b c d : A)
    → ◌≡◌ {A = Option (A × A)} (some (a, b)) (some (c, d))
    → (a ≡ c) × (b ≡ d)
some_pair {A} a b c d h = (ap fst (some_inj h), ap snd (some_inj h))
  where
    fst : A × A → A
    fst x = x.0

    snd : A × A → A
    snd x = x.1

module _ (key iv aad : List ℕ) where
  abbrev stream : List ℕ → List ℕ
  stream p = crypt (length p) (expand_key key) iv 2 p

  stream-stream : (p : List ℕ) → stream (stream p) ≡ p
  stream-stream p =
      let size : length (stream p) ≡ length p =
        length-crypt (length p) (expand_key key) iv 2 p (omega arith) in
      ap (λ n. crypt n (expand_key key) iv 2 (stream p)) size
      ∙ crypt-crypt (length p) (expand_key key) iv 2 p (omega arith)

  encrypt_runs :
      (p : List ℕ)
      → encrypt (some key) (some iv) aad (some p) (length p) true
        ≡ some (stream p, tag_of (expand_key key) iv aad (stream p))
  unfolding encrypt
  encrypt_runs p =
      ap (λ q. some (stream q, tag_of (expand_key key) iv aad (stream q)))
        (take_all (length p) p (omega arith))

  decrypt_runs :
      (c tag : List ℕ)
      → decrypt (some key) (some iv) aad (some c) (length c) (some tag) true
        ≡ (guard (tag_ok 16 0 (tag_of (expand_key key) iv aad c) tag) >>= λ _. some (stream c))
  unfolding decrypt
  decrypt_runs c tag =
      ap (λ q. guard (tag_ok 16 0 (tag_of (expand_key key) iv aad q) tag) >>= λ _. some (stream q))
        (take_all (length c) c (omega arith))

  opened :
      (p c tag : List ℕ)
      → length tag ≡ 16
      → (guard (tag_ok 16 0 (tag_of (expand_key key) iv aad c) tag) >>= λ _. some (stream c))
        ≡ some p
      → encrypt (some key) (some iv) aad (some p) (length p) true ≡ some (c, tag)
  opened p c tag l h = elim (Bool-cases (tag_ok 16 0 (tag_of (expand_key key) iv aad c) tag)) [
    | inl fine ↦
        let plain : stream c ≡ p = some_inj (rw fine at h) in
        let back : stream p ≡ c = ap stream (sym plain) ∙ stream-stream c in
        encrypt_runs p
        ∙ ap (λ q. some (q, tag_of (expand_key key) iv aad q)) back
        ∙ ap (λ t. some (c, t)) (tag_ok_eq (expand_key key) iv aad c tag l fine)
    | inr bad ↦ absurd (none-ne-some (rw bad at h))
  ]

  sealed :
      (p c tag : List ℕ)
      → ◌≡◌ {A = Option (List ℕ × List ℕ)}
          (some (stream p, tag_of (expand_key key) iv aad (stream p)))
          (some (c, tag))
      → (guard (tag_ok 16 0 (tag_of (expand_key key) iv aad c) tag) >>= λ _. some (stream c))
        ≡ some p
  sealed p c tag h =
      let pair = some_pair (stream p) (tag_of (expand_key key) iv aad (stream p)) c tag h in
      let ciphered : stream p ≡ c = pair.0 in
      let tagged : tag_of (expand_key key) iv aad c ≡ tag =
        ap (tag_of (expand_key key) iv aad) (sym ciphered) ∙ pair.1 in
      let fine : tag_ok 16 0 (tag_of (expand_key key) iv aad c) tag ≡ true =
        ap (tag_ok 16 0 (tag_of (expand_key key) iv aad c)) (sym tagged)
        ∙ tag_ok_refl 16 0 (tag_of (expand_key key) iv aad c) in
      ap (λ b. guard b >>= λ _. some (stream c)) fine
      ∙ ap (λ q. some (stream q)) (sym ciphered)
      ∙ ap some (stream-stream p)

  -- For a tag of sixteen bytes, decrypting a ciphertext gives the plaintext exactly when
  -- encrypting the plaintext gives that ciphertext and that tag: what was encrypted is read back,
  -- and every other ciphertext or tag is refused or is another message's.
  pub decrypt-encrypt_iff :
      (p c tag : List ℕ)
      → length tag ≡ 16
      → (decrypt (some key) (some iv) aad (some c) (length c) (some tag) true ≡ some p)
        ↔ (encrypt (some key) (some iv) aad (some p) (length p) true ≡ some (c, tag))
  decrypt-encrypt_iff p c tag l = (
    λ h. opened p c tag l (sym (decrypt_runs c tag) ∙ h),
    λ h. decrypt_runs c tag ∙ sealed p c tag (sym (encrypt_runs p) ∙ h),
  )
