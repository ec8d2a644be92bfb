-- ===== src/AesGcm/Inverse.antt =====
-- Decryption accepts exactly what encryption writes: the keystream is its own inverse, and both
-- sides compute the tag over the same ciphertext.
use otsardb.Base.{
  ℕ, zero, suc, ◌+◌, ◌%◌, ◌^◌, ◌≤◌, ◌<◌, ◌≡◌, refl, ap, ap₂, sym, ◌∙◌, List, [], ◌∷◌, ◌++◌,
  append_assoc, append-nil, bit_xor, bit_xor-bit_xor, take, drop, length, length-append,
  length-take, length-drop, take-append, drop-append, take_all, take-append-drop, arith, Bool-cases,
  inl, inr, leb,
}
use otsardb.Bytes.{byte_at}
use otsardb.Bytes.RoundTrip.{byte_behind}
use otsardb.AesGcm.{counter_block, crypt}
use otsardb.AesGcm.Block.{xor_bytes, encrypt_block}

pub length-xor_bytes : (n i : ℕ) (s k : List ℕ) → length (xor_bytes n i s k) ≡ n
unfolding xor_bytes
length-xor_bytes zero i s k = refl
length-xor_bytes (suc n) i s k = ap suc (length-xor_bytes n (i + 1) s k)

-- Behind any two prefixes of one length the mask is taken off again.
xor_bytes_undo :
    (n i : ℕ) (pre pre' p k : List ℕ)
    → length pre ≡ i
    → length pre' ≡ i
    → length p ≡ n
    → xor_bytes n i (pre ++ xor_bytes n i (pre' ++ p) k) k ≡ p
unfolding xor_bytes
xor_bytes_undo zero i pre pre' [] k e e' l = refl
xor_bytes_undo zero i pre pre' (x ∷ p) k e e' l = absurd (omega arith)
xor_bytes_undo (suc n) i pre pre' [] k e e' l = absurd (omega arith)
xor_bytes_undo (suc n) i pre pre' (x ∷ p) k e e' l =
    let m = bit_xor (byte_at (pre' ++ x ∷ p) i) (byte_at k i) in
    let rest = xor_bytes n (i + 1) (pre' ++ x ∷ p) k in
    let here : bit_xor (byte_at (pre ++ m ∷ rest) i) (byte_at k i) ≡ x =
      ap (λ b. bit_xor b (byte_at k i)) (byte_behind i pre rest m e)
      ∙ ap (λ b. bit_xor (bit_xor b (byte_at k i)) (byte_at k i)) (byte_behind i pre' p x e')
      ∙ bit_xor-bit_xor x (byte_at k i) in
    let later : xor_bytes n (i + 1) (pre ++ m ∷ rest) k ≡ p =
      ap (λ a. xor_bytes n (i + 1) a k) (sym (append_assoc pre (m ∷ []) rest))
      ∙ ap (λ b. xor_bytes n (i + 1) ((pre ++ m ∷ []) ++ xor_bytes n (i + 1) b k) k)
          (sym (append_assoc pre' (x ∷ []) p))
      ∙ xor_bytes_undo n (i + 1) (pre ++ m ∷ []) (pre' ++ x ∷ []) p k
          (omega (arith, length-append pre (m ∷ []))) (omega (arith, length-append pre' (x ∷ [])))
          (omega arith) in
    ap₂ ◌∷◌ here later

mask_twice : (p k : List ℕ) → xor_bytes (length p) 0 (xor_bytes (length p) 0 p k) k ≡ p
mask_twice p k = xor_bytes_undo (length p) 0 [] [] p k refl refl refl

-- One block of the keystream loop, for any data that is not empty.
crypt_block :
    (fuel : ℕ) (rk iv : List ℕ) (counter : ℕ) (p : List ℕ)
    → 0 < length p
    → crypt (suc fuel) rk iv counter p
      ≡ xor_bytes (length (take 16 p)) 0 (take 16 p) (encrypt_block rk (counter_block iv counter))
        ++ crypt fuel rk iv ((counter + 1) % 2 ^ 32) (drop 16 p)
unfolding crypt
crypt_block fuel rk iv counter [] h = absurd (omega arith)
crypt_block fuel rk iv counter (x ∷ p) h = refl

crypt_nil : (fuel : ℕ) (rk iv : List ℕ) (counter : ℕ) → crypt fuel rk iv counter [] ≡ []
unfolding crypt
crypt_nil zero rk iv counter = refl
crypt_nil (suc fuel) rk iv counter = refl

length_zero : (p : List ℕ) → length p ≡ 0 → p ≡ []
length_zero [] h = refl
length_zero (x ∷ p) h = absurd (omega arith)

pub length-crypt :
    (fuel : ℕ) (rk iv : List ℕ) (counter : ℕ) (p : List ℕ)
    → length p ≤ fuel
    → length (crypt fuel rk iv counter p) ≡ length p
length-crypt zero rk iv counter p h =
    ap (λ q. length (crypt zero rk iv counter q)) (length_zero p (omega arith))
    ∙ ap (λ x. length x) (crypt_nil zero rk iv counter ∙ sym (length_zero p (omega arith)))
length-crypt (suc fuel) rk iv counter [] h = ap (λ x. length x) (crypt_nil (suc fuel) rk iv counter)
length-crypt (suc fuel) rk iv counter (x ∷ p) h =
    let ks = encrypt_block rk (counter_block iv counter) in
    let part = take 16 (x ∷ p) in
    let next = (counter + 1) % 2 ^ 32 in
    let rest = drop 16 (x ∷ p) in
    ap (λ y. length y) (crypt_block fuel rk iv counter (x ∷ p) (omega arith))
    ∙ omega (
      arith,
      length-append (xor_bytes (length part) 0 part ks) (crypt fuel rk iv next rest),
      length-xor_bytes (length part) 0 part ks,
      length-crypt fuel rk iv next rest (omega (arith, length-drop 16 (x ∷ p))),
      length-take 16 (x ∷ p),
      length-drop 16 (x ∷ p),
    )

-- Encrypted data splits where the plain data does.
crypt_splits :
    (fuel : ℕ) (rk iv : List ℕ) (counter : ℕ) (p m : List ℕ)
    → length m ≡ length (take 16 p)
    → let c = m ++ crypt fuel rk iv counter (drop 16 p) in
      (take 16 c ≡ m) × (drop 16 c ≡ crypt fuel rk iv counter (drop 16 p))
crypt_splits fuel rk iv counter p m h = elim (Bool-cases (leb 16 (length p))) [
  | inl full ↦
      let size : length m ≡ 16 = ground (arith, length-take 16 p) in
      (
        take-append 16 m (crypt fuel rk iv counter (drop 16 p)) size,
        drop-append 16 m (crypt fuel rk iv counter (drop 16 p)) size,
      )
  | inr last ↦
      let none_left : drop 16 p ≡ [] = length_zero (drop 16 p) (ground (arith, length-drop 16 p)) in
      let done : crypt fuel rk iv counter (drop 16 p) ≡ [] =
        ap (crypt fuel rk iv counter) none_left ∙ crypt_nil fuel rk iv counter in
      let short : length m ≤ 16 = omega (arith, length-take 16 p) in
      (
        ap (λ r. take 16 (m ++ r)) done ∙ ap (take 16) (append-nil m) ∙ take_all 16 m short,
        ap (λ r. drop 16 (m ++ r)) done
            ∙ ap (drop 16) (append-nil m)
            ∙ length_zero (drop 16 m) (omega (arith, length-drop 16 m))
            ∙ sym done,
      )
]

pub crypt-crypt :
    (fuel : ℕ) (rk iv : List ℕ) (counter : ℕ) (p : List ℕ)
    → length p ≤ fuel
    → crypt fuel rk iv counter (crypt fuel rk iv counter p) ≡ p
crypt-crypt zero rk iv counter p h = unfold crypt in sym (length_zero p (omega arith))
crypt-crypt (suc fuel) rk iv counter [] h =
    ap (crypt (suc fuel) rk iv counter) (crypt_nil (suc fuel) rk iv counter)
    ∙ crypt_nil (suc fuel) rk iv counter
crypt-crypt (suc fuel) rk iv counter (x ∷ p) h =
    let ks = encrypt_block rk (counter_block iv counter) in
    let part = take 16 (x ∷ p) in
    let next = (counter + 1) % 2 ^ 32 in
    let rest = drop 16 (x ∷ p) in
    let m = xor_bytes (length part) 0 part ks in
    let c = m ++ crypt fuel rk iv next rest in
    let same : length m ≡ length part = length-xor_bytes (length part) 0 part ks in
    let split = crypt_splits fuel rk iv next (x ∷ p) m same in
    let nonempty : 0 < length c =
      omega (arith, length-append m (crypt fuel rk iv next rest), same, length-take 16 (x ∷ p)) in
    ap (crypt (suc fuel) rk iv counter) (crypt_block fuel rk iv counter (x ∷ p) (omega arith))
    ∙ crypt_block fuel rk iv counter c nonempty
    ∙ ap₂ (λ t d. xor_bytes (length t) 0 t ks ++ crypt fuel rk iv next d) split.0 split.1
    ∙ ap₂ ◌++◌ (ap (λ n. xor_bytes n 0 m ks) same ∙ mask_twice part ks)
        (crypt-crypt fuel rk iv next rest (omega (arith, length-drop 16 (x ∷ p))))
    ∙ take-append-drop 16 (x ∷ p)
