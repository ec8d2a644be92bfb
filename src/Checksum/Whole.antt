-- ===== src/Checksum/Whole.antt =====
-- The checksum of a database file is the checksum of its image, and both fit 64 bits.
use native.Mathlib.Nat.{mod-eq_of_lt, zero-add}
use otsardb.Base.{
  ℕ, zero, suc, ◌+◌, ◌-◌, ◌*◌, ◌%◌, ◌^◌, ◌≤◌, ◌<◌, ◌≡◌, refl, ap, ap₂, ◌∙◌, some, List, [], ◌∷◌,
  ◌++◌, append-nil, bit_xor, bit_xor-lt, Bool-cases, ltb, inl, inr, ◌>>>◌, take, drop, length,
  length-take, length-drop, All-append, drop-drop, arith,
}
use otsardb.Bytes.{IsBytes, put_u64_be}
use otsardb.Bytes.RoundTrip.{low_byte-lt}
use otsardb.Checksum.Hex.{parse-hex}
use otsardb.Checksum.{
  accumulate, compute, compute_loop, file, file_loop, read_page, crc64_bit, crc64_bits, crc64_loop,
  crc64_iso, all_ones, hex, parse,
}

-- A page that the file holds whole is read as it is.
read_page-whole : (n : ℕ) (rest : List ℕ) → n ≤ length rest → read_page n rest ≡ take n rest
unfolding read_page
read_page-whole n rest h =
    let none_left : n - length (take n rest) ≡ 0 = omega (arith, length-take n rest) in
    rw none_left (append-nil (take n rest))

take-take : (n : ℕ) (xs : List ℕ) → take n (take n xs) ≡ take n xs
take-take zero xs = refl
take-take (suc n) [] = refl
take-take (suc n) (x ∷ xs) = ap (λ t. x ∷ t) (take-take n xs)

accumulate-page :
    (c i : ℕ) (n : ℕ) (p : List ℕ) → accumulate c i (some (take n p)) n ≡ accumulate c i (some p) n
unfolding accumulate
accumulate-page c i n p = rw take-take refl

file_loop-eq :
    (n rounds : ℕ) (bytes : List ℕ) (i c : ℕ)
    → (i + rounds) * n ≤ length bytes
    → i + rounds < 2 ^ 32
    → file_loop n rounds (drop (i * n) bytes) i c ≡ compute_loop n rounds bytes i c
unfolding file_loop compute_loop
file_loop-eq n zero bytes i c h h' = refl
file_loop-eq n (suc rounds) bytes i c h h' =
    let rest = drop (i * n) bytes in
    let whole : n ≤ length rest = grind (arith, length-drop (i * n) bytes) in
    let next : drop n rest ≡ drop ((i + 1) * n) bytes =
      drop-drop n (i * n) bytes ∙ ap (λ k. drop k bytes) (omega arith) in
    let page : accumulate c ((i + 1) % 2 ^ 32) (some (read_page n rest)) n
        ≡ accumulate c (i + 1) (some rest) n =
      ap₂ (λ k p. accumulate c k (some p) n) (mod-eq_of_lt (omega arith))
        (read_page-whole n rest whole)
      ∙ accumulate-page c (i + 1) n rest in
    ap₂ (λ r a. file_loop n rounds r (i + 1) a) next page
    ∙ file_loop-eq n rounds bytes (i + 1) (accumulate c (i + 1) (some rest) n) (grind arith)
        (omega arith)

-- On a file that holds all the pages, the checksum read from the file is the checksum of the
-- bytes in memory.
pub file-eq-compute :
    (bytes : List ℕ) (page_size count : ℕ)
    → count * page_size ≤ length bytes
    → count < 2 ^ 32
    → file (some bytes) page_size count ≡ compute (some bytes) page_size count
unfolding file compute
file-eq-compute bytes page_size count h h' =
    ap (λ k. file_loop page_size count (drop k bytes) 0 0) zero_mul
    ∙ file_loop-eq page_size count bytes 0 0 (rw (zero-add count) h) (omega arith)
  where
    zero_mul : 0 ≡ 0 * page_size
    zero_mul = omega arith

-- Every stage of the checksum stays below 2 ^ 64.
crc64_bit-lt : (crc : ℕ) → crc < 2 ^ 64 → crc64_bit crc < 2 ^ 64
unfolding crc64_bit
crc64_bit-lt crc h = bit_xor-lt 64 (crc >>> 1) _ (omega arith) (ground arith)

crc64_bits-lt : (rounds crc : ℕ) → crc < 2 ^ 64 → crc64_bits rounds crc < 2 ^ 64
unfolding crc64_bits
crc64_bits-lt zero crc h = h
crc64_bits-lt (suc rounds) crc h = crc64_bits-lt rounds (crc64_bit crc) (crc64_bit-lt crc h)

crc64_loop-lt :
    (bytes : List ℕ) (crc : ℕ) → IsBytes bytes → crc < 2 ^ 64 → crc64_loop bytes crc < 2 ^ 64
unfolding crc64_loop
crc64_loop-lt [] crc hb h = h
crc64_loop-lt (b ∷ bytes) crc hb h =
    crc64_loop-lt bytes (crc64_bits 8 (bit_xor crc b)) hb.1
      (crc64_bits-lt 8 (bit_xor crc b) (bit_xor-lt 64 crc b h (omega arith)))

IsBytes-take : (n : ℕ) (p : List ℕ) → IsBytes p → IsBytes (take n p)
IsBytes-take zero p h = tt
IsBytes-take (suc n) [] h = tt
IsBytes-take (suc n) (x ∷ p) h = (h.0, IsBytes-take n p h.1)

IsBytes-drop : (n : ℕ) (p : List ℕ) → IsBytes p → IsBytes (drop n p)
IsBytes-drop zero p h = h
IsBytes-drop (suc n) [] h = tt
IsBytes-drop (suc n) (x ∷ p) h = IsBytes-drop n p h.1

put_u64_be-IsBytes : (v : ℕ) → IsBytes (put_u64_be v)
unfolding put_u64_be
put_u64_be-IsBytes v =
    let low = λ (k : ℕ). low_byte-lt (v >>> k) in
    (low 56, (low 48, (low 40, (low 32, (low 24, (low 16, (low 8, (low_byte-lt v, tt))))))))

crc64_iso-lt : (bytes : List ℕ) → IsBytes bytes → crc64_iso bytes < 2 ^ 64
unfolding crc64_iso
crc64_iso-lt bytes h =
    bit_xor-lt 64 (crc64_loop bytes all_ones) all_ones
      (crc64_loop-lt bytes all_ones h (omega arith)) (omega arith)

accumulate-lt :
    (c i n : ℕ) (p : List ℕ) → c < 2 ^ 64 → IsBytes p → accumulate c i (some p) n < 2 ^ 64
unfolding accumulate
accumulate-lt c i n p hc hp =
    let page = put_u64_be i ++ take n p in
    let page_bytes : IsBytes page =
      All-append (λ b. b < 256) (put_u64_be i) (take n p) (put_u64_be-IsBytes i)
        (IsBytes-take n p hp) in
    let below : bit_xor c (crc64_iso page) < 2 ^ 64 =
      bit_xor-lt 64 c (crc64_iso page) hc (crc64_iso-lt page page_bytes) in
    elim (Bool-cases (ltb 65536 n)) [ inl large ↦ rw large hc | inr small ↦ rw small below ]

compute_loop-lt :
    (n rounds : ℕ) (p : List ℕ) (i c : ℕ)
    → IsBytes p
    → c < 2 ^ 64
    → compute_loop n rounds p i c < 2 ^ 64
unfolding compute_loop
compute_loop-lt n zero p i c hp hc = hc
compute_loop-lt n (suc rounds) p i c hp hc =
    compute_loop-lt n rounds p (i + 1) (accumulate c (i + 1) (some (drop (i * n) p)) n) hp
      (accumulate-lt c (i + 1) n (drop (i * n) p) hc (IsBytes-drop (i * n) p hp))

-- The checksum of an image of bytes is a 64-bit number, so its sixteen hexadecimal digits keep
-- all of it: the parser reads them back to the checksum.
pub parse-hex-compute :
    (pages : List ℕ) (page_size count : ℕ)
    → IsBytes pages
    → (compute (some pages) page_size count < 2 ^ 64)
      × (parse (some (hex (compute (some pages) page_size count)))
          ≡ some (compute (some pages) page_size count))
parse-hex-compute pages page_size count h =
    let below : compute (some pages) page_size count < 2 ^ 64 =
      unfold compute in compute_loop-lt page_size count pages 0 0 h (omega arith) in
    (below, (parse-hex (compute (some pages) page_size count) below).1)
