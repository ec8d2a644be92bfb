-- ===== src/Checksum/Hex.antt =====
-- The hexadecimal form of a checksum: fixed width, and read back by the parser.
use native.Mathlib.Nat.{
  pow-suc, one-le-pow, mod-lt, mod-eq_of_lt, pow-le-pow_right, div-div-eq-div-mul,
}
use otsardb.Base.{
  ℕ, zero, suc, ◌+◌, ◌*◌, ◌/◌, ◌%◌, ◌^◌, ◌≤◌, ◌<◌, ◌≡◌, refl, ap, ap₂, append_assoc, append-nil,
  length-append, mod_digit, sym, ◌∙◌, some, List, [], ◌∷◌, ◌++◌, bit_and, bit_or, bit_or_comm,
  bit_or-shift, bit_and-mask, ◌<<<◌, length, arith,
}
use otsardb.Bytes.{byte_at}
use otsardb.Bytes.RoundTrip.{byte_behind}
use otsardb.Checksum.{hex, hex_loop, hex_digit, hex_value, parse, parse_loop}

-- Every digit that `hex` writes is one that `parse` reads back.
hex_value-hex_digit : (d : ℕ) → d < 16 → hex_value (hex_digit d) ≡ some d
unfolding hex_value
hex_value-hex_digit d h = ground arith

-- The first digit stands for the highest four bits.
hex_text : ℕ → ℕ → List ℕ
hex_text zero c = []
hex_text (suc n) c = hex_digit (c / 16 ^ n % 16) ∷ hex_text n c

-- Taking the lowest digit off at the end.
hex_text-snoc : (n c : ℕ) → hex_text n (c / 16) ++ (hex_digit (c % 16) ∷ []) ≡ hex_text (suc n) c
unfolding hex_text
hex_text-snoc zero c = ap (λ d. hex_digit d ∷ []) (omega arith)
hex_text-snoc (suc n) c =
    let shift : c / 16 / 16 ^ n ≡ c / 16 ^ suc n =
      div-div-eq-div-mul c 16 (16 ^ n) ∙ ap (λ t. c / t) (omega (arith, pow-suc 16 n)) in
    ap₂ (λ d t. hex_digit (d % 16) ∷ t) shift (hex_text-snoc n c)

hex_loop-eq : (n c : ℕ) (out : List ℕ) → hex_loop n c out ≡ hex_text n c ++ out
unfolding hex_loop
hex_loop-eq zero c out = unfold hex_text in refl
hex_loop-eq (suc n) c out =
    hex_loop-eq n (c / 16) (hex_digit (bit_and c 15) ∷ out)
    ∙ ap (λ d. hex_text n (c / 16) ++ (hex_digit d ∷ out)) (bit_and-mask 4 c)
    ∙ sym (append_assoc (hex_text n (c / 16)) (hex_digit (c % 16) ∷ []) out)
    ∙ ap (λ t. t ++ out) (hex_text-snoc n c)

byte_past : (i : ℕ) (text : List ℕ) → length text ≡ i → byte_at text i ≡ 0
byte_past i [] e = refl
byte_past zero (x ∷ text) e = absurd (omega arith)
byte_past (suc i) (x ∷ text) e = byte_past i text (omega arith)

length-hex_text : (n c : ℕ) → length (hex_text n c) ≡ n
unfolding hex_text
length-hex_text zero c = refl
length-hex_text (suc n) c = ap suc (length-hex_text n c)

pow-add_one : (i : ℕ) → 16 ^ (i + 1) ≡ 16 ^ i * 16
pow-add_one i = ap (λ t. 16 ^ t) (omega arith) ∙ pow-suc 16 i

-- One round of the parser: the digit is or-ed below the value that was shifted up.
shift_in : (i v d : ℕ) → i < 16 → v < 16 ^ i → d < 16 → bit_or ((v <<< 4) % 2 ^ 64) d ≡ v * 16 + d
shift_in i v d h hv hd =
    let room : 16 ^ suc i ≤ 16 ^ 16 = pow-le-pow_right (omega arith) {i = suc i} {j = 16} h in
    let fits : v * 16 < 2 ^ 64 = omega (arith, pow-suc 16 i) in
    rw (mod-eq_of_lt fits, bit_or_comm (v * 16) d, bit_or-shift 4 d v (omega arith)) (omega arith)

parse_loop-suc :
    (n i : ℕ) (text : List ℕ) (v d : ℕ)
    → hex_value (byte_at text i) ≡ some d
    → parse_loop (suc n) i text v ≡ parse_loop n (i + 1) text (bit_or ((v <<< 4) % 2 ^ 64) d)
unfolding parse_loop
parse_loop-suc n i text v d h = ground arith

parse_loop-end :
    (i : ℕ) (text : List ℕ) (v : ℕ) → length text ≡ 16 → parse_loop zero i text v ≡ some v
unfolding parse_loop
parse_loop-end i text v h = rw (byte_past 16 text h)

-- The parser behind the digits that it has read.
parse_text :
    (n i c v : ℕ) (pre : List ℕ)
    → length pre ≡ i
    → i + n ≡ 16
    → v < 16 ^ i
    → parse_loop n i (pre ++ hex_text n c) v ≡ some (v * 16 ^ n + c % 16 ^ n)
unfolding hex_text
parse_text zero i c v pre e e' h =
    parse_loop-end i (pre ++ hex_text zero c) v
      (omega (arith, length-append pre (hex_text zero c), length-hex_text zero c))
    ∙ ap some (omega arith)
parse_text (suc n) i c v pre e e' h =
    let d = c / 16 ^ n % 16 in
    let small : d < 16 = mod-lt (c / 16 ^ n) (omega arith) in
    let here : byte_at (pre ++ hex_digit d ∷ hex_text n c) i ≡ hex_digit d =
      byte_behind i pre (hex_text n c) (hex_digit d) e in
    let value : v * 16 + d < 16 ^ (i + 1) = rw (pow-add_one i) (omega arith) in
    let power : 16 ^ suc n ≡ 16 ^ n * 16 = pow-suc 16 n in
    parse_loop-suc n i (pre ++ hex_digit d ∷ hex_text n c) v d
      (ap hex_value here ∙ hex_value-hex_digit d small)
    ∙ ap₂ (λ u t. parse_loop n (i + 1) t u) (shift_in i v d (omega arith) h small)
        (sym (append_assoc pre (hex_digit d ∷ []) (hex_text n c)))
    ∙ parse_text n (i + 1) c (v * 16 + d) (pre ++ hex_digit d ∷ [])
        (omega (arith, length-append pre (hex_digit d ∷ []))) (omega arith) value
    ∙ ap some (
        omega (
          arith,
          mod_digit (16 ^ n) 16 (16 ^ suc n) c (one-le-pow n 16 (omega arith)) (omega arith) power,
          ap (λ (u : ℕ). v * u) power,
        ))

-- The text of a checksum has sixteen digits, and parses back to the checksum.
pub parse-hex : (c : ℕ) → c < 2 ^ 64 → (length (hex c) ≡ 16) × (parse (some (hex c)) ≡ some c)
unfolding hex parse
parse-hex c h =
    let text : hex_loop 16 c [] ≡ hex_text 16 c =
      hex_loop-eq 16 c [] ∙ append-nil (hex_text 16 c) in
    (
      ap length text ∙ length-hex_text 16 c,
      ap (λ t. parse_loop 16 0 t 0) text
          ∙ parse_text 16 0 c 0 [] refl refl (omega arith)
          ∙ ap some (omega arith),
    )
