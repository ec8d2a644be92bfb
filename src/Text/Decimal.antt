-- ===== src/Text/Decimal.antt =====
-- A number printed by `%llu` is read back by `strtoull`.
use native.Mathlib.Nat.{pow-suc}
use otsardb.Base.{
  length, ◌≤◌, Bool, ℕ, zero, suc, ◌+◌, ◌-◌, ◌*◌, ◌/◌, ◌%◌, ◌^◌, ◌≤◌, ◌<◌, ◌≡◌, refl, ap, sym, ◌∙◌,
  false, some, [], ◌∷◌, ◌++◌, ltb, arith, Bool-cases, inl, inr, ltb→lt, lt→ltb,
}
use otsardb.Text.Search.{Lacks}
use otsardb.Text.{
  Text, is_digit, skip_while, is_space, sign, scan_digits, read_number, strtoull, digits, decimal,
}

-- One digit more.
scan_digit :
    (d m n : ℕ) (text : Text)
    → d < 10
    → m * 10 + d ≡ n
    → scan_digits ((48 + d) ∷ text) m ≡ scan_digits text n
scan_digit d m n text h e =
    let same : m * 10 + (48 + d - 48) ≡ n = omega arith in rw same (ground arith)

scan_digits-digits :
    (left n : ℕ) (out rest : Text)
    → n < 10 ^ left
    → scan_digits (digits left n out ++ rest) 0 ≡ scan_digits (out ++ rest) n
unfolding digits
scan_digits-digits zero n out rest h = ap (scan_digits (out ++ rest)) (omega arith)
scan_digits-digits (suc left) n out rest h = elim (Bool-cases (ltb n 10)) [
  | inl small ↦ rw small (scan_digit n 0 n (out ++ rest) (ltb→lt n 10 small) (omega arith))
  | inr large ↦ rw large (
      scan_digits-digits left (n / 10) ((48 + n % 10) ∷ out) rest (omega (arith, pow-suc 10 left))
      ∙ scan_digit (n % 10) (n / 10) n (out ++ rest) (omega arith) (omega arith))
]

-- The print starts with a digit.
record Starts (text : Text) : Type 0 where
  digit : ℕ
  others : Text
  small : digit < 10
  shape : text ≡ (48 + digit) ∷ others

digits-Starts : (left n : ℕ) (out : Text) → 1 ≤ left → n < 10 ^ left → Starts (digits left n out)
unfolding digits
digits-Starts zero n out h h' = absurd (omega arith)
digits-Starts (suc zero) n out h h' = record {
  digit = n;
  others = out;
  small = omega arith;
  shape = ground arith;
}
digits-Starts (suc (suc left)) n out h h' = elim (Bool-cases (ltb n 10)) [
  | inl small ↦ record { digit = n; others = out; small = ltb→lt n 10 small; shape = rw small }
  | inr large ↦
      let s =
        digits-Starts (suc left) (n / 10) ((48 + n % 10) ∷ out) (omega arith)
          (omega (arith, pow-suc 10 (suc left))) in
      record { digit = s.digit; others = s.others; small = s.small; shape = rw large s.shape }
]

-- What follows the digits is no digit.
abbrev pub Ends : Text → Type 0
Ends [] = Unit {0}
Ends (c ∷ rest) = is_digit c ≡ false

scan_stops : (n : ℕ) (rest : Text) → Ends rest → scan_digits rest n ≡ (n, rest)
scan_stops n [] h = refl
scan_stops n (c ∷ rest) h = rw h

read_plain :
    (d n : ℕ) (others end : Text)
    → d < 10
    → scan_digits ((48 + d) ∷ others) 0 ≡ (n, end)
    → n < 2 ^ 64
    → read_number (false, (48 + d) ∷ others) ≡ some (n, end)
unfolding read_number
read_plain d n others end h e fits = rw e (ground arith)

strtoull_digits :
    (d n : ℕ) (others end : Text)
    → d < 10
    → scan_digits ((48 + d) ∷ others) 0 ≡ (n, end)
    → n < 2 ^ 64
    → strtoull ((48 + d) ∷ others) ≡ some (n, end)
unfolding strtoull
strtoull_digits d n others end h e fits =
    let here : Text = (48 + d) ∷ others in
    let skipped : skip_while is_space here ≡ here = ground arith in
    let unsigned : sign here ≡ (false, here) = ground arith in
    ap (λ t. read_number (sign t)) skipped
    ∙ ap read_number unsigned
    ∙ read_plain d n others end h e fits

pub strtoull-decimal :
    (n : ℕ) (rest : Text) → n < 2 ^ 64 → Ends rest → strtoull (decimal n ++ rest) ≡ some (n, rest)
unfolding decimal
strtoull-decimal n rest h ends =
    let s = digits-Starts 20 n [] (omega arith) (omega arith) in
    let read = scan_digits-digits 20 n [] rest (omega arith) ∙ scan_stops n rest ends in
    ap (λ t. strtoull (t ++ rest)) s.shape
    ∙ strtoull_digits s.digit n (s.others ++ rest) rest s.small
        (ap (λ t. scan_digits (t ++ rest) 0) (sym s.shape) ∙ read) h

-- A printed number holds digits only.
digits-Lacks : (c left n : ℕ) (out : Text) → c < 48 → Lacks c out → Lacks c (digits left n out)
unfolding digits
digits-Lacks c zero n out h k = k
digits-Lacks c (suc left) n out h k =
    let rest = digits-Lacks c left (n / 10) ((48 + n % 10) ∷ out) h (omega arith, k) in
    elim (Bool-cases (ltb n 10)) [
      | inl small ↦ rw small (omega arith, k)
      | inr large ↦ rw large rest
    ]

pub decimal-Lacks : (c n : ℕ) → c < 48 → Lacks c (decimal n)
unfolding decimal
decimal-Lacks c n h = digits-Lacks c 20 n [] h tt

-- A skip stops before a printed number.
pub skip_while-decimal :
    (p : ℕ → Bool) (n : ℕ) (rest : Text)
    → n < 2 ^ 64
    → ((d : ℕ) → d < 10 → p (48 + d) ≡ false)
    → skip_while p (decimal n ++ rest) ≡ decimal n ++ rest
unfolding decimal
skip_while-decimal p n rest h stops =
    let s = digits-Starts 20 n [] (omega arith) (omega arith) in
    let stop : skip_while p ((48 + s.digit) ∷ (s.others ++ rest))
        ≡ (48 + s.digit) ∷ (s.others ++ rest) =
      ground (arith, stops s.digit s.small) in
    ap (λ t. skip_while p (t ++ rest)) s.shape ∙ stop ∙ ap (λ t. t ++ rest) (sym s.shape)

digits_size : (left n : ℕ) (out : Text) → length (digits left n out) ≤ left + length out
unfolding digits
digits_size zero n out = omega arith
digits_size (suc left) n out =
    let rest = digits_size left (n / 10) ((48 + n % 10) ∷ out) in ground arith

pub decimal_size : (n : ℕ) → length (decimal n) ≤ 20
unfolding decimal
decimal_size n = digits_size 20 n []

digits_given : (left n : ℕ) (out : Text) → length out ≤ length (digits left n out)
unfolding digits
digits_given zero n out = omega arith
digits_given (suc left) n out =
    let rest = digits_given left (n / 10) ((48 + n % 10) ∷ out) in ground arith

pub decimal_given : (n : ℕ) → 1 ≤ length (decimal n)
unfolding decimal digits
decimal_given n = let rest = digits_given 19 (n / 10) ((48 + n % 10) ∷ []) in ground arith

-- A number below 10 ^ k has at most k digits.
digits_short :
    (left k n : ℕ) (out : Text) → n < 10 ^ suc k → length (digits left n out) ≤ suc k + length out
unfolding digits
digits_short zero k n out h = omega arith
digits_short (suc left) zero n out h =
    let small = lt→ltb n 10 (omega (arith, pow-suc 10 0)) in rw small (omega arith)
digits_short (suc left) (suc k) n out h =
    let rest =
      digits_short left k (n / 10) ((48 + n % 10) ∷ out) (omega (arith, pow-suc 10 (suc k))) in
    ground arith

pub decimal_short : (k n : ℕ) → n < 10 ^ suc k → length (decimal n) ≤ suc k
unfolding decimal
decimal_short k n h = omega (arith, digits_short 20 k n [] h)

-- A printed number starts with a digit.
pub decimal_shape :
    (n : ℕ) → n < 2 ^ 64 → (d : ℕ) × (others : Text) × (d < 10) × (decimal n ≡ (48 + d) ∷ others)
unfolding decimal
decimal_shape n range =
    let s = digits-Starts 20 n [] (omega arith) (omega arith) in
    (s.digit, s.others, s.small, s.shape)

no_space :
    (d : ℕ) (others : Text) → d < 10 → skip_while is_space ((48 + d) ∷ others) ≡ (48 + d) ∷ others
no_space d others small = ground arith

no_sign : (d : ℕ) (others : Text) → d < 10 → sign ((48 + d) ∷ others) ≡ (false, (48 + d) ∷ others)
no_sign d others small = ground arith

-- Its digits are the number.
pub decimal_value :
    (n : ℕ) (rest : Text)
    → n < 2 ^ 64
    → Ends rest
    → (scan_digits (sign (skip_while is_space (decimal n ++ rest))).1 0).0 ≡ n
unfolding decimal
decimal_value n rest range ends =
    let s = digits-Starts 20 n [] (omega arith) (omega arith) in
    let others = s.others ++ rest in
    let skipped = no_space s.digit others s.small in
    let unsigned = no_sign s.digit others s.small in
    let read = scan_digits-digits 20 n [] rest (omega arith) ∙ scan_stops n rest ends in
    ap (λ t. (scan_digits (sign (skip_while is_space (t ++ rest))).1 0).0) s.shape
    ∙ ap (λ t. (scan_digits (sign t).1 0).0) skipped
    ∙ ap (λ t. (scan_digits t.1 0).0) unsigned
    ∙ ap (λ t. (scan_digits (t ++ rest) 0).0) (sym s.shape)
    ∙ ap (λ t. t.0) read
