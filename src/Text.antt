-- ===== src/Text.antt =====
-- The functions of the C library on NUL-terminated texts that src/ha/lease.c and
-- src/storage/journal.c call: strstr, strchr, strtoull and the conversions of snprintf.
-- A text is the list of its bytes without the NUL; a pointer into it is the list from there on.
pub mod Search
pub mod Decimal
pub mod Scan
pub mod ReadBack
pub mod Write
use Prim.Native.Char.{code}
use Prim.Native.String.{String}
use otsardb.Base.{
  ℕ, zero, suc, ◌+◌, ◌-◌, ◌*◌, ◌/◌, ◌%◌, ◌^◌, Bool, true, false, ◌&&◌, ◌||◌, Option, none, some,
  List, [], ◌∷◌, ltb, leb, ◌==◌, if◌then◌else◌, take,
}

abbrev pub Text : Type 0
Text = List ℕ

-- The bytes of a literal.
abbrev pub codes : String → Text
codes String.[] = []
codes (String.◌∷◌ c s) = code c ∷ codes s

abbrev pub quote : ℕ
quote = 34

abbrev pub backslash : ℕ
backslash = 92

-- A buffer read as a text: up to its first NUL.
unfoldable pub cstr : List ℕ → Text
cstr [] = []
cstr (b ∷ bytes) = let rest = cstr bytes in if b == 0 then [] else b ∷ rest

-- What `snprintf` leaves of a text in an array of `cap` bytes.
abbrev pub snprintf : ℕ → Text → Text
snprintf cap text = take (cap - 1) text

-- `strcmp(a, b) == 0`
abbrev pub text_eq : Text → Text → Bool
text_eq [] [] = true
text_eq [] (y ∷ ys) = false
text_eq (x ∷ xs) [] = false
text_eq (x ∷ xs) (y ∷ ys) = x == y && text_eq xs ys

abbrev pub is_prefix : Text → Text → Bool
is_prefix [] text = true
is_prefix (c ∷ pattern) [] = false
is_prefix (c ∷ pattern) (d ∷ text) = c == d && is_prefix pattern text

abbrev pub strstr : Text → Text → Option Text
strstr [] pattern = if is_prefix pattern [] then some [] else none
strstr (c ∷ text) pattern =
    if is_prefix pattern (c ∷ text) then some (c ∷ text) else strstr text pattern

abbrev pub strchr : Text → ℕ → Option Text
strchr [] c = none
strchr (d ∷ text) c = if d == c then some (d ∷ text) else strchr text c

abbrev pub is_digit : ℕ → Bool
is_digit c = leb 48 c && leb c 57

-- `isspace` of the C locale.
abbrev pub is_space : ℕ → Bool
is_space c = c == 32 || (leb 9 c && leb c 13)

-- The text behind its leading bytes that pass a test.
abbrev pub skip_while : (ℕ → Bool) → Text → Text
skip_while p [] = []
skip_while p (c ∷ text) = let rest = skip_while p text in if p c then rest else c ∷ text

-- The digits at the head of a text, added behind the number `n`, and the rest.
abbrev pub scan_digits : Text → ℕ → ℕ × Text
scan_digits [] n = (n, [])
scan_digits (c ∷ text) n =
    let rest = scan_digits text (n * 10 + (c - 48)) in if is_digit c then rest else (n, c ∷ text)

-- The sign that `strtoull` takes: whether it was a minus, and the rest.
abbrev pub sign : Text → Bool × Text
sign [] = (false, [])
sign (c ∷ text) =
    if c == 45 then (true, text) else if c == 43 then (false, text) else (false, c ∷ text)

abbrev pub starts_digit : Text → Bool
starts_digit [] = false
starts_digit (c ∷ text) = is_digit c

-- The number behind the sign.
unfoldable pub read_number : Bool × Text → Option (ℕ × Text)
read_number (minus, number) =
    let (value, end) = scan_digits number 0 in
    if starts_digit number
    then some (
      (if ltb (2 ^ 64 - 1) value
          then 2 ^ 64 - 1
          else if minus
          then (2 ^ 64 - value) % 2 ^ 64
          else value),
      end,
    )
    else none

-- `strtoull(p, &end, 10)`: the value and `end`; `none` is `end == p`.
unfoldable pub strtoull : Text → Option (ℕ × Text)
unfolding read_number
strtoull p = read_number (sign (skip_while is_space p))

-- The decimal digits of `n` before `out`; a number of 64 bits has at most twenty.
pub digits : ℕ → ℕ → Text → Text
digits zero n out = out
digits (suc left) n out =
    let rest = digits left (n / 10) ((48 + n % 10) ∷ out) in
    if ltb n 10 then (48 + n) ∷ out else rest

-- `%llu`
unfoldable pub decimal : ℕ → Text
unfolding digits
decimal n = digits 20 n []
