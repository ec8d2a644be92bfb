-- ===== src/CommitManifest/Lists.antt =====
-- src/storage/commit_manifest.c: a list of numbers is read back as it was written.
use otsardb.Base.{
  ℕ, zero, suc, ◌+◌, ◌-◌, ◌≤◌, ◌<◌, ◌^◌, ◌≡◌, refl, ap, ◌∙◌, true, false, some, List, [], ◌∷◌, ◌++◌,
  not, leb, length, arith, All, append_assoc, drop, length-append, lt→ltb, le→leb,
}
use otsardb.Text.{Text, decimal}
use otsardb.Text.Decimal.{Ends, strtoull-decimal, skip_while-decimal, decimal_shape, decimal_value}
use otsardb.Text.Scan.{is_blank, head_is, in_range, parse_u64}
use otsardb.CommitManifest.{max_list_entries}
use otsardb.CommitManifest.Parse.{parsed, numbers_of, parse_list, parse_u64_list}
use otsardb.CommitManifest.Written.{print_entries, print_array}

head_is-decimal :
    (c n : ℕ) (rest : Text) → n < 2 ^ 64 → 57 < c → head_is c (decimal n ++ rest) ≡ false
head_is-decimal c n rest range other =
    let (d, others, small, shape) = decimal_shape n range in
    let apart : head_is c ((48 + d) ∷ (others ++ rest)) ≡ false = ground arith in
    ap (λ t. head_is c (t ++ rest)) shape ∙ apart

unsigned : (n : ℕ) (rest : Text) → n < 2 ^ 64 → not (head_is 45 (decimal n ++ rest)) ≡ true
unsigned n rest range =
    let (d, others, small, shape) = decimal_shape n range in
    let apart : not (head_is 45 ((48 + d) ∷ (others ++ rest))) ≡ true = ground arith in
    ap (λ t. not (head_is 45 (t ++ rest))) shape ∙ apart

in_range-decimal :
    (n : ℕ) (rest : Text) → n < 2 ^ 64 → Ends rest → in_range (decimal n ++ rest) ≡ true
unfolding in_range
in_range-decimal n rest range ends =
    ap (λ k. leb k (2 ^ 64 - 1)) (decimal_value n rest range ends)
    ∙ le→leb n (2 ^ 64 - 1) (omega arith)

pub parse_u64-decimal :
    (n : ℕ) (rest : Text) → n < 2 ^ 64 → Ends rest → parse_u64 (decimal n ++ rest) ≡ some (n, rest)
unfolding parse_u64
parse_u64-decimal n rest range ends =
    rw
      (
        unsigned n rest range,
        strtoull-decimal n rest range ends,
        in_range-decimal n rest range ends,
      )
      refl

parse_list-print_entries :
    (fuel count x : ℕ) (xs : List ℕ) (rest : Text)
    → length xs < fuel
    → All (λ y. y < 2 ^ 64) (x ∷ xs)
    → count + suc (length xs) ≤ max_list_entries
    → parse_list fuel count (decimal x ++ (print_entries false xs ++ 93 ∷ rest))
      ≡ parsed (x ∷ xs) rest
unfolding parse_list
parse_list-print_entries zero count x xs rest h range room = absurd (omega arith)
parse_list-print_entries (suc fuel) count x [] rest h range room =
    let skipped = skip_while-decimal is_blank x (93 ∷ rest) range.0 (λ d k. ground arith) in
    let apart = head_is-decimal 93 x (93 ∷ rest) range.0 (omega arith) in
    let fits = lt→ltb count max_list_entries (omega arith) in
    rw (skipped, apart, parse_u64-decimal x (93 ∷ rest) range.0 refl, fits) refl
parse_list-print_entries (suc fuel) count x (y ∷ xs) rest h range room =
    let more = decimal y ++ (print_entries false xs ++ 93 ∷ rest) in
    let shape : print_entries false (y ∷ xs) ++ 93 ∷ rest ≡ 44 ∷ more =
      ap (λ t. 44 ∷ t) (append_assoc (decimal y) (print_entries false xs) (93 ∷ rest)) in
    let skipped = skip_while-decimal is_blank x (44 ∷ more) range.0 (λ d k. ground arith) in
    let apart = head_is-decimal 93 x (44 ∷ more) range.0 (omega arith) in
    let fits = lt→ltb count max_list_entries (omega arith) in
    let next =
      parse_list-print_entries fuel (count + 1) y xs rest (omega arith) range.1 (omega arith) in
    ap (λ t. parse_list (suc fuel) count (decimal x ++ t)) shape
    ∙ rw (skipped, apart, parse_u64-decimal x (44 ∷ more) range.0 refl, fits, next) refl

entries_given :
    (xs : List ℕ) (rest : Text) → length xs ≤ length (print_entries false xs ++ 93 ∷ rest)
entries_given [] rest = omega arith
entries_given (x ∷ xs) rest =
    let more = entries_given xs rest in
    let size = length-append (44 ∷ decimal x) (print_entries false xs) in
    let all = length-append (print_entries false (x ∷ xs)) (93 ∷ rest) in
    let part = length-append (print_entries false xs) (93 ∷ rest) in omega arith

bracket : (fuel : ℕ) (rest : Text) → 1 ≤ fuel → parse_list fuel 0 (93 ∷ rest) ≡ parsed [] rest
unfolding parse_list
bracket zero rest h = absurd (omega arith)
bracket (suc fuel) rest h = refl

first_bracket : (rest : Text) → parse_list (length (93 ∷ rest) + 1) 0 (93 ∷ rest) ≡ parsed [] rest
first_bracket rest = bracket (length (93 ∷ rest) + 1) rest (omega arith)

-- A list of up to a million numbers of 64 bits is read back as it was written, up to the bracket.
pub parse_u64_list-print_array :
    (xs : List ℕ) (rest : Text)
    → All (λ x. x < 2 ^ 64) xs
    → length xs ≤ max_list_entries
    → parse_u64_list (drop 1 (print_array xs ++ rest)) ≡ some (xs, rest)
unfolding parse_u64_list
parse_u64_list-print_array [] rest range room = ap numbers_of (first_bracket rest)
parse_u64_list-print_array (x ∷ xs) rest range room =
    let text = decimal x ++ (print_entries false xs ++ 93 ∷ rest) in
    let shape : drop 1 (print_array (x ∷ xs) ++ rest) ≡ text =
      append_assoc (decimal x ++ print_entries false xs) (93 ∷ []) rest
      ∙ append_assoc (decimal x) (print_entries false xs) (93 ∷ rest) in
    let size = length-append (decimal x) (print_entries false xs ++ 93 ∷ rest) in
    let given = entries_given xs rest in
    ap (λ t. numbers_of (parse_list (length t + 1) 0 t)) shape
    ∙ ap numbers_of
        (parse_list-print_entries (length text + 1) 0 x xs rest (omega arith) range (omega arith))
