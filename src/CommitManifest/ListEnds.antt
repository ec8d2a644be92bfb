-- ===== src/CommitManifest/ListEnds.antt =====
-- src/storage/commit_manifest.c: the loop over the numbers of a list ends.
use otsardb.Base.{
  ℕ, zero, suc, ◌+◌, ◌-◌, ◌*◌, ◌≤◌, ◌<◌, ◌^◌, ◌%◌, ◌≡◌, ◌≢◌, ap, sym, subst, ◌∙◌, Bool, true, none,
  some, [], ◌∷◌, not, ◌>>=◌, ◌>>◌, guard, length, arith, Option-cases, Bool-cases, inl, inr,
  bind_some, guard-some, some_eq, if◌then◌else◌, ltb, drop,
}
use otsardb.Text.{
  Text, scan_digits, starts_digit, sign, skip_while, is_space, is_digit, read_number, strtoull,
}
use otsardb.Text.Scan.{skip_blanks, in_range, parse_u64, head_is}
use otsardb.CommitManifest.Parse.{ListRead, parsed, refused, out_of_fuel, prepend, parse_list}

skip_while_size : (p : ℕ → Bool) (text : Text) → length (skip_while p text) ≤ length text
skip_while_size p [] = omega arith
skip_while_size p (c ∷ text) = let rest = skip_while_size p text in ground arith

scan_digits_size : (text : Text) (n : ℕ) → length (scan_digits text n).1 ≤ length text
scan_digits_size [] n = omega arith
scan_digits_size (c ∷ text) n = let rest = scan_digits_size text (n * 10 + (c - 48)) in ground arith

digit_taken : (text : Text) → starts_digit text ≡ true → length (scan_digits text 0).1 < length text
digit_taken [] h = absurd (cc h)
digit_taken (c ∷ text) h = let rest = scan_digits_size text (0 * 10 + (c - 48)) in ground arith

sign_size : (text : Text) → length (sign text).1 ≤ length text
sign_size [] = omega arith
sign_size (c ∷ text) = ground arith

read_number_size :
    (s : Bool × Text) (r : ℕ × Text) → read_number s ≡ some r → length r.1 < length s.1
unfolding read_number
read_number_size (minus, number) r h =
    let end = (scan_digits number 0).1 in
    let n = (scan_digits number 0).0 in
    let value =
      if ltb (2 ^ 64 - 1) n then 2 ^ 64 - 1 else if minus then (2 ^ 64 - n) % 2 ^ 64 else n in
    elim (Bool-cases (starts_digit number)) [
      | inl digit ↦
          let e =
            some_eq (value, end) r
              (sym (ap (λ b. if b then some (value, end) else none) digit) ∙ h) in
          subst (λ x. length x < length number) (ap (λ p. p.1) e) (digit_taken number digit)
      | inr other ↦ absurd (cc (sym (ap (λ b. if b then some (value, end) else none) other) ∙ h))
    ]

parse_u64_size : (p : Text) (r : ℕ × Text) → parse_u64 p ≡ some r → length r.1 < length p
unfolding parse_u64 strtoull
parse_u64_size p r h =
    let (plain, h1) =
      guard-some (not (head_is 45 p)) (strtoull p >>= (λ q. guard (in_range p) >> some (q.0, q.1)))
        r h in
    let (q, e, h2) = bind_some (strtoull p) (λ q. guard (in_range p) >> some (q.0, q.1)) r h1 in
    let (range, h3) = guard-some (in_range p) (some (q.0, q.1)) r h2 in
    let size = read_number_size (sign (skip_while is_space p)) q e in
    let signed = sign_size (skip_while is_space p) in
    let spaces = skip_while_size is_space p in
    subst (λ x. length x < length p) (ap (λ x. x.1) (some_eq q r h3)) (omega arith)

drop_one_size : (text : Text) → length (drop 1 text) ≤ length text
drop_one_size [] = omega arith
drop_one_size (c ∷ text) = omega arith

prepend-out_of_fuel : (x : ℕ) (r : ListRead) → r ≢ out_of_fuel → prepend x r ≢ out_of_fuel
prepend-out_of_fuel x (parsed xs p) h = λ e. absurd (cc e)
prepend-out_of_fuel x refused h = λ e. absurd (cc e)
prepend-out_of_fuel x out_of_fuel h = h

-- The loop over the numbers of a list ends by a return of the source, from any count, where the
-- fuel is above the length of the text.
pub parse_list-ne-out_of_fuel :
    (fuel count : ℕ) (p : Text) → length p < fuel → parse_list fuel count p ≢ out_of_fuel
unfolding parse_list
parse_list-ne-out_of_fuel zero count p h = absurd (omega arith)
parse_list-ne-out_of_fuel (suc fuel) count p h =
    let q = skip_blanks p in
    elim (Option-cases (parse_u64 q)) [
      | inl fails ↦ ground arith
      | inr ((value, end), e) ↦
          let next = drop 1 (skip_blanks end) in
          let taken = parse_u64_size q (value, end) e in
          let blanks = skip_while_size otsardb.Text.Scan.is_blank p in
          let blanks' = skip_while_size otsardb.Text.Scan.is_blank end in
          let one = drop_one_size (skip_blanks end) in
          let ends =
            prepend-out_of_fuel value (parse_list fuel (count + 1) next)
              (parse_list-ne-out_of_fuel fuel (count + 1) next (omega arith)) in
          ground arith
    ]
