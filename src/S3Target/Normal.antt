-- ===== src/S3Target/Normal.antt =====
-- A target that was parsed is in a normal form, and its canonical text is parsed to it.
use otsardb.Base.{
  ℕ, suc, ◌-◌, ◌≤◌, ◌≡◌, refl, ap, sym, ◌∙◌, subst, true, false, ◌&&◌, ◌||◌, not, Option, some, [],
  ◌∷◌, ◌++◌, leb, ◌==◌, ◌>>=◌, ◌>>◌, guard, length, length-append, length-take, take, take-append,
  drop, Bool-cases, Option-cases, inl, inr, arith,
}
use otsardb.Text.{Text, codes, strchr, skip_while}
use otsardb.Text.Search.{Lacks, strchr-append}
use otsardb.Sha256.{hex_data}
use otsardb.Sha256.Padding.{length-hex_data}
use otsardb.S3Target.{
  Target, slash, bucket_max, root_max, behind_scheme, is_slash, keep_before, strip_end, valid_part,
  parse, identity, database_id,
}

-- A bucket without a slash, a root without one at either end, each of a size that fits, and neither
-- with a query or a fragment.
pub record IsNormal (target : Target) : Type 0 where
  pub bucket_valid : valid_part bucket_max target.bucket ≡ true
  pub root_valid : valid_part root_max target.database_root ≡ true
  pub bucket_plain : Lacks slash target.bucket
  pub root_starts : skip_while is_slash target.database_root ≡ target.database_root
  pub root_ends : strip_end target.database_root ≡ target.database_root

before_slash :
    (text found : Text)
    → strchr text slash ≡ some found
    → Lacks slash (take (length text - length found) text)
before_slash [] found h = absurd (cc h)
before_slash (c ∷ text) found h = elim (Bool-cases (is_slash c)) [
  | inl here ↦
      let same : c ∷ text ≡ found = cc (rw here at h) in
      let none_before : length (c ∷ text) - length found ≡ 0 =
        omega (arith, ap (λ l. length l) same) in
      subst (λ n. Lacks slash (take n (c ∷ text))) (sym none_before) tt
  | inr further ↦
      let later : strchr text slash ≡ some found = rw further at h in
      let short = found_size text found later in
      let one : length (c ∷ text) - length found ≡ suc (length text - length found) = omega arith in
      subst (λ n. Lacks slash (take n (c ∷ text))) (sym one)
        (ground arith, before_slash text found later)
]
  where
    found_size : (t f : Text) → strchr t slash ≡ some f → length f ≤ length t
    found_size [] f e = absurd (cc e)
    found_size (d ∷ t) f e = elim (Bool-cases (is_slash d)) [
      | inl here ↦
          let same : d ∷ t ≡ f = cc (rw here at e) in omega (arith, ap (λ l. length l) same)
      | inr further ↦ omega (arith, found_size t f (rw further at e))
    ]

skip_while_idem :
    (text : Text) → skip_while is_slash (skip_while is_slash text) ≡ skip_while is_slash text
skip_while_idem [] = refl
skip_while_idem (c ∷ text) =
    let rest = skip_while_idem text in
    elim (Bool-cases (is_slash c)) [ inl here ↦ rw here rest | inr other ↦ rw (other, other) refl ]

keep_before-strip_end :
    (c : ℕ) (text : Text)
    → strip_end text ≡ text
    → strip_end (keep_before c text) ≡ keep_before c text
keep_before-strip_end c [] h = elim (Bool-cases (is_slash c)) [
  | inl here ↦ rw here refl
  | inr other ↦ rw (other, other) refl
]
keep_before-strip_end c (d ∷ text) h = ap (keep_before c) h

strip_end_idem : (text : Text) → strip_end (strip_end text) ≡ strip_end text
strip_end_idem [] = refl
strip_end_idem (c ∷ text) = keep_before-strip_end c (strip_end text) (strip_end_idem text)

keep_before-skip :
    (c : ℕ) (text : Text)
    → is_slash c ≡ false
    → skip_while is_slash (keep_before c text) ≡ keep_before c text
keep_before-skip c [] h = rw (h, h) refl
keep_before-skip c (d ∷ text) h = rw h refl

-- Taking slashes off the end does not bring one to the front.
skip_while-strip_end :
    (text : Text)
    → skip_while is_slash (strip_end (skip_while is_slash text))
      ≡ strip_end (skip_while is_slash text)
skip_while-strip_end [] = refl
skip_while-strip_end (c ∷ text) =
    let rest = skip_while-strip_end text in
    elim (Bool-cases (is_slash c)) [
      | inl here ↦ rw here rest
      | inr other ↦ rw other (keep_before-skip c (strip_end text) other)
    ]

-- The part of the parser behind the scheme.
from_cursor : Text → Option Target
from_cursor cursor = strchr cursor slash >>= λ found.
    guard (valid_part bucket_max (take (length cursor - length found) cursor))
    >> (guard (valid_part root_max (strip_end (skip_while is_slash (drop 1 found))))
        >> some (record {
          bucket = take (length cursor - length found) cursor;
          database_root = strip_end (skip_while is_slash (drop 1 found));
        }))

parse_lem : (value : Text) → parse value ≡ (behind_scheme value >>= from_cursor)
unfolding parse from_cursor
parse_lem value = refl

from_cursor-IsNormal :
    (cursor : Text) (target : Target) → from_cursor cursor ≡ some target → IsNormal target
unfolding from_cursor
from_cursor-IsNormal cursor target h = elim (Option-cases (strchr cursor slash)) [
  | inl no_slash ↦ absurd (cc (rw no_slash at h))
  | inr (found, at) ↦
      let bucket = take (length cursor - length found) cursor in
      let root = strip_end (skip_while is_slash (drop 1 found)) in
      let h' = rw at at h in
      let valid : valid_part bucket_max bucket ≡ true = ground arith in
      let valid' : valid_part root_max root ≡ true = ground arith in
      let same : record { bucket = bucket; database_root = root } ≡ target =
        cc (rw (valid, valid') at h') in
      subst IsNormal same (record {
        bucket_valid = valid;
        root_valid = valid';
        bucket_plain = before_slash cursor found at;
        root_starts = skip_while-strip_end (drop 1 found);
        root_ends = strip_end_idem (skip_while is_slash (drop 1 found));
      })
]

-- Whatever text is accepted, the target is in normal form: the bucket has no slash, the root has none
-- at its ends, both have a size from one to their limit, and neither has a query or a fragment.
pub parse-IsNormal : (value : Text) (target : Target) → parse value ≡ some target → IsNormal target
parse-IsNormal value target h = elim (Option-cases (behind_scheme value)) [
  | inl no_scheme ↦
      absurd (cc (ap (λ o. o >>= from_cursor) (sym no_scheme) ∙ sym (parse_lem value) ∙ h))
  | inr (cursor, at) ↦
      from_cursor-IsNormal cursor target
        (ap (λ o. o >>= from_cursor) (sym at) ∙ sym (parse_lem value) ∙ h)
]

from_cursor_normal :
    (target : Target)
    → IsNormal target
    → from_cursor (target.bucket ++ slash ∷ target.database_root) ≡ some target
unfolding from_cursor
from_cursor_normal target is =
    let bucket = target.bucket in
    let root = target.database_root in
    let found = strchr-append slash bucket root is.bucket_plain in
    let size : length (bucket ++ slash ∷ root) - length (slash ∷ root) ≡ length bucket =
      omega (arith, length-append bucket (slash ∷ root)) in
    let taken = take-append (length bucket) bucket (slash ∷ root) refl in
    rw (found, size, taken, is.bucket_valid, is.root_starts, is.root_ends, is.root_valid) refl

-- A target in normal form is parsed from its canonical text, and the same text with the other scheme
-- gives it too; so what was parsed once is parsed from its canonical text again.
pub parse-identity :
    (target : Target)
    → IsNormal target
    → (parse (identity target) ≡ some target)
      × (parse (codes "otsardb+s3://" ++ (target.bucket ++ slash ∷ target.database_root))
          ≡ some target)
unfolding behind_scheme
parse-identity target is = (
  parse_lem (identity target) ∙ from_cursor_normal target is,
  parse_lem (codes "otsardb+s3://" ++ (target.bucket ++ slash ∷ target.database_root))
      ∙ from_cursor_normal target is,
)

-- A target that was parsed has an identity of 51 bytes, which fit the field of an identifier.
pub database_id-parse :
    (value : Text) (target : Target)
    → parse value ≡ some target
    → (id : Text) × (database_id target ≡ some id) × (length id ≡ 51)
unfolding database_id
database_id-parse value target h =
    let is = parse-IsNormal value target h in
    let bucket = is.bucket_valid in
    let root = is.root_valid in
    let digest = hex_data (identity target) in
    let size = length-take 48 digest in
    let whole = length-hex_data (identity target) in
    let given : not (length target.bucket == 0 || length target.database_root == 0) ≡ true =
      ground arith in
    let fits : (leb (length target.bucket) bucket_max && leb (length target.database_root) root_max)
        ≡ true =
      ground arith in
    (codes "db-" ++ take 48 digest, rw (given, fits) refl, omega arith)
