-- ===== src/CommitManifest/Parent.antt =====
-- src/storage/commit_manifest.c: the generation of the parent of a manifest that was decoded.
use otsardb.Base.{
  ℕ, ◌+◌, ◌-◌, ◌<◌, ◌^◌, ◌%◌, ◌≡◌, ◌≢◌, refl, ap, sym, subst, ◌∙◌, Bool, true, false, none, some,
  List, not, ◌==◌, ◌>>=◌, ◌>>◌, guard, length, arith, Option-cases, Bool-cases, inl, inr, bind_some,
  guard-some, some_eq, true_both, ==_iff, if◌then◌else◌, ltb,
}
use otsardb.Text.{
  Text, codes, cstr, scan_digits, starts_digit, sign, skip_while, is_space, read_number, strtoull,
}
use otsardb.Text.Scan.{skip_blanks, in_range, parse_u64, behind_key, head_is}
use otsardb.Journal.{u64_pattern}
use otsardb.CommitManifest.{
  SegmentRef, Manifest, format_allowed, is_empty, manifest_parent_is_valid, encodable,
}
use otsardb.CommitManifest.Parse.{extract_u64}
use otsardb.CommitManifest.Decode.{
  extract_tail, flat_segments, Numbers, Ids, extract_numbers, extract_ids, manifest_of,
  numbers_valid, accept, decode_tail, decode_fields, decode_numbers, decode_text, decode_json,
}
use otsardb.CommitManifest.Accepted.{accept-Tested, decode_json-encodable}

-- `strtoull` gives no number that needs more than 64 bits.
wrapped :
    (big minus : Bool) (value : ℕ)
    → (big ≡ false → value < 2 ^ 64)
    → (if big then 2 ^ 64 - 1 else if minus then (2 ^ 64 - value) % 2 ^ 64 else value) < 2 ^ 64
wrapped true minus value h = omega arith
wrapped false true value h = omega arith
wrapped false false value h = h refl

fits : (value : ℕ) → ltb (2 ^ 64 - 1) value ≡ false → value < 2 ^ 64
fits value h = ground arith

read_number_range :
    (s : Bool × Text) (value : ℕ) (end : Text) → read_number s ≡ some (value, end) → value < 2 ^ 64
unfolding read_number
read_number_range (minus, number) value end h =
    let n = (scan_digits number 0).0 in
    let wrap =
      if ltb (2 ^ 64 - 1) n then 2 ^ 64 - 1 else if minus then (2 ^ 64 - n) % 2 ^ 64 else n in
    let range = wrapped (ltb (2 ^ 64 - 1) n) minus n (fits n) in
    elim (Bool-cases (starts_digit number)) [
      | inl digit ↦
          let e =
            some_eq (wrap, (scan_digits number 0).1) (value, end)
              (sym (ap (λ b. if b then some (wrap, (scan_digits number 0).1) else none) digit)
                ∙ h) in
          subst (λ v. v < 2 ^ 64) (ap (λ p. p.0) e) range
      | inr other ↦
          absurd (
            cc
              (sym (ap (λ b. if b then some (wrap, (scan_digits number 0).1) else none) other) ∙ h))
    ]

parse_u64_range : (p : Text) (r : ℕ × Text) → parse_u64 p ≡ some r → r.0 < 2 ^ 64
unfolding parse_u64 strtoull
parse_u64_range p r h =
    let (plain, h1) =
      guard-some (not (head_is 45 p)) (strtoull p >>= (λ q. guard (in_range p) >> some (q.0, q.1)))
        r h in
    let (q, e, h2) = bind_some (strtoull p) (λ q. guard (in_range p) >> some (q.0, q.1)) r h1 in
    let (range, h3) = guard-some (in_range p) (some (q.0, q.1)) r h2 in
    subst (λ v. v < 2 ^ 64) (ap (λ x. x.0) (some_eq q r h3))
      (read_number_range (sign (skip_while is_space p)) q.0 q.1 e)

extract_u64_range :
    (json name : Text) (value : ℕ) → extract_u64 json name ≡ some value → value < 2 ^ 64
unfolding extract_u64
extract_u64_range json name value h =
    let (p, e, h1) =
      bind_some (behind_key json (u64_pattern name))
        (λ p. parse_u64 (skip_blanks p) >>= (λ r. some r.0)) value h in
    let (r, e', h2) = bind_some (parse_u64 (skip_blanks p)) (λ r. some r.0) value h1 in
    subst (λ v. v < 2 ^ 64) (some_eq r.0 value h2) (parse_u64_range (skip_blanks p) r e')

extract_numbers_range :
    (json : Text) (n : Numbers) → extract_numbers json ≡ some n → n.parent_generation < 2 ^ 64
unfolding extract_numbers
extract_numbers_range json n h = elim (Option-cases (extract_u64 json (codes "otsardb_format"))) [
  | inl fails ↦ ground arith
  | inr (a, e1) ↦ elim (Option-cases (extract_u64 json (codes "generation"))) [
    | inl fails ↦ ground arith
    | inr (b, e2) ↦ elim (Option-cases (extract_u64 json (codes "parent_generation"))) [
      | inl fails ↦ ground arith
      | inr (c, e3) ↦ elim (Option-cases (extract_u64 json (codes "page_size"))) [
        | inl fails ↦ ground arith
        | inr (d, e4) ↦
            let range = extract_u64_range json (codes "parent_generation") c e3 in
            elim (Option-cases (extract_u64 json (codes "database_size_pages"))) [
              | inl fails ↦ ground arith
              | inr (f, e5) ↦ ground (arith, range)
            ]
      ]
    ]
  ]
]

decode_tail_range :
    (json : Text) (n : Numbers) (ids : Ids) (tail : Text × List SegmentRef × Text) (m : Manifest)
    → decode_tail json n ids tail ≡ some m
    → n.parent_generation ≡ m.parent_generation
unfolding decode_tail
decode_tail_range json n ids (sha256, listed, checksum) m h =
    let (fields, h1) =
      guard-some (numbers_valid n)
        (flat_segments json n.format listed
          >>= (λ refs. accept (manifest_of n ids sha256 refs checksum)))
        m h in
    let (refs, e, h2) =
      bind_some (flat_segments json n.format listed)
        (λ refs. accept (manifest_of n ids sha256 refs checksum)) m h1 in
    ap (λ x. x.parent_generation) (accept-Tested (manifest_of n ids sha256 refs checksum) m h2).0

decode_json_range :
    (json : List ℕ) (m : Manifest) → decode_json json ≡ some m → m.parent_generation < 2 ^ 64
unfolding decode_json decode_text decode_numbers decode_fields
decode_json_range json m h =
    let text = cstr json in
    let (given, h1) = guard-some (not (length json == 0)) (decode_text text) m h in
    let (n, e, h2) = bind_some (extract_numbers text) (decode_numbers text) m h1 in
    let (ids, e', h3) = bind_some (extract_ids text) (decode_fields text n) m h2 in
    let (tail, e'', h4) =
      bind_some (extract_tail text n.format n.database_size_pages) (decode_tail text n ids) m h3 in
    subst (λ v. v < 2 ^ 64) (decode_tail_range text n ids tail m h4)
      (extract_numbers_range text n e)

-- What the test of the parent says where there is one.
next_generation :
    (parent generation : ℕ)
    → parent < 2 ^ 64
    → (parent + 1) % 2 ^ 64 ≡ generation
    → generation ≢ 0
    → parent + 1 ≡ generation
next_generation parent generation range h given = ground arith

otherwise : (b x y : Bool) → b ≡ false → (if b then x else y) ≡ true → y ≡ true
otherwise true x y e h = absurd (cc e)
otherwise false x y e h = h

parent_valid_next :
    (m : Manifest)
    → manifest_parent_is_valid m ≡ true
    → m.parent_generation ≢ 0
    → (m.parent_generation + 1) % 2 ^ 64 ≡ m.generation
unfolding manifest_parent_is_valid
parent_valid_next m h given = elim (Bool-cases (m.parent_generation == 0)) [
  | inl zero ↦ absurd (given ((==_iff m.parent_generation 0).0 zero))
  | inr other ↦
      let all = otherwise (m.parent_generation == 0) _ _ other h in
      (==_iff ((m.parent_generation + 1) % 2 ^ 64) m.generation).0 (true_both _ _ all).0
]

given_generation : (n : ℕ) → not (n == 0) ≡ true → n ≢ 0
given_generation n h = ground arith

-- The parent of a manifest that was decoded has the generation before.
pub decode_json-parent :
    (json : List ℕ) (m : Manifest)
    → decode_json json ≡ some m
    → m.parent_generation ≢ 0
    → m.parent_generation + 1 ≡ m.generation
unfolding encodable
decode_json-parent json m h given =
    let all = decode_json-encodable json m h in
    let (format, a) = true_both (format_allowed m.format_version) _ all in
    let (generation, b) = true_both (not (m.generation == 0)) _ a in
    let (database_id, c) = true_both (not (is_empty m.database_id)) _ b in
    let (commit_id, d) = true_both (not (is_empty m.commit_id)) _ c in
    let (page_size, f) = true_both (not (m.page_size == 0)) _ d in
    let (parent, g) = true_both (manifest_parent_is_valid m) _ f in
    next_generation m.parent_generation m.generation (decode_json_range json m h)
      (parent_valid_next m parent given) (given_generation m.generation generation)
