-- ===== src/CommitManifest/Accepted.antt =====
-- src/storage/commit_manifest.c: the decoder returns nothing that the encoder refuses.
use otsardb.Base.{
  ℕ, ◌+◌, ◌-◌, ◌^◌, ◌%◌, ◌≡◌, refl, ap, Bool, true, false, ◌||◌, some, List, [], ◌∷◌, leb, ltb, not,
  ◌==◌, ◌>>=◌, ◌>>◌, guard, length, arith, Bool-cases, Option-cases, inl, inr, subst, bind_some,
  guard-some, both_true, true_both,
}
use otsardb.Text.{Text, codes, cstr}
use otsardb.CommitManifest.{
  SegmentRef, Manifest, sha256_hex_size, max_segments, is_empty, format_allowed,
  manifest_parent_is_valid, segment_valid, all_valid, manifest_segments_valid, encodable,
}
use otsardb.CommitManifest.Parse.{extract_string, extract_segments}
use otsardb.CommitManifest.Decode.{
  extract_tail, flat_segments, all_named, checksum_valid, Numbers, Ids, extract_numbers,
  extract_ids, manifest_of, numbers_valid, accept, decode_tail, decode_fields, decode_numbers,
  decode_text, decode_json,
}
use otsardb.CommitManifest.Entries.{extract_segments_valid, extract_string_given}

-- Entries without page sets need no more than their names.
all_named_valid :
    (format pages_max : ℕ) (refs : List SegmentRef)
    → leb 4 format ≡ false
    → all_named refs ≡ true
    → all_valid (segment_valid format pages_max) refs ≡ true
unfolding segment_valid
all_named_valid format pages_max [] old h = refl
all_named_valid format pages_max (ref ∷ refs) old h =
    ground (arith, all_named_valid format pages_max refs old)

extract_tail_valid :
    (json : Text) (format pages_max : ℕ) (sha256 checksum : Text) (refs : List SegmentRef)
    → extract_tail json format pages_max ≡ some (sha256, refs, checksum)
    → all_valid (segment_valid (format % 2 ^ 32) pages_max) refs ≡ true
unfolding extract_tail
extract_tail_valid json format pages_max sha256 checksum refs h =
    let name = codes "parent_manifest_sha256" in
    elim (Bool-cases (leb 3 format)) [
      | inl segmented ↦ elim (Option-cases (extract_string json name (sha256_hex_size + 1) true)) [
        | inl fails ↦ ground arith
        | inr (sha, e) ↦ elim (Option-cases (extract_segments json (format % 2 ^ 32) pages_max)) [
          | inl fails ↦ ground arith
          | inr (listed, e') ↦
              let valid = extract_segments_valid json (format % 2 ^ 32) pages_max listed e' in
              elim (Option-cases (extract_string json (codes "post_apply_checksum") 17 true)) [
                | inl fails ↦ ground arith
                | inr (sum, e'') ↦ ground (arith, valid)
              ]
        ]
      ]
      | inr flat ↦ elim (Bool-cases (format == 2)) [
        | inl second ↦ elim (Option-cases (extract_string json name (sha256_hex_size + 1) true)) [
          | inl fails ↦ ground arith
          | inr (sha, e) ↦ ground arith
        ]
        | inr other ↦ ground arith
      ]
    ]

flat_segments_valid :
    (json : Text) (format pages_max : ℕ) (listed refs : List SegmentRef)
    → flat_segments json format listed ≡ some refs
    → all_valid (segment_valid (format % 2 ^ 32) pages_max) listed ≡ true
    → all_named refs ≡ true
    → all_valid (segment_valid (format % 2 ^ 32) pages_max) refs ≡ true
unfolding flat_segments
flat_segments_valid json format pages_max listed refs h valid named =
    elim (Bool-cases (format == 1 || format == 2)) [
      | inl flat ↦
          let old : leb 4 (format % 2 ^ 32) ≡ false = ground arith in
          all_named_valid (format % 2 ^ 32) pages_max refs old named
      | inr segmented ↦ ground (arith, valid)
    ]

record HasNames (ids : Ids) : Type 0 where
  database_id_given : is_empty ids.database_id ≡ false
  commit_id_given : is_empty ids.commit_id ≡ false

extract_ids-HasNames : (json : Text) (ids : Ids) → extract_ids json ≡ some ids → HasNames ids
unfolding extract_ids
extract_ids-HasNames json ids h =
    elim (Option-cases (extract_string json (codes "database_id") 64 false)) [
      | inl fails ↦ ground arith
      | inr (d, e) ↦ elim (Option-cases (extract_string json (codes "commit_id") 64 false)) [
        | inl fails ↦ ground arith
        | inr (c, e') ↦
            let d_given = extract_string_given json (codes "database_id") 64 d e in
            let c_given = extract_string_given json (codes "commit_id") 64 c e' in
            elim (Option-cases (extract_string json (codes "parent_commit_id") 64 true)) [
              | inl fails ↦ ground arith
              | inr (p, e'') ↦ record {
                database_id_given = ground arith;
                commit_id_given = ground arith;
              }
            ]
      ]
    ]

-- What the last tests of the decoder leave.
pub record Tested (m : Manifest) : Type 0 where
  counted : not (length m.segments == 0 || ltb max_segments (length m.segments)) ≡ true
  named : all_named m.segments ≡ true
  parent : manifest_parent_is_valid m ≡ true

pub accept-Tested : (m m' : Manifest) → accept m ≡ some m' → (m ≡ m') × Tested m
unfolding accept
accept-Tested m m' h =
    let (counted, h1) =
      guard-some (not (length m.segments == 0 || ltb max_segments (length m.segments)))
        (guard (all_named m.segments)
          >> (guard (checksum_valid m.post_apply_checksum)
              >> (guard (manifest_parent_is_valid m) >> some m)))
        m' h in
    let (named, h2) =
      guard-some (all_named m.segments)
        (guard (checksum_valid m.post_apply_checksum)
          >> (guard (manifest_parent_is_valid m) >> some m))
        m' h1 in
    let (hex, h3) =
      guard-some (checksum_valid m.post_apply_checksum)
        (guard (manifest_parent_is_valid m) >> some m) m' h2 in
    let (parent, h4) = guard-some (manifest_parent_is_valid m) (some m) m' h3 in
    (cc h4, record { counted = counted; named = named; parent = parent })

negated : (b : Bool) → b ≡ false → not b ≡ true
negated b h = ap not h

manifest_of-encodable :
    (n : Numbers) (ids : Ids) (sha256 checksum : Text) (refs : List SegmentRef)
    → numbers_valid n ≡ true
    → HasNames ids
    → Tested (manifest_of n ids sha256 refs checksum)
    → all_valid (segment_valid (n.format % 2 ^ 32) n.database_size_pages) refs ≡ true
    → encodable (manifest_of n ids sha256 refs checksum) ≡ true
unfolding encodable manifest_segments_valid numbers_valid
manifest_of-encodable n ids sha256 checksum refs fields names tested valid =
    let m = manifest_of n ids sha256 refs checksum in
    let (format, sizes) = true_both (format_allowed (n.format % 2 ^ 32)) _ fields in
    let (page_size, generation) =
      true_both (not (n.page_size == 0 || ltb (2 ^ 32 - 1) n.page_size)) (not (n.generation == 0))
        sizes in
    let page_size_given : not (n.page_size == 0) ≡ true = ground arith in
    both_true _ _ format (
      both_true _ _ generation (
        both_true _ _ (negated _ names.database_id_given) (
          both_true _ _ (negated _ names.commit_id_given) (
            both_true _ _ page_size_given
              (both_true _ _ tested.parent (both_true _ _ tested.counted valid))))))

decode_tail-encodable :
    (json : Text) (n : Numbers) (ids : Ids) (tail : Text × List SegmentRef × Text) (m : Manifest)
    → decode_tail json n ids tail ≡ some m
    → HasNames ids
    → all_valid (segment_valid (n.format % 2 ^ 32) n.database_size_pages) tail.1 ≡ true
    → encodable m ≡ true
unfolding decode_tail
decode_tail-encodable json n ids (sha256, listed, checksum) m h names valid =
    let (fields, h1) =
      guard-some (numbers_valid n)
        (flat_segments json n.format listed
          >>= (λ refs. accept (manifest_of n ids sha256 refs checksum)))
        m h in
    let (refs, e, h2) =
      bind_some (flat_segments json n.format listed)
        (λ refs. accept (manifest_of n ids sha256 refs checksum)) m h1 in
    let (same, tested) = accept-Tested (manifest_of n ids sha256 refs checksum) m h2 in
    let all =
      flat_segments_valid json n.format n.database_size_pages listed refs e valid tested.named in
    subst (λ x. encodable x ≡ true) same
      (manifest_of-encodable n ids sha256 checksum refs fields names tested all)

-- What the decoder returns passes all tests of the encoder.
pub decode_json-encodable :
    (json : List ℕ) (m : Manifest) → decode_json json ≡ some m → encodable m ≡ true
unfolding decode_json decode_text decode_numbers decode_fields
decode_json-encodable json m h =
    let text = cstr json in
    let (given, h1) = guard-some (not (length json == 0)) (decode_text text) m h in
    let (n, e, h2) = bind_some (extract_numbers text) (decode_numbers text) m h1 in
    let (ids, e', h3) = bind_some (extract_ids text) (decode_fields text n) m h2 in
    let (tail, e'', h4) =
      bind_some (extract_tail text n.format n.database_size_pages) (decode_tail text n ids) m h3 in
    decode_tail-encodable text n ids tail m h4 (extract_ids-HasNames text ids e')
      (extract_tail_valid text n.format n.database_size_pages tail.0 tail.2 tail.1 e'')
