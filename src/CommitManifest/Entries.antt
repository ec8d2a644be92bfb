-- ===== src/CommitManifest/Entries.antt =====
-- src/storage/commit_manifest.c: the entries that the decoder reads pass the tests of the encoder.
use otsardb.Base.{
  ℕ, zero, suc, ◌≡◌, refl, ap, sym, ◌∙◌, Bool, true, false, ◌&&◌, ◌||◌, Option, none, some, List,
  [], ◌∷◌, leb, not, ◌==◌, length, arith, Bool-cases, Option-cases, inl, inr, drop,
}
use otsardb.Text.{Text, codes, strstr}
use otsardb.Text.Scan.{
  skip_blanks, head_is, skip_char, skip_marker, until_quote, parse_u64, quoted_value, behind_key,
}
use otsardb.Journal.{string_pattern}
use otsardb.CommitManifest.{
  SegmentRef, sha256_hex_size, max_segments, is_empty, pages_list_valid, frame_offsets_valid,
  page_set_valid, segment_valid, all_valid,
}
use otsardb.CommitManifest.Parse.{
  extract_string, parse_u64_list, parse_u32_list, array_or_null, offsets_marker, parse_offsets,
  parse_page_set, parse_entry, parse_segment, parse_segments, extract_segments,
}

array_or_null_valid :
    (xs : List ℕ) (count size : ℕ) (offsets : Option (List ℕ))
    → length xs ≡ count
    → frame_offsets_valid xs size ≡ true
    → array_or_null xs ≡ offsets
    → elim offsets [ none ↦ true | some ys ↦ not (count == 0) && frame_offsets_valid ys size ]
      ≡ true
array_or_null_valid [] count size none h k e = refl
array_or_null_valid [] count size (some ys) h k e = absurd (cc e)
array_or_null_valid (x ∷ xs) count size none h k e = absurd (cc e)
array_or_null_valid (x ∷ xs) count size (some ys) h k e =
    let given : not (count == 0) ≡ true = ground arith in
    rw given (ap (λ o. elim o [ none ↦ true | some ys ↦ frame_offsets_valid ys size ]) (sym e) ∙ k)

parse_offsets_valid :
    (count size : ℕ) (p q : Text) (offsets : Option (List ℕ))
    → parse_offsets count size p ≡ some (offsets, q)
    → elim offsets [ none ↦ true | some xs ↦ not (count == 0) && frame_offsets_valid xs size ]
      ≡ true
unfolding parse_offsets
parse_offsets_valid count size p q none h = refl
parse_offsets_valid count size p q (some ys) h =
    elim (Option-cases (parse_u64_list (drop (length offsets_marker) p))) [
      | inl fails ↦ ground arith
      | inr ((xs, r), e) ↦ ground (arith, array_or_null_valid xs count size (some ys))
    ]

parse_page_set_valid :
    (format pages_max size : ℕ) (p q : Text) (pages : List ℕ) (offsets : Option (List ℕ))
    → parse_page_set format pages_max size p ≡ some (pages, offsets, q)
    → leb 4 format ≡ true
    → (pages_list_valid pages pages_max ≡ true)
      × (elim offsets [
        | none ↦ true
        | some xs ↦ not (length pages == 0) && frame_offsets_valid xs size
      ]
          ≡ true)
unfolding parse_page_set
parse_page_set_valid format pages_max size p q pages offsets h paged =
    elim (Option-cases (skip_marker (codes ",\"pages\":[") p)) [
      | inl fails ↦ ground arith
      | inr (r, e) ↦ elim (Option-cases (parse_u32_list r)) [
        | inl fails ↦ ground arith
        | inr ((xs, s), e') ↦ elim (Option-cases (parse_offsets (length xs) size s)) [
          | inl fails ↦ ground arith
          | inr ((os, t), e'') ↦ ground (arith, parse_offsets_valid (length xs) size s t os e'')
        ]
      ]
    ]

pub is_empty_lem : (text : Text) → not (length text == 0) ≡ true → is_empty text ≡ false
is_empty_lem [] h = absurd (cc h)
is_empty_lem (c ∷ text) h = refl

abbrev is_named : Text → Text → Bool
is_named key sha256 = not (is_empty key || not (length sha256 == sha256_hex_size))

parse_entry-is_named :
    (p q key sha256 : Text) (size : ℕ)
    → parse_entry p ≡ some (key, sha256, size, q)
    → is_named key sha256 ≡ true
unfolding parse_entry
parse_entry-is_named p q key sha256 size h = elim (Option-cases (skip_char 123 (skip_blanks p))) [
  | inl fails ↦ ground arith
  | inr (p1, e1) ↦ elim (Option-cases (skip_marker (codes "\"key\":\"") p1)) [
    | inl fails ↦ ground arith
    | inr (p2, e2) ↦ elim (Option-cases (until_quote p2)) [
      | inl fails ↦ ground arith
      | inr ((k, p3), e3) ↦ elim (Option-cases (skip_marker (codes ",\"sha256\":\"") p3)) [
        | inl fails ↦ ground arith
        | inr (p4, e4) ↦ elim (Option-cases (until_quote p4)) [
          | inl fails ↦ ground arith
          | inr ((sha, p5), e5) ↦ elim (Option-cases (skip_marker (codes ",\"size\":") p5)) [
            | inl fails ↦ ground arith
            | inr (p6, e6) ↦ elim (Option-cases (parse_u64 (skip_blanks p6))) [
              | inl fails ↦ ground arith
              | inr ((n, p7), e7) ↦ ground (arith, is_empty_lem k)
            ]
          ]
        ]
      ]
    ]
  ]
]

parse_segment_valid :
    (format pages_max : ℕ) (p q : Text) (ref : SegmentRef)
    → parse_segment format pages_max p ≡ some (ref, q)
    → segment_valid format pages_max ref ≡ true
unfolding parse_segment segment_valid page_set_valid
parse_segment_valid format pages_max p q ref h = elim (Option-cases (parse_entry p)) [
  | inl fails ↦ ground arith
  | inr ((key, sha256, size, r), e) ↦ elim (Option-cases (parse_page_set format pages_max size r)) [
    | inl fails ↦ ground arith
    | inr ((pages, offsets, s), e') ↦
        let named = parse_entry-is_named p r key sha256 size e in
        let valid = parse_page_set_valid format pages_max size r s pages offsets e' in
        ground (arith, named, valid)
  ]
]

parse_segments_valid :
    (left format pages_max : ℕ) (p : Text) (refs : List SegmentRef)
    → parse_segments left format pages_max p ≡ some refs
    → all_valid (segment_valid format pages_max) refs ≡ true
unfolding parse_segments
parse_segments_valid zero format pages_max p refs h = elim (Bool-cases (head_is 93 p)) [
  | inl ends ↦ ground arith
  | inr goes_on ↦ ground arith
]
parse_segments_valid (suc left) format pages_max p refs h =
    elim (Option-cases (parse_segment format pages_max p)) [
      | inl fails ↦ ground arith
      | inr ((ref, q), e) ↦
          let valid = parse_segment_valid format pages_max p q ref e in
          let next = drop 1 (skip_blanks q) in
          elim (Option-cases (parse_segments left format pages_max next)) [
            | inl fails ↦ ground (arith, valid)
            | inr (others, e') ↦
                ground (arith, valid, parse_segments_valid left format pages_max next others e')
          ]
    ]

quoted_value_given :
    (cap : ℕ) (p text : Text) → quoted_value false cap p ≡ some text → is_empty text ≡ false
unfolding quoted_value
quoted_value_given cap p text h = elim (Option-cases (until_quote p)) [
  | inl fails ↦ ground arith
  | inr ((value, rest), e) ↦ ground (arith, is_empty_lem value)
]

pub extract_string_given :
    (json name : Text) (cap : ℕ) (text : Text)
    → extract_string json name cap false ≡ some text
    → is_empty text ≡ false
unfolding extract_string
extract_string_given json name cap text h =
    elim (Option-cases (behind_key json (string_pattern name))) [
      | inl fails ↦ ground arith
      | inr (p, e) ↦ quoted_value_given cap p text (rw (extract_string, e) at h)
    ]

pub extract_segments_valid :
    (json : Text) (format pages_max : ℕ) (refs : List SegmentRef)
    → extract_segments json format pages_max ≡ some refs
    → all_valid (segment_valid format pages_max) refs ≡ true
unfolding extract_segments
extract_segments_valid json format pages_max refs h =
    elim (Option-cases (strstr json (codes "\"segments\":["))) [
      | inl fails ↦ ground arith
      | inr (p, e) ↦
          parse_segments_valid max_segments format pages_max
            (drop (length (codes "\"segments\":[")) p) refs (rw (extract_segments, e) at h)
    ]
