-- ===== src/CommitManifest/EntryFields.antt =====
-- src/storage/commit_manifest.c: one entry of the segments, with its pages, is read back as it was written.
use otsardb.Base.{
  ℕ, ◌+◌, ◌-◌, ◌≤◌, ◌<◌, ◌^◌, ◌≡◌, refl, ap, ◌∙◌, true, ◌&&◌, ◌||◌, Option, none, some, List, [],
  ◌∷◌, ◌++◌, not, ltb, leb, ◌==◌, length, arith, All, append_assoc, drop, if◌then◌else◌, true_both,
  ==_refl, Bool-cases, inl, inr,
}
use otsardb.Text.{Text, codes, quote, decimal}
use otsardb.Text.Search.{Lacks}
use otsardb.Text.Decimal.{Ends, skip_while-decimal}
use otsardb.Text.Scan.{is_blank}
use otsardb.Text.ReadBack.{until_quote-append}
use otsardb.CommitManifest.{
  SegmentRef, max_list_entries, pages_list_valid, frame_offsets_valid, page_set_valid, print_entry,
  written_offsets,
}
use otsardb.CommitManifest.Parse.{
  all_u32, parse_u32_list, array_or_null, parse_offsets, parse_page_set, parse_entry,
}
use otsardb.CommitManifest.Written.{print_array, print_offsets, print_pages}
use otsardb.CommitManifest.Lists.{parse_u64-decimal, parse_u64_list-print_array}

abbrev OffsetsFit : ℕ → Option (List ℕ) → Type 0
OffsetsFit count none = Unit {0}
OffsetsFit count (some offsets) = All (λ x. x < 2 ^ 64) offsets × (length offsets ≡ count)

-- What an entry of the program holds: texts without quotes that fit their arrays, numbers that fit their
-- types, and an offset for each page where there are offsets.
pub record EntryFits (ref : SegmentRef) : Type 0 where
  pub key_plain : Lacks quote ref.key
  pub key_given : 1 ≤ length ref.key
  pub key_size : length ref.key ≤ 128
  pub sha256_plain : Lacks quote ref.sha256
  pub sha256_size : length ref.sha256 ≡ 64
  pub size_range : ref.size < 2 ^ 64
  pub pages_range : All (λ page. page < 2 ^ 32) ref.pages
  pub pages_count : length ref.pages ≤ max_list_entries
  pub offsets_fit : OffsetsFit (length ref.pages) ref.frame_offsets

wider : (xs : List ℕ) → All (λ x. x < 2 ^ 32) xs → All (λ x. x < 2 ^ 64) xs
wider [] h = tt
wider (x ∷ xs) h = (omega (arith, h.0), wider xs h.1)

all_u32_lem : (xs : List ℕ) → All (λ x. x < 2 ^ 32) xs → all_u32 xs ≡ true
all_u32_lem [] h = refl
all_u32_lem (x ∷ xs) h =
    let small : not (ltb (2 ^ 32 - 1) x) ≡ true = ground (arith, h.0) in
    rw small (all_u32_lem xs h.1)

parse_u32_list-print_array :
    (xs : List ℕ) (rest : Text)
    → All (λ x. x < 2 ^ 32) xs
    → length xs ≤ max_list_entries
    → parse_u32_list (drop 1 (print_array xs ++ rest)) ≡ some (xs, rest)
unfolding parse_u32_list
parse_u32_list-print_array xs rest range room =
    rw (parse_u64_list-print_array xs rest (wider xs range) room, all_u32_lem xs range) refl

pub parse_entry-print_entry :
    (ref : SegmentRef) (rest : Text)
    → EntryFits ref
    → Ends rest
    → parse_entry (print_entry ref ++ rest) ≡ some (ref.key, ref.sha256, ref.size, rest)
unfolding parse_entry print_entry
parse_entry-print_entry ref rest fits ends =
    let size_text = codes ",\"size\":" ++ (decimal ref.size ++ rest) in
    let sha_text = codes ",\"sha256\":\"" ++ (ref.sha256 ++ quote ∷ size_text) in
    let whole = codes "{\"key\":\"" ++ (ref.key ++ quote ∷ sha_text) in
    let shape : print_entry ref ++ rest ≡ whole = simp append_assoc in
    let key_given = fits.key_given in
    let key_size = fits.key_size in
    let key_fine : not (length ref.key == 0 || leb (128 + 1) (length ref.key)) ≡ true =
      ground arith in
    let sha_fine : (length ref.sha256 == 64) ≡ true = ap (λ n. n == 64) fits.sha256_size in
    let skipped = skip_while-decimal is_blank ref.size rest fits.size_range (λ d k. ground arith) in
    ap parse_entry shape
    ∙ rw
        (
          until_quote-append ref.key sha_text fits.key_plain,
          key_fine,
          until_quote-append ref.sha256 size_text fits.sha256_plain,
          sha_fine,
          skipped,
          parse_u64-decimal ref.size rest fits.size_range ends,
        )
        refl

array_given : (xs : List ℕ) → not (length xs == 0) ≡ true → array_or_null xs ≡ some xs
array_given [] h = absurd (cc h)
array_given (x ∷ xs) h = refl

parse_offsets-print_offsets :
    (offsets : Option (List ℕ)) (pages : List ℕ) (size : ℕ) (rest : Text)
    → OffsetsFit (length pages) offsets
    → length pages ≤ max_list_entries
    → elim offsets [
      | none ↦ true
      | some xs ↦ not (length pages == 0) && frame_offsets_valid xs size
    ]
      ≡ true
    → parse_offsets
        (length pages)
        size
        (print_offsets (if ltb 0 (length pages) then offsets else none) ++ 125 ∷ rest)
      ≡ some (offsets, 125 ∷ rest)
unfolding parse_offsets
parse_offsets-print_offsets none pages size rest fit room h =
    elim (Bool-cases (ltb 0 (length pages))) [
      | inl given ↦ rw given refl
      | inr empty ↦ rw empty refl
    ]
parse_offsets-print_offsets (some offsets) pages size rest fit room h =
    let (given, valid) = true_both (not (length pages == 0)) (frame_offsets_valid offsets size) h in
    let positive : ltb 0 (length pages) ≡ true = ground arith in
    let same : (length offsets == length pages) ≡ true =
      ap (λ n. n == length pages) fit.1 ∙ ==_refl (length pages) in
    let nonempty : not (length offsets == 0) ≡ true = ap (λ n. not (n == 0)) fit.1 ∙ given in
    let read = parse_u64_list-print_array offsets (125 ∷ rest) fit.0 (omega (arith, fit.1)) in
    rw (positive, read, same, valid, array_given offsets nonempty) refl

pub parse_page_set-print_pages :
    (format_version database_size_pages : ℕ) (ref : SegmentRef) (rest : Text)
    → leb 4 format_version ≡ true
    → EntryFits ref
    → page_set_valid database_size_pages ref ≡ true
    → parse_page_set format_version database_size_pages ref.size
        (print_pages true ref ++ 125 ∷ rest)
      ≡ some (ref.pages, ref.frame_offsets, 125 ∷ rest)
unfolding parse_page_set page_set_valid
parse_page_set-print_pages format_version database_size_pages ref rest current fits valid =
    let (list_valid, offsets_valid) =
      true_both (pages_list_valid ref.pages database_size_pages)
        (elim ref.frame_offsets [
          | none ↦ true
          | some offsets ↦ not (length ref.pages == 0) && frame_offsets_valid offsets ref.size
        ])
        valid in
    let tail = print_offsets (written_offsets ref) ++ 125 ∷ rest in
    let whole = codes ",\"pages\":" ++ (print_array ref.pages ++ tail) in
    let shape : print_pages true ref ++ 125 ∷ rest ≡ whole = simp append_assoc in
    let count = fits.pages_count in
    let room : not (ltb (2 ^ 32 - 1) (length ref.pages)) ≡ true = ground (arith, count) in
    ap (parse_page_set format_version database_size_pages ref.size) shape
    ∙ rw
        (
          current,
          parse_u32_list-print_array ref.pages tail fits.pages_range fits.pages_count,
          room,
          parse_offsets-print_offsets ref.frame_offsets ref.pages ref.size rest fits.offsets_fit
              fits.pages_count offsets_valid,
          list_valid,
        )
        refl
