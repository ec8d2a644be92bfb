-- ===== src/CommitManifest/Segments.antt =====
-- src/storage/commit_manifest.c: the array of the segments is read back as it was written.
use otsardb.Base.{
  ℕ, zero, suc, ◌≤◌, ◌<◌, ◌≡◌, refl, ap, ◌∙◌, true, false, some, List, [], ◌∷◌, ◌++◌, leb, length,
  arith, All, append_assoc,
}
use otsardb.Text.{Text}
use otsardb.CommitManifest.{SegmentRef, max_segments, page_set_valid, print_entry}
use otsardb.CommitManifest.Parse.{parse_segment, parse_segments}
use otsardb.CommitManifest.Written.{print_pages, print_segment, print_segments}
use otsardb.CommitManifest.EntryFields.{
  EntryFits, parse_entry-print_entry, parse_page_set-print_pages,
}

parse_segment-print_segment :
    (format_version database_size_pages : ℕ) (ref : SegmentRef) (rest : Text)
    → leb 4 format_version ≡ true
    → EntryFits ref
    → page_set_valid database_size_pages ref ≡ true
    → parse_segment format_version database_size_pages (print_segment true ref ++ rest)
      ≡ some (ref, rest)
unfolding parse_segment
parse_segment-print_segment format_version database_size_pages ref rest current fits valid =
    let paged = print_pages true ref ++ 125 ∷ rest in
    let shape : print_segment true ref ++ rest ≡ print_entry ref ++ paged = simp append_assoc in
    ap (parse_segment format_version database_size_pages) shape
    ∙ rw
        (
          parse_entry-print_entry ref paged fits refl,
          parse_page_set-print_pages format_version database_size_pages ref rest current fits valid,
        )
        refl

abbrev AllFit : ℕ → List SegmentRef → Type 0
AllFit database_size_pages refs =
    All (λ ref. EntryFits ref × (page_set_valid database_size_pages ref ≡ true)) refs

segments_read :
    (left format_version database_size_pages : ℕ) (ref : SegmentRef) (refs : List SegmentRef)
    (rest : Text)
    → leb 4 format_version ≡ true
    → AllFit database_size_pages (ref ∷ refs)
    → length refs < left
    → parse_segments left format_version database_size_pages
        (print_segment true ref ++ (print_segments true false refs ++ 93 ∷ rest))
      ≡ some (ref ∷ refs)
unfolding parse_segments
segments_read zero format_version database_size_pages ref refs rest current fit room =
    absurd (omega arith)
segments_read (suc left) format_version database_size_pages ref [] rest current fit room =
    rw
      (parse_segment-print_segment format_version database_size_pages ref (93 ∷ rest) current
        fit.0.0 fit.0.1)
      refl
segments_read (suc left) format_version database_size_pages ref (next ∷ refs) rest current fit
      room =
    let more = print_segment true next ++ (print_segments true false refs ++ 93 ∷ rest) in
    let shape : print_segments true false (next ∷ refs) ++ 93 ∷ rest ≡ 44 ∷ more =
      ap (λ t. 44 ∷ t)
        (append_assoc (print_segment true next) (print_segments true false refs) (93 ∷ rest)) in
    let others =
      segments_read left format_version database_size_pages next refs rest current fit.1
        (omega arith) in
    ap
      (λ t.
        parse_segments (suc left) format_version database_size_pages (print_segment true ref ++ t))
      shape
    ∙ rw
        (
          parse_segment-print_segment format_version database_size_pages ref (44 ∷ more) current
              fit.0.0 fit.0.1,
          others,
        )
        refl

-- From format 4 on, the array of one to 128 segments is read back as it was written, where each
-- passes the tests of the encoder on its pages and has at most 1,000,000 of them, each of 32 bits;
-- its key has 1 to 128 bytes and its hash 64, and neither has a quote; its size fits 64 bits; and
-- if it has offsets, they fit 64 bits and are as many as its pages.
pub parse_segments-print_segments :
    (format_version database_size_pages : ℕ) (refs : List SegmentRef) (rest : Text)
    → leb 4 format_version ≡ true
    → All (λ ref. EntryFits ref × (page_set_valid database_size_pages ref ≡ true)) refs
    → 1 ≤ length refs
    → length refs ≤ max_segments
    → parse_segments max_segments format_version database_size_pages
        (print_segments true true refs ++ 93 ∷ rest)
      ≡ some refs
parse_segments-print_segments format_version database_size_pages [] rest current fit given room =
    absurd (omega arith)
parse_segments-print_segments format_version database_size_pages (ref ∷ refs) rest current fit given
      room =
    ap (parse_segments max_segments format_version database_size_pages)
      (append_assoc (print_segment true ref) (print_segments true false refs) (93 ∷ rest))
    ∙ segments_read max_segments format_version database_size_pages ref refs rest current fit
        (omega arith)
