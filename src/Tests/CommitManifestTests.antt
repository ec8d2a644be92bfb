-- ===== src/Tests/CommitManifestTests.antt =====
-- Tests of src/storage/commit_manifest.c.
use otsardb.Base.{
  ℕ, ◌<◌, ◌≡◌, ◌≢◌, refl, true, none, some, [], ◌∷◌, ◌++◌, arith, Option, ◌>>=◌, length,
}
use otsardb.Text.{Text, codes}
use otsardb.CommitManifest.{SegmentRef, Manifest, encodable, page_set_valid}
use otsardb.Text.Write.{int_max}
use otsardb.Sha256.{hex_data}
use otsardb.CommitManifest.Encode.{encode_segments, encode_flat, encode_json}
use otsardb.CommitManifest.Written.{print_document}
use otsardb.CommitManifest.Needed.{PagesFit, encode_json-print_document}
use otsardb.CommitManifest.ListEnds.{parse_list-ne-out_of_fuel}
use otsardb.CommitManifest.Accepted.{decode_json-encodable}
use otsardb.CommitManifest.Parse.{out_of_fuel, parse_list, parse_u64_list}
use otsardb.CommitManifest.Decode.{decode_json}
use otsardb.CommitManifest.Parse.{parse_segments}
use otsardb.CommitManifest.Written.{print_segments}
use otsardb.CommitManifest.EntryFields.{EntryFits}
use otsardb.CommitManifest.Segments.{parse_segments-print_segments}

abbrev sha : Text
sha = codes "0123456789abcdef0123456789abcdef0123456789abcdef0123456789abcdef"

abbrev paged : SegmentRef
paged = record {
  key = codes "segments/sha256/01/a.otsseg";
  sha256 = sha;
  size = 900;
  pages = 1 ∷ 3 ∷ [];
  frame_offsets = some (64 ∷ 480 ∷ []);
}

abbrev unpaged : SegmentRef
unpaged = record {
  key = codes "segments/sha256/01/b.otsseg";
  sha256 = sha;
  size = 77;
  pages = [];
  frame_offsets = none;
}

abbrev child : Manifest
child = record {
  format_version = 4;
  generation = 8;
  parent_generation = 7;
  page_size = 4096;
  database_size_pages = 3;
  database_id = codes "d";
  commit_id = codes "c8";
  parent_commit_id = codes "c7";
  parent_manifest_sha256 = sha;
  segments = paged ∷ unpaged ∷ [];
  post_apply_checksum = codes "00ffaa1122334455";
}

child_encodes : (encode_segments child >>= decode_json) ≡ some child
unfolding encode_segments decode_json otsardb.Text.decimal otsardb.Text.cstr otsardb.Text.strtoull
child_encodes = refl

-- Spaces are passed by, and a comma may end the list.
list_parsed : parse_u64_list (codes " 1 ,20, 3,]x") ≡ some (1 ∷ 20 ∷ 3 ∷ [], codes "x")
unfolding parse_u64_list otsardb.Text.strtoull
list_parsed = refl

child-encodable : encodable child ≡ true
unfolding encodable
child-encodable = refl

child_size : length (print_document child) < int_max
unfolding otsardb.Text.decimal otsardb.CommitManifest.print_header
    otsardb.CommitManifest.print_entry otsardb.CommitManifest.Encode.print_checksum
child_size = omega arith

child_pages : PagesFit child.segments
child_pages = ((omega arith, (omega arith, tt)), (tt, tt))

encode_json-print_document_example :
    encode_json child ≡ some (print_document child, hex_data (print_document child))
encode_json-print_document_example =
    encode_json-print_document child child-encodable (omega arith) child_pages child_size

child_decodes : decode_json (print_document child) ≡ some child
unfolding decode_json otsardb.Text.decimal otsardb.Text.cstr otsardb.Text.strtoull
    otsardb.CommitManifest.print_header otsardb.CommitManifest.print_entry
    otsardb.CommitManifest.Encode.print_checksum
child_decodes = refl

decode_json-encodable_example : encodable child ≡ true
decode_json-encodable_example = decode_json-encodable (print_document child) child child_decodes

-- A format that needs more than 32 bits is cut to 1, although the document lists its segments.
abbrev wide_format : Text
wide_format =
    codes "{\"otsardb_format\":4294967297,\"database_id\":\"d\",\"generation\":1,"
    ++ (codes "\"commit_id\":\"c\",\"parent_generation\":0,\"parent_commit_id\":\"\","
        ++ (codes "\"page_size\":512,\"database_size_pages\":1,\"segments\":["
            ++ (codes "{\"key\":\"k\",\"sha256\":\"" ++ (sha ++ codes "\",\"size\":1}]}"))))

abbrev format_of : Option Manifest → ℕ
format_of none = 0
format_of (some m) = m.format_version

cut_format : format_of (decode_json wide_format) ≡ 1
unfolding decode_json otsardb.Text.cstr otsardb.Text.strtoull
cut_format = refl

parse_list-ne-out_of_fuel_example : parse_list 100 0 (codes "7, 8]") ≢ out_of_fuel
parse_list-ne-out_of_fuel_example = parse_list-ne-out_of_fuel 100 0 (codes "7, 8]") (omega arith)

paged-EntryFits : EntryFits paged
paged-EntryFits = record {
  key_plain = omega arith;
  key_given = omega arith;
  key_size = omega arith;
  sha256_plain = omega arith;
  sha256_size = refl;
  size_range = omega arith;
  pages_range = (omega arith, (omega arith, tt));
  pages_count = omega arith;
  offsets_fit = ((omega arith, (omega arith, tt)), refl);
}

unpaged-EntryFits : EntryFits unpaged
unpaged-EntryFits = record {
  key_plain = omega arith;
  key_given = omega arith;
  key_size = omega arith;
  sha256_plain = omega arith;
  sha256_size = refl;
  size_range = omega arith;
  pages_range = tt;
  pages_count = omega arith;
  offsets_fit = tt;
}

paged-page_set_valid : page_set_valid 3 paged ≡ true
unfolding page_set_valid
paged-page_set_valid = refl

unpaged-page_set_valid : page_set_valid 3 unpaged ≡ true
unfolding page_set_valid
unpaged-page_set_valid = refl

parse_segments-print_segments_example :
    parse_segments 128 4 3 (print_segments true true (paged ∷ unpaged ∷ []) ++ codes "]}")
    ≡ some (paged ∷ unpaged ∷ [])
parse_segments-print_segments_example =
    parse_segments-print_segments 4 3 (paged ∷ unpaged ∷ []) (codes "}") refl
      ((paged-EntryFits, paged-page_set_valid), ((unpaged-EntryFits, unpaged-page_set_valid), tt))
      (omega arith) (omega arith)
