-- ===== src/CheckpointManifest/Json.antt =====
-- src/storage/checkpoint_manifest.c: the document of the pointer is read back as it was written.
use otsardb.Base.{
  ℕ, ◌≤◌, ◌<◌, ◌^◌, ◌≡◌, ◌≢◌, refl, ap, ◌∙◌, true, false, ◌==◌, leb, some, [], ◌∷◌, ◌++◌, length,
  drop, All-append, arith, not,
}
use otsardb.Text.{Text, codes, quote, strstr, decimal}
use otsardb.Text.Search.{Lacks, cstr_id}
use otsardb.Text.Decimal.{Ends, strtoull-decimal, skip_while-decimal, decimal-Lacks}
use otsardb.Text.Scan.{is_blank}
use otsardb.Text.ReadBack.{behind_key_lem, quoted_value-append}
use otsardb.Journal.{u64_pattern, string_pattern}
use otsardb.Journal.Json.{pass_number, pass_string}
use otsardb.CheckpointManifest.{extract_u64, extract_string}
use otsardb.CheckpointManifest.Pointer.{CheckpointPointer, print_pointer, ptr_decode}

-- What a pointer of the program holds: a number of 64 bits, and texts without quotes that are not empty
-- and fit their arrays.
pub record PointerFits (ptr : CheckpointPointer) : Type 0 where
  pub generation_range : ptr.covered_generation < 2 ^ 64
  pub database_id_plain : Lacks quote ptr.database_id
  pub sha256_plain : Lacks quote ptr.checkpoint_sha256
  pub key_plain : Lacks quote ptr.checkpoint_key
  pub database_id_bytes : Lacks 0 ptr.database_id
  pub sha256_bytes : Lacks 0 ptr.checkpoint_sha256
  pub key_bytes : Lacks 0 ptr.checkpoint_key
  pub database_id_given : 1 ≤ length ptr.database_id
  pub sha256_given : 1 ≤ length ptr.checkpoint_sha256
  pub key_given : 1 ≤ length ptr.checkpoint_key
  pub database_id_size : length ptr.database_id ≤ 63
  pub sha256_size : length ptr.checkpoint_sha256 ≤ 64
  pub key_size : length ptr.checkpoint_key ≤ 1023

number_behind :
    (json name found rest : Text) (n : ℕ)
    → not (leb 80 (length (u64_pattern name))) ≡ true
    → strstr json (u64_pattern name) ≡ some found
    → drop (length (u64_pattern name)) found ≡ decimal n ++ rest
    → n < 2 ^ 64
    → Ends rest
    → extract_u64 json name ≡ some n
unfolding extract_u64
number_behind json name found rest n fits e e' range ends =
    let behind = behind_key_lem json (u64_pattern name) found fits e in
    let skipped = skip_while-decimal is_blank n rest range (λ d k. ground arith) in
    rw (behind, e', skipped, strtoull-decimal n rest range ends) refl

text_behind :
    (json name found value rest : Text) (out_size : ℕ)
    → not (leb 80 (length (string_pattern name))) ≡ true
    → strstr json (string_pattern name) ≡ some found
    → drop (length (string_pattern name)) found ≡ value ++ quote ∷ rest
    → Lacks quote value
    → 1 ≤ length value
    → length value < out_size
    → extract_string json name out_size false ≡ some value
unfolding extract_string
text_behind json name found value rest out_size fits e e' plain given short =
    let behind = behind_key_lem json (string_pattern name) found fits e in
    rw (behind, e', quoted_value-append out_size value rest plain given short) refl

module _ (ptr : CheckpointPointer) (ok : PointerFits ptr) where
  abbrev behind_sha256 : Text
  behind_sha256 = codes "\",\"checkpoint_key\":\"" ++ (ptr.checkpoint_key ++ codes "\"}\n")

  abbrev behind_generation : Text
  behind_generation = codes ",\"checkpoint_sha256\":\"" ++ (ptr.checkpoint_sha256 ++ behind_sha256)

  abbrev behind_database_id : Text
  behind_database_id =
      codes "\",\"covered_generation\":" ++ (decimal ptr.covered_generation ++ behind_generation)

  abbrev front : Text
  front = codes "{\"otsardb_checkpoint_format\":1,\"database_id\":"

  abbrev json : Text
  json = front ++ quote ∷ (ptr.database_id ++ behind_database_id)

  json_lem : print_pointer ptr ≡ json
  unfolding print_pointer
  json_lem = refl

  format_read : extract_u64 json (codes "otsardb_checkpoint_format") ≡ some 1
  unfolding decimal
  format_read =
      number_behind json (codes "otsardb_checkpoint_format") (drop 1 json) (drop 30 json) 1 refl
        refl refl (omega arith) refl

  database_id_read : extract_string json (codes "database_id") 64 false ≡ some ptr.database_id
  database_id_read =
      let size = ok.database_id_size in
      text_behind json (codes "database_id") (drop 31 json) ptr.database_id
        (drop 1 behind_database_id) 64 refl refl refl ok.database_id_plain ok.database_id_given
        (omega arith)

  -- The searches for the keys behind the identifier.
  module _ (key pattern : Text) (plain : Lacks quote key) where
    abbrev sought : Text
    sought = quote ∷ (key ++ quote ∷ 58 ∷ pattern)

    reach_generation :
        ((x : Text) → strstr (front ++ quote ∷ x) sought ≡ strstr (quote ∷ x) sought)
        → strstr json sought ≡ strstr behind_database_id sought
    reach_generation h =
        pass_string key pattern plain front ptr.database_id (drop 2 behind_database_id) h
          ok.database_id_plain

    reach_sha256 :
        strstr json sought ≡ strstr behind_database_id sought
        → ((x : Text) → strstr (codes "\",\"covered_generation\":" ++ x) sought ≡ strstr x sought)
        → strstr json sought ≡ strstr behind_generation sought
    reach_sha256 h h' =
        h
        ∙ pass_number key pattern plain (codes "\",\"covered_generation\":") ptr.covered_generation
            behind_generation h'

    reach_key :
        strstr json sought ≡ strstr behind_generation sought
        → ((x : Text)
            → strstr (codes ",\"checkpoint_sha256\":" ++ quote ∷ x) sought
              ≡ strstr (quote ∷ x) sought)
        → strstr json sought ≡ strstr behind_sha256 sought
    reach_key h h' =
        h
        ∙ pass_string key pattern plain (codes ",\"checkpoint_sha256\":") ptr.checkpoint_sha256
            (drop 2 behind_sha256) h' ok.sha256_plain

  generation_read : extract_u64 json (codes "covered_generation") ≡ some ptr.covered_generation
  generation_read =
      let name = codes "covered_generation" in
      number_behind json name (drop 2 behind_database_id) behind_generation ptr.covered_generation
        refl (reach_generation name [] (omega arith) (λ x. refl)) refl ok.generation_range refl

  sha256_read :
      extract_string json (codes "checkpoint_sha256") 65 false ≡ some ptr.checkpoint_sha256
  sha256_read =
      let size = ok.sha256_size in
      let name = codes "checkpoint_sha256" in
      let pattern : Text = quote ∷ [] in
      text_behind json name (drop 1 behind_generation) ptr.checkpoint_sha256 (drop 1 behind_sha256)
        65 refl
        (reach_sha256 name pattern (omega arith)
          (reach_generation name pattern (omega arith) (λ x. refl)) (λ x. refl))
        refl ok.sha256_plain ok.sha256_given (omega arith)

  key_read : extract_string json (codes "checkpoint_key") 1024 false ≡ some ptr.checkpoint_key
  key_read =
      let size = ok.key_size in
      let name = codes "checkpoint_key" in
      let pattern : Text = quote ∷ [] in
      text_behind json name (drop 2 behind_sha256) ptr.checkpoint_key (codes "}\n") 1024 refl
        (reach_key name pattern (omega arith)
          (reach_sha256 name pattern (omega arith)
            (reach_generation name pattern (omega arith) (λ x. refl)) (λ x. refl))
          (λ x. refl))
        refl ok.key_plain ok.key_given (omega arith)

  join_bytes : (label text : Text) → Lacks 0 label → Lacks 0 text → Lacks 0 (label ++ text)
  join_bytes label text = All-append (λ d. d ≢ 0) label text

  json_bytes : Lacks 0 json
  json_bytes =
      join_bytes (codes "{\"otsardb_checkpoint_format\":1,\"database_id\":\"")
        (ptr.database_id ++ behind_database_id) (omega arith)
        (join_bytes ptr.database_id behind_database_id ok.database_id_bytes (
          join_bytes (codes "\",\"covered_generation\":")
            (decimal ptr.covered_generation ++ behind_generation) (omega arith)
            (join_bytes (decimal ptr.covered_generation) behind_generation
              (decimal-Lacks 0 ptr.covered_generation (omega arith))
              (join_bytes (codes ",\"checkpoint_sha256\":\"")
                (ptr.checkpoint_sha256 ++ behind_sha256) (omega arith)
                (join_bytes ptr.checkpoint_sha256 behind_sha256 ok.sha256_bytes (
                  join_bytes (codes "\",\"checkpoint_key\":\"")
                    (ptr.checkpoint_key ++ codes "\"}\n") (omega arith)
                    (join_bytes ptr.checkpoint_key (codes "\"}\n") ok.key_bytes (omega arith))))))))

  decoded : ptr_decode json ≡ some ptr
  unfolding ptr_decode
  decoded =
      let some_bytes : not (length json == 0) ≡ true = ground arith in
      rw
        (
          some_bytes,
          cstr_id json json_bytes,
          format_read,
          generation_read,
          database_id_read,
          sha256_read,
          key_read,
        )
        refl

  -- A pointer whose fields fit is decoded from its document as it was.
  pub ptr_decode-print_pointer : ptr_decode (print_pointer ptr) ≡ some ptr
  ptr_decode-print_pointer = ap ptr_decode json_lem ∙ decoded
