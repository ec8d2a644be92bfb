-- ===== src/DbMetadata/Json.antt =====
-- The JSON document of the metadata is read back as it was written.
use otsardb.Base.{
  ℕ, ◌-◌, ◌≤◌, ◌<◌, ◌^◌, ◌≡◌, ◌≢◌, refl, ap, ◌∙◌, true, ◌||◌, ◌==◌, ltb, leb, some, [], ◌∷◌, ◌++◌,
  length, drop, length-append, take-append, All-append, arith, not,
}
use otsardb.Text.{Text, codes, quote, strstr, decimal}
use otsardb.Text.Search.{Lacks, strchr-append, cstr_id}
use otsardb.Text.Decimal.{decimal-Lacks}
use otsardb.Journal.{string_pattern, extract_u64}
use otsardb.Journal.Json.{read_u64, pass_number, pass_string}
use otsardb.DbMetadata.{Metadata, extract_string, metadata_json, encode_json, decode_json}

-- What the metadata of the program holds: a text without quotes that fits its array, and numbers that
-- fit their types.
pub record Fits (m : Metadata) : Type 0 where
  pub format_range : m.format_version < 2 ^ 32
  pub page_size_range : m.page_size < 2 ^ 32
  pub database_id_plain : Lacks quote m.database_id
  pub database_id_bytes : Lacks 0 m.database_id
  pub database_id_size : length m.database_id ≤ 63

read_nonempty :
    (json name found value rest : Text) (cap : ℕ)
    → ltb (length (string_pattern name)) 64 ≡ true
    → strstr json (string_pattern name) ≡ some found
    → drop (length (string_pattern name)) found ≡ value ++ quote ∷ rest
    → Lacks quote value
    → length value ≢ 0
    → length value < cap
    → extract_string json name cap ≡ some value
unfolding extract_string
read_nonempty json name found value rest cap fits e e' h given short =
    let close = strchr-append quote value rest h in
    let size = length-append value (quote ∷ rest) in
    let len : length (value ++ quote ∷ rest) - length (quote ∷ rest) ≡ length value = omega arith in
    let test : not (length value == 0 || leb cap (length value)) ≡ true = ground arith in
    rw (fits, e, e', close, len, test)
      (ap some (take-append (length value) value (quote ∷ rest) refl))

-- What the encoder tests.
record Given (m : Metadata) (json : Text) : Type 0 where
  format_given : m.format_version ≢ 0
  page_size_given : m.page_size ≢ 0
  database_id_given : length m.database_id ≢ 0
  written : json ≡ metadata_json m

encode_json-Given : (m : Metadata) (json : Text) → encode_json m ≡ some json → Given m json
unfolding encode_json
encode_json-Given m json h = record {
  format_given = ground arith;
  page_size_given = ground arith;
  database_id_given = ground arith;
  written = ground arith;
}

module _ (m : Metadata) (ok : Fits m) (text : Text) (given : Given m text) where
  abbrev behind_database_id : Text
  behind_database_id = codes "\",\"page_size\":" ++ (decimal m.page_size ++ codes "}\n")

  abbrev behind_format : Text
  behind_format = codes ",\"database_id\":\"" ++ (m.database_id ++ behind_database_id)

  abbrev json : Text
  json = codes "{\"otsardb_format\":" ++ (decimal m.format_version ++ behind_format)

  format_read : extract_u64 json (codes "otsardb_format") ≡ some m.format_version
  format_read =
      let range = ok.format_range in
      read_u64 json (codes "otsardb_format") (drop 1 json) behind_format m.format_version refl refl
        refl (omega arith) refl

  database_id_read : extract_string json (codes "database_id") 64 ≡ some m.database_id
  database_id_read =
      let size = ok.database_id_size in
      read_nonempty json (codes "database_id") (drop 1 behind_format) m.database_id
        (drop 1 behind_database_id) 64 refl
        (pass_number (codes "database_id") (quote ∷ []) (omega arith) (codes "{\"otsardb_format\":")
          m.format_version behind_format (λ x. refl))
        refl ok.database_id_plain given.database_id_given (omega arith)

  page_size_read : extract_u64 json (codes "page_size") ≡ some m.page_size
  page_size_read =
      let range = ok.page_size_range in
      read_u64 json (codes "page_size") (drop 2 behind_database_id) (codes "}\n") m.page_size refl
        (pass_number (codes "page_size") [] (omega arith) (codes "{\"otsardb_format\":")
            m.format_version behind_format (λ x. refl)
          ∙ pass_string (codes "page_size") [] (omega arith) (codes ",\"database_id\":")
              m.database_id (drop 2 behind_database_id) (λ x. refl) ok.database_id_plain)
        refl (omega arith) refl

  join_bytes : (label rest : Text) → Lacks 0 label → Lacks 0 rest → Lacks 0 (label ++ rest)
  join_bytes label rest = All-append (λ d. d ≢ 0) label rest

  json_bytes : Lacks 0 json
  json_bytes =
      join_bytes (codes "{\"otsardb_format\":") (decimal m.format_version ++ behind_format)
        (omega arith)
        (join_bytes (decimal m.format_version) behind_format
          (decimal-Lacks 0 m.format_version (omega arith))
          (join_bytes (codes ",\"database_id\":\"") (m.database_id ++ behind_database_id)
            (omega arith)
            (join_bytes m.database_id behind_database_id ok.database_id_bytes (
              join_bytes (codes "\",\"page_size\":") (decimal m.page_size ++ codes "}\n")
                (omega arith)
                (join_bytes (decimal m.page_size) (codes "}\n")
                  (decimal-Lacks 0 m.page_size (omega arith)) (omega arith))))))

  decoded : decode_json json ≡ some m
  unfolding decode_json
  decoded =
      let range = ok.format_range in
      let range' = ok.page_size_range in
      let format_given = given.format_given in
      let page_size_given = given.page_size_given in
      let some_bytes : not (length json == 0) ≡ true = ground arith in
      let format : not (m.format_version == 0 || ltb (2 ^ 32 - 1) m.format_version) ≡ true =
        ground arith in
      let page_size : not (m.page_size == 0 || ltb (2 ^ 32 - 1) m.page_size) ≡ true =
        ground arith in
      rw
        (
          some_bytes,
          cstr_id json json_bytes,
          format_read,
          page_size_read,
          database_id_read,
          format,
          page_size,
        )
        refl

  decoded_text : decode_json text ≡ some m
  decoded_text =
      let same : metadata_json m ≡ json = unfold metadata_json in refl in
      ap decode_json (given.written ∙ same) ∙ decoded

-- What the encoder accepts is decoded as it was, for metadata whose fields fit.
pub decode_json-encode_json :
    (m : Metadata) (text : Text) → Fits m → encode_json m ≡ some text → decode_json text ≡ some m
decode_json-encode_json m text ok h = decoded_text m ok text (encode_json-Given m text h)
