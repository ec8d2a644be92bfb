-- ===== src/Journal/Json.antt =====
-- The JSON document of HEAD is read back as it was written.
use otsardb.Base.{
  ℕ, ◌-◌, ◌≤◌, ◌<◌, ◌^◌, ◌≡◌, ◌≢◌, refl, ap, ◌∙◌, true, ◌||◌, ◌==◌, ltb, some, [], ◌∷◌, ◌++◌,
  length, drop, length-append, take-append, lt→ltb, All-append, arith, not,
}
use otsardb.Text.{Text, codes, quote, strstr, decimal}
use otsardb.Text.Search.{Lacks, strchr-append, strstr-append, strstr-value, cstr_id}
use otsardb.Text.Decimal.{Ends, strtoull-decimal, skip_while-decimal, decimal-Lacks}
use otsardb.Journal.{
  Head, u64_pattern, string_pattern, space_or_tab, extract_u64, extract_string, head_encode_json,
  head_decode_json,
}

-- What a head of the program holds: texts without quotes that fit their arrays, and numbers that fit
-- their types, of which the format is not 0.
pub record Fits (head : Head) : Type 0 where
  pub format_given : 0 < head.format_version
  pub format_range : head.format_version < 2 ^ 32
  pub generation_range : head.generation < 2 ^ 64
  pub database_id_plain : Lacks quote head.database_id
  pub commit_id_plain : Lacks quote head.commit_id
  pub commit_key_plain : Lacks quote head.commit_key
  pub commit_sha256_plain : Lacks quote head.commit_sha256
  pub database_id_bytes : Lacks 0 head.database_id
  pub commit_id_bytes : Lacks 0 head.commit_id
  pub commit_key_bytes : Lacks 0 head.commit_key
  pub commit_sha256_bytes : Lacks 0 head.commit_sha256
  pub database_id_size : length head.database_id ≤ 63
  pub commit_id_size : length head.commit_id ≤ 63
  pub commit_key_size : length head.commit_key ≤ 1023
  pub commit_sha256_size : length head.commit_sha256 ≤ 64

-- What stands behind a key is read.
pub read_u64 :
    (json name found rest : Text) (n : ℕ)
    → ltb (length (u64_pattern name)) 64 ≡ true
    → strstr json (u64_pattern name) ≡ some found
    → drop (length (u64_pattern name)) found ≡ decimal n ++ rest
    → n < 2 ^ 64
    → Ends rest
    → extract_u64 json name ≡ some n
unfolding extract_u64
read_u64 json name found rest n fits e e' h ends =
    let skipped = skip_while-decimal space_or_tab n rest h (λ d k. ground arith) in
    let number = strtoull-decimal n rest h ends in rw (fits, e, e', skipped, number) refl

read_string :
    (json name found value rest : Text) (cap : ℕ)
    → ltb (length (string_pattern name)) 64 ≡ true
    → strstr json (string_pattern name) ≡ some found
    → drop (length (string_pattern name)) found ≡ value ++ quote ∷ rest
    → Lacks quote value
    → length value < cap
    → extract_string json name cap ≡ some value
unfolding extract_string
read_string json name found value rest cap fits e e' h short =
    let close = strchr-append quote value rest h in
    let size = length-append value (quote ∷ rest) in
    let len : length (value ++ quote ∷ rest) - length (quote ∷ rest) ≡ length value = omega arith in
    rw (fits, e, e', close, len, lt→ltb (length value) cap short)
      (ap some (take-append (length value) value (quote ∷ rest) refl))

-- The search for a key passes a field by, if it passes its label by.
module _ (key pattern : Text) (plain : Lacks quote key) where
  abbrev wanted : Text
  wanted = quote ∷ (key ++ quote ∷ 58 ∷ pattern)

  pub pass_number :
      (label : Text) (n : ℕ) (rest : Text)
      → ((x : Text) → strstr (label ++ x) wanted ≡ strstr x wanted)
      → strstr (label ++ (decimal n ++ rest)) wanted ≡ strstr rest wanted
  pass_number label n rest h =
      h (decimal n ++ rest)
      ∙ strstr-append quote (key ++ quote ∷ 58 ∷ pattern) (decimal n) rest
          (decimal-Lacks quote n (omega arith))

  pub pass_string :
      (label value rest : Text)
      → ((x : Text) → strstr (label ++ quote ∷ x) wanted ≡ strstr (quote ∷ x) wanted)
      → Lacks quote value
      → strstr (label ++ quote ∷ (value ++ quote ∷ 44 ∷ rest)) wanted
        ≡ strstr (quote ∷ 44 ∷ rest) wanted
  pass_string label value rest h k =
      h (value ++ quote ∷ 44 ∷ rest) ∙ strstr-value key value pattern rest 44 plain k (omega arith)

module _ (head : Head) (ok : Fits head) where
  -- What follows each field of the document.
  abbrev behind_commit_sha256 : Text
  behind_commit_sha256 = codes "\"}\n"

  abbrev behind_commit_key : Text
  behind_commit_key =
      codes "\",\"commit_sha256\":\"" ++ (head.commit_sha256 ++ behind_commit_sha256)

  abbrev behind_commit_id : Text
  behind_commit_id = codes "\",\"commit_key\":\"" ++ (head.commit_key ++ behind_commit_key)

  abbrev behind_generation : Text
  behind_generation = codes ",\"commit_id\":\"" ++ (head.commit_id ++ behind_commit_id)

  abbrev behind_database_id : Text
  behind_database_id = codes "\",\"generation\":" ++ (decimal head.generation ++ behind_generation)

  abbrev behind_format : Text
  behind_format = codes ",\"database_id\":\"" ++ (head.database_id ++ behind_database_id)

  abbrev json : Text
  json = codes "{\"otsardb_format\":" ++ (decimal head.format_version ++ behind_format)

  json_lem : head_encode_json head ≡ json
  unfolding head_encode_json
  json_lem = refl

  format_read : extract_u64 json (codes "otsardb_format") ≡ some head.format_version
  format_read =
      let range = ok.format_range in
      read_u64 json (codes "otsardb_format") (drop 1 json) behind_format head.format_version refl
        refl refl (omega arith) refl

  database_id_read : extract_string json (codes "database_id") 64 ≡ some head.database_id
  database_id_read =
      let size = ok.database_id_size in
      read_string json (codes "database_id") (drop 1 behind_format) head.database_id
        (drop 1 behind_database_id) 64 refl
        (pass_number (codes "database_id") (quote ∷ []) (omega arith) (codes "{\"otsardb_format\":")
          head.format_version behind_format (λ x. refl))
        refl ok.database_id_plain (omega arith)

  -- The searches for the keys behind the identifier of the database.
  module _ (key pattern : Text) (plain : Lacks quote key) where
    abbrev sought : Text
    sought = quote ∷ (key ++ quote ∷ 58 ∷ pattern)

    reach_generation :
        ((x : Text) → strstr (codes "{\"otsardb_format\":" ++ x) sought ≡ strstr x sought)
        → ((x : Text)
            → strstr (codes ",\"database_id\":" ++ quote ∷ x) sought ≡ strstr (quote ∷ x) sought)
        → strstr json sought ≡ strstr behind_database_id sought
    reach_generation h h' =
        pass_number key pattern plain (codes "{\"otsardb_format\":") head.format_version
          behind_format h
        ∙ pass_string key pattern plain (codes ",\"database_id\":") head.database_id
            (drop 2 behind_database_id) h' ok.database_id_plain

    reach_commit_id :
        strstr json sought ≡ strstr behind_database_id sought
        → ((x : Text) → strstr (codes "\",\"generation\":" ++ x) sought ≡ strstr x sought)
        → strstr json sought ≡ strstr behind_generation sought
    reach_commit_id h h' =
        h
        ∙ pass_number key pattern plain (codes "\",\"generation\":") head.generation
            behind_generation h'

    reach_commit_key :
        strstr json sought ≡ strstr behind_generation sought
        → ((x : Text)
            → strstr (codes ",\"commit_id\":" ++ quote ∷ x) sought ≡ strstr (quote ∷ x) sought)
        → strstr json sought ≡ strstr behind_commit_id sought
    reach_commit_key h h' =
        h
        ∙ pass_string key pattern plain (codes ",\"commit_id\":") head.commit_id
            (drop 2 behind_commit_id) h' ok.commit_id_plain

    reach_commit_sha256 :
        strstr json sought ≡ strstr behind_commit_id sought
        → ((x : Text)
            → strstr (codes "\",\"commit_key\":" ++ quote ∷ x) sought ≡ strstr (quote ∷ x) sought)
        → strstr json sought ≡ strstr behind_commit_key sought
    reach_commit_sha256 h h' =
        h
        ∙ pass_string key pattern plain (codes "\",\"commit_key\":") head.commit_key
            (drop 2 behind_commit_key) h' ok.commit_key_plain

  generation_read : extract_u64 json (codes "generation") ≡ some head.generation
  generation_read =
      read_u64 json (codes "generation") (drop 2 behind_database_id) behind_generation
        head.generation refl
        (reach_generation (codes "generation") [] (omega arith) (λ x. refl) (λ x. refl)) refl
        ok.generation_range refl

  commit_id_read : extract_string json (codes "commit_id") 64 ≡ some head.commit_id
  commit_id_read =
      let size = ok.commit_id_size in
      let key = codes "commit_id" in
      let pattern : Text = quote ∷ [] in
      read_string json key (drop 1 behind_generation) head.commit_id (drop 1 behind_commit_id) 64
        refl
        (reach_commit_id key pattern (omega arith)
          (reach_generation key pattern (omega arith) (λ x. refl) (λ x. refl)) (λ x. refl))
        refl ok.commit_id_plain (omega arith)

  commit_key_read : extract_string json (codes "commit_key") 1024 ≡ some head.commit_key
  commit_key_read =
      let size = ok.commit_key_size in
      let key = codes "commit_key" in
      let pattern : Text = quote ∷ [] in
      read_string json key (drop 2 behind_commit_id) head.commit_key (drop 1 behind_commit_key) 1024
        refl
        (reach_commit_key key pattern (omega arith)
          (reach_commit_id key pattern (omega arith)
            (reach_generation key pattern (omega arith) (λ x. refl) (λ x. refl)) (λ x. refl))
          (λ x. refl))
        refl ok.commit_key_plain (omega arith)

  commit_sha256_read : extract_string json (codes "commit_sha256") 65 ≡ some head.commit_sha256
  commit_sha256_read =
      let size = ok.commit_sha256_size in
      let key = codes "commit_sha256" in
      let pattern : Text = quote ∷ [] in
      read_string json key (drop 2 behind_commit_key) head.commit_sha256 (codes "}\n") 65 refl
        (reach_commit_sha256 key pattern (omega arith)
          (reach_commit_key key pattern (omega arith)
            (reach_commit_id key pattern (omega arith)
              (reach_generation key pattern (omega arith) (λ x. refl) (λ x. refl)) (λ x. refl))
            (λ x. refl))
          (λ x. refl))
        refl ok.commit_sha256_plain (omega arith)

  join_bytes : (label text : Text) → Lacks 0 label → Lacks 0 text → Lacks 0 (label ++ text)
  join_bytes label text = All-append (λ d. d ≢ 0) label text

  json_bytes : Lacks 0 json
  json_bytes =
      join_bytes (codes "{\"otsardb_format\":") (decimal head.format_version ++ behind_format)
        (omega arith)
        (join_bytes (decimal head.format_version) behind_format
          (decimal-Lacks 0 head.format_version (omega arith))
          (join_bytes (codes ",\"database_id\":\"") (head.database_id ++ behind_database_id)
            (omega arith)
            (join_bytes head.database_id behind_database_id ok.database_id_bytes (
              join_bytes (codes "\",\"generation\":") (decimal head.generation ++ behind_generation)
                (omega arith)
                (join_bytes (decimal head.generation) behind_generation
                  (decimal-Lacks 0 head.generation (omega arith))
                  (join_bytes (codes ",\"commit_id\":\"") (head.commit_id ++ behind_commit_id)
                    (omega arith)
                    (join_bytes head.commit_id behind_commit_id ok.commit_id_bytes (
                      join_bytes (codes "\",\"commit_key\":\"")
                        (head.commit_key ++ behind_commit_key) (omega arith)
                        (join_bytes head.commit_key behind_commit_key ok.commit_key_bytes (
                          join_bytes (codes "\",\"commit_sha256\":\"")
                            (head.commit_sha256 ++ behind_commit_sha256) (omega arith)
                            (join_bytes head.commit_sha256 behind_commit_sha256
                              ok.commit_sha256_bytes (omega arith))))))))))))

  format_fine : not (head.format_version == 0 || ltb (2 ^ 32 - 1) head.format_version) ≡ true
  format_fine = let given = ok.format_given in let range = ok.format_range in ground arith

  decoded : head_decode_json json ≡ some head
  unfolding head_decode_json
  decoded =
      let some_bytes : not (length json == 0) ≡ true = ground arith in
      rw
        (
          some_bytes,
          cstr_id json json_bytes,
          format_read,
          generation_read,
          database_id_read,
          commit_id_read,
          commit_key_read,
          commit_sha256_read,
          format_fine,
        )
        refl

  -- A head whose fields fit is decoded from its document as it was.
  pub head_decode_json-head_encode_json : head_decode_json (head_encode_json head) ≡ some head
  head_decode_json-head_encode_json = ap head_decode_json json_lem ∙ decoded
