-- ===== src/Journal.antt =====
-- src/storage/journal.c: HEAD.json, the object that names the newest commit of a database, and its
-- conditional publication. The store is a parameter; allocations succeed. A pointer to the root or
-- to the expected tag may be null, the other arguments are given.
pub mod Json
pub mod Read
pub mod Publish
use otsardb.Base.{
  ℕ, zero, suc, ◌+◌, ◌-◌, ◌^◌, Bool, true, false, ◌&&◌, ◌||◌, not, Option, none, some, List, [],
  ◌∷◌, ◌++◌, ltb, leb, ◌==◌, if◌then◌else◌, ◌>>=◌, ◌>>◌, guard, length, drop, take,
}
use otsardb.Text.{Text, codes, quote, cstr, text_eq, strstr, strchr, skip_while, strtoull, decimal}
use otsardb.ObjectStore.{
  StoreResult, Object, PutOptions, no_options, ObjectStore, store_get, store_put,
}

abbrev pub commit_id_max : ℕ
commit_id_max = 63

abbrev pub head_key_max : ℕ
head_key_max = 1023

abbrev pub sha256_hex_max : ℕ
sha256_hex_max = 64

pub record Head : Type 0 where
  pub format_version : ℕ
  pub generation : ℕ
  pub database_id : Text
  pub commit_id : Text
  pub commit_key : Text
  pub commit_sha256 : Text

pub data JournalResult : Type 0 where
  ok not_found conflict invalid error ambiguous unsupported : JournalResult

abbrev pub ends_with : ℕ → Text → Bool
ends_with c [] = false
ends_with c (d ∷ []) = d == c
ends_with c (d ∷ e ∷ text) = ends_with c (e ∷ text)

-- The key in a buffer of `out_size` bytes.
unfoldable pub build_head_key : Option Text → ℕ → Option Text
build_head_key none out_size = none
build_head_key (some root) out_size =
    let needs_slash = ltb 0 (length root) && not (ends_with 47 root) in
    let key = root ++ ((if needs_slash then codes "/" else []) ++ codes "HEAD.json") in
    if out_size == 0 then none else if ltb (length key) out_size then some key else none

abbrev pub u64_pattern : Text → Text
u64_pattern name = quote ∷ (name ++ codes "\":")

abbrev pub string_pattern : Text → Text
string_pattern name = quote ∷ (name ++ codes "\":\"")

abbrev pub space_or_tab : ℕ → Bool
space_or_tab c = c == 32 || c == 9

unfoldable pub extract_u64 : Text → Text → Option ℕ
extract_u64 json name = do
  guard (ltb (length (u64_pattern name)) 64)
  p ← strstr json (u64_pattern name)
  (value, end) ← strtoull (skip_while space_or_tab (drop (length (u64_pattern name)) p))
  some value

unfoldable pub extract_string : Text → Text → ℕ → Option Text
extract_string json name out_size = do
  guard (ltb (length (string_pattern name)) 64)
  found ← strstr json (string_pattern name)
  let p = drop (length (string_pattern name)) found
  end ← strchr p quote
  let len = length p - length end
  guard (ltb len out_size)
  some (take len p)

unfoldable pub head_encode_json : Head → Text
head_encode_json head =
    codes "{\"otsardb_format\":"
    ++ (decimal head.format_version
        ++ (codes ",\"database_id\":\""
            ++ (head.database_id
                ++ (codes "\",\"generation\":"
                    ++ (decimal head.generation
                        ++ (codes ",\"commit_id\":\""
                            ++ (head.commit_id
                                ++ (codes "\",\"commit_key\":\""
                                    ++ (head.commit_key
                                        ++ (codes "\",\"commit_sha256\":\""
                                            ++ (head.commit_sha256 ++ codes "\"}\n")))))))))))

-- The head is `none` where the source returns 0, whatever it wrote until then.
unfoldable pub head_decode_json : List ℕ → Option Head
unfolding extract_u64 extract_string
head_decode_json json = do
  guard (not (length json == 0))
  let copy = cstr json
  format ← extract_u64 copy (codes "otsardb_format")
  generation ← extract_u64 copy (codes "generation")
  database_id ← extract_string copy (codes "database_id") (commit_id_max + 1)
  commit_id ← extract_string copy (codes "commit_id") (commit_id_max + 1)
  commit_key ← extract_string copy (codes "commit_key") (head_key_max + 1)
  commit_sha256 ← extract_string copy (codes "commit_sha256") (sha256_hex_max + 1)
  guard (not (format == 0 || ltb (2 ^ 32 - 1) format))
  some (record {
    format_version = format;
    generation = generation;
    database_id = database_id;
    commit_id = commit_id;
    commit_key = commit_key;
    commit_sha256 = commit_sha256;
  })

-- What a read of HEAD gives: the head is that of a document that could be decoded.
pub record HeadRead (W : Type 0) : Type 0 where
  pub result : JournalResult
  pub head : Option Head
  pub etag : Option Text
  pub world : W

abbrev pub no_head : {W : Type 0} → JournalResult → W → HeadRead W
no_head result w = record { result = result; head = none; etag = none; world = w }

-- A head without a tag cannot be replaced, and does not count.
unfoldable pub decoded_head : {W : Type 0} → Option Text → Option Head → W → HeadRead W
decoded_head etag none w = no_head JournalResult.invalid w
decoded_head none (some head) w = record {
  result = JournalResult.invalid;
  head = some head;
  etag = none;
  world = w;
}
decoded_head (some etag) (some head) w =
    if text_eq etag []
    then record { result = JournalResult.invalid; head = some head; etag = none; world = w }
    else record { result = JournalResult.ok; head = some head; etag = some etag; world = w }

unfoldable pub after_head_get : {W : Type 0} → StoreResult × Object × W → HeadRead W
unfolding decoded_head
after_head_get (StoreResult.ok, object, w) =
    decoded_head object.etag (head_decode_json object.bytes) w
after_head_get (StoreResult.not_found, object, w) = no_head JournalResult.not_found w
after_head_get (StoreResult.unsupported, object, w) = no_head JournalResult.unsupported w
after_head_get (_, object, w) = no_head JournalResult.error w

-- What the store's answer to the write of HEAD means. A timeout leaves it open whether HEAD was
-- written.
unfoldable pub after_head_put :
    {W : Type 0} → StoreResult × Option Text × W → JournalResult × Option Text × W
after_head_put (StoreResult.ok, etag, w) = (JournalResult.ok, etag, w)
after_head_put (StoreResult.precondition_failed, etag, w) = (JournalResult.conflict, none, w)
after_head_put (StoreResult.timeout, etag, w) = (JournalResult.ambiguous, none, w)
after_head_put (StoreResult.unsupported, etag, w) = (JournalResult.unsupported, none, w)
after_head_put (_, etag, w) = (JournalResult.error, none, w)

module _ {W : Type 0} (store : ObjectStore W) where
  unfoldable pub read_head : Option Text → W → HeadRead W
  unfolding build_head_key after_head_get
  read_head database_root w = elim (build_head_key database_root (head_key_max + 1)) [
    | none ↦ no_head JournalResult.invalid w
    | some key ↦ after_head_get (store_get store key w)
  ]

  unfoldable pub publish_head_json :
      Option Text → Head → PutOptions → W → JournalResult × Option Text × W
  unfolding build_head_key after_head_put
  publish_head_json database_root head options w =
      elim (build_head_key database_root (head_key_max + 1)) [
        | none ↦ (JournalResult.invalid, none, w)
        | some key ↦ after_head_put (store_put store key (head_encode_json head) options w)
      ]

  -- `otsardb_journal_publish_head`
  unfoldable pub publish_head :
      Option Text → Head → Option Text → Bool → W → JournalResult × Option Text × W
  unfolding publish_head_json
  publish_head database_root head expected_etag true w =
      publish_head_json database_root head (record { if_none_match = true; if_match_etag = none }) w
  publish_head database_root head none false w = (JournalResult.invalid, none, w)
  publish_head database_root head (some expected_etag) false w =
      publish_head_json database_root head
        (record { if_none_match = false; if_match_etag = some expected_etag }) w

  unfoldable pub publish_head_unconditional :
      Option Text → Head → W → JournalResult × Option Text × W
  unfolding publish_head_json
  publish_head_unconditional database_root head w =
      publish_head_json database_root head no_options w
