-- ===== src/DbMetadata.antt =====
-- src/storage/db_metadata.c: db.json, the object that fixes the identity and the page size of a database.
-- The store is a parameter; allocations succeed, and only the pointer to the root may be null. The
-- functions `extract_u64` and `build_key` repeat those of src/storage/journal.c.
pub mod Json
pub mod Create
use otsardb.Base.{
  ℕ, zero, suc, ◌+◌, ◌-◌, ◌^◌, Bool, true, false, ◌&&◌, ◌||◌, not, Option, none, some, List, [],
  ◌∷◌, ◌++◌, ltb, leb, ◌==◌, if◌then◌else◌, ◌>>=◌, ◌>>◌, guard, length, drop, take,
}
use otsardb.Text.{Text, codes, quote, cstr, strstr, strchr, decimal}
use otsardb.ObjectStore.{
  StoreResult, Object, PutOptions, no_options, ObjectStore, conditional_create, supports, store_get,
  store_put,
}
use otsardb.Journal.{ends_with, string_pattern, extract_u64}

abbrev pub metadata_key_max : ℕ
metadata_key_max = 255

abbrev pub database_id_max : ℕ
database_id_max = 63

pub record Metadata : Type 0 where
  pub format_version : ℕ
  pub page_size : ℕ
  pub database_id : Text

pub data MetadataResult : Type 0 where
  ok not_found conflict invalid error : MetadataResult

unfoldable pub build_key : Option Text → ℕ → Option Text
build_key none out_size = none
build_key (some root) out_size =
    let needs_slash = ltb 0 (length root) && not (ends_with 47 root) in
    let key = root ++ ((if needs_slash then codes "/" else []) ++ codes "db.json") in
    if out_size == 0 then none else if ltb (length key) out_size then some key else none

-- Unlike its namesake in the journal, it takes no empty value.
unfoldable pub extract_string : Text → Text → ℕ → Option Text
extract_string json name out_size = do
  guard (ltb (length (string_pattern name)) 64)
  found ← strstr json (string_pattern name)
  let p = drop (length (string_pattern name)) found
  end ← strchr p quote
  let len = length p - length end
  guard (not (len == 0 || leb out_size len))
  some (take len p)

unfoldable pub metadata_json : Metadata → Text
metadata_json metadata =
    codes "{\"otsardb_format\":"
    ++ (decimal metadata.format_version
        ++ (codes ",\"database_id\":\""
            ++ (metadata.database_id
                ++ (codes "\",\"page_size\":" ++ (decimal metadata.page_size ++ codes "}\n")))))

-- `otsardb_db_metadata_encode_json`
unfoldable pub encode_json : Metadata → Option Text
unfolding metadata_json
encode_json metadata = do
  guard (
      not (
        metadata.format_version == 0
        || (metadata.page_size == 0 || length metadata.database_id == 0)))
  some (metadata_json metadata)

-- `otsardb_db_metadata_decode_json`
unfoldable pub decode_json : List ℕ → Option Metadata
unfolding extract_u64 extract_string
decode_json json = do
  guard (not (length json == 0))
  let copy = cstr json
  format ← extract_u64 copy (codes "otsardb_format")
  page_size ← extract_u64 copy (codes "page_size")
  database_id ← extract_string copy (codes "database_id") (database_id_max + 1)
  guard (not (format == 0 || ltb (2 ^ 32 - 1) format))
  guard (not (page_size == 0 || ltb (2 ^ 32 - 1) page_size))
  some (record { format_version = format; page_size = page_size; database_id = database_id })

-- What the answer to the write means.
unfoldable pub after_put : {W : Type 0} → StoreResult × Option Text × W → MetadataResult × W
after_put (StoreResult.ok, etag, w) = (MetadataResult.ok, w)
after_put (StoreResult.precondition_failed, etag, w) = (MetadataResult.conflict, w)
after_put (_, etag, w) = (MetadataResult.error, w)

unfoldable pub after_read :
    {W : Type 0} → StoreResult × Object × W → MetadataResult × Option Metadata × W
after_read (StoreResult.ok, object, w) = elim (decode_json object.bytes) [
  | none ↦ (MetadataResult.invalid, none, w)
  | some metadata ↦ (MetadataResult.ok, some metadata, w)
]
after_read (StoreResult.not_found, object, w) = (MetadataResult.not_found, none, w)
after_read (_, object, w) = (MetadataResult.error, none, w)

module _ {W : Type 0} (store : ObjectStore W) where
  -- A store without conditional creation is asked first whether the object is there.
  unfoldable pub create_unguarded : Text → Text → StoreResult × Object × W → MetadataResult × W
  unfolding after_put
  create_unguarded key json (StoreResult.ok, object, w) = (MetadataResult.conflict, w)
  create_unguarded key json (StoreResult.not_found, object, w) =
      after_put (store_put store key json no_options w)
  create_unguarded key json (_, object, w) = (MetadataResult.error, w)

  unfoldable pub create_at : Text → Text → W → MetadataResult × W
  unfolding after_put create_unguarded
  create_at key json w =
      if supports store conditional_create
      then after_put
          (store_put store key json (record { if_none_match = true; if_match_etag = none }) w)
      else create_unguarded key json (store_get store key w)

  -- `otsardb_db_metadata_create`
  unfoldable pub create : Option Text → Metadata → W → MetadataResult × W
  unfolding build_key encode_json create_at
  create database_root metadata w = elim (build_key database_root (metadata_key_max + 1)) [
    | none ↦ (MetadataResult.invalid, w)
    | some key ↦ elim (encode_json metadata) [
      | none ↦ (MetadataResult.invalid, w)
      | some json ↦ create_at key json w
    ]
  ]

  -- `otsardb_db_metadata_read`
  unfoldable pub read : Option Text → W → MetadataResult × Option Metadata × W
  unfolding build_key after_read
  read database_root w = elim (build_key database_root (metadata_key_max + 1)) [
    | none ↦ (MetadataResult.invalid, none, w)
    | some key ↦ after_read (store_get store key w)
  ]
