-- ===== src/Tests/DbMetadataTests.antt =====
-- Tests of src/storage/db_metadata.c on the store in memory.
use otsardb.Base.{◌≡◌, refl, true, none, some, arith}
use otsardb.Text.{Text, codes}
use otsardb.ObjectStore.{StoreResult, Object, conditional_create, supports, store_get, store_put}
use otsardb.ObjectStore.Memory.{Memory, empty_memory, memory_store, memory_store-IsConditional}
use otsardb.DbMetadata.{
  Metadata, MetadataResult, build_key, metadata_json, encode_json, create, read,
}
use otsardb.DbMetadata.Json.{Fits}
use otsardb.DbMetadata.Create.{metadata_key, create_writes, read-create}

abbrev root : Text
root = codes "db/"

abbrev key : Text
key = codes "db/db.json"

abbrev metadata : Metadata
metadata = record { format_version = 1; page_size = 4096; database_id = codes "page_size" }

key_lem : metadata_key root ≡ some key
unfolding build_key
key_lem = refl

metadata-Fits : Fits metadata
metadata-Fits = record {
  format_range = omega arith;
  page_size_range = omega arith;
  database_id_plain = omega arith;
  database_id_bytes = omega arith;
  database_id_size = omega arith;
}

encoded : encode_json metadata ≡ some (metadata_json metadata)
unfolding encode_json
encoded = refl

no_page_size : encode_json (record metadata { page_size = 0 }) ≡ none
unfolding encode_json
no_page_size = refl

guarded : supports memory_store conditional_create ≡ true
unfolding supports
guarded = refl

abbrev world1 : Memory
world1 =
    (store_put memory_store key (metadata_json metadata)
      (record { if_none_match = true; if_match_etag = none }) empty_memory).2

created : create memory_store (some root) metadata empty_memory ≡ (MetadataResult.ok, world1)
unfolding create supports store_put
created = refl

created_once : create memory_store (some root) metadata world1 ≡ (MetadataResult.conflict, world1)
unfolding create supports store_put
created_once = refl

create_writes_example :
    (memory_store-IsConditional.content empty_memory key ≡ none)
    × (memory_store-IsConditional.content world1 key ≡ some (metadata_json metadata))
create_writes_example =
    create_writes memory_store-IsConditional root key (metadata_json metadata) metadata empty_memory
      world1 key_lem encoded guarded created

abbrev object1 : Object
object1 = (store_get memory_store key world1).1

got : store_get memory_store key world1 ≡ (StoreResult.ok, object1, world1)
unfolding store_get store_put
got = refl

read-create_example :
    read memory_store (some root) world1 ≡ (MetadataResult.ok, some metadata, world1)
read-create_example =
    read-create memory_store-IsConditional root key metadata (metadata_json metadata) object1
      empty_memory world1 world1 world1 key_lem metadata-Fits encoded created got refl
