-- ===== src/Tests/JournalTests.antt =====
-- Tests of src/storage/journal.c on the store in memory.
use otsardb.Base.{ℕ, ◌≡◌, ◌≢◌, refl, ap, sym, subst, true, false, none, some, List, [], ◌∷◌, arith}
use otsardb.Text.{Text, codes, decimal, cstr, strtoull}
use otsardb.ObjectStore.{StoreResult, Object, store_get, store_put}
use otsardb.ObjectStore.Memory.{
  Memory, empty_memory, memory_store, memory_store-IsConditional, tag_of,
}
use otsardb.Journal.{
  Head, JournalResult, build_head_key, head_encode_json, head_decode_json, read_head, publish_head,
  publish_head_unconditional,
}
use otsardb.Journal.Json.{Fits}
use otsardb.Journal.Read.{head_key}
use otsardb.Journal.Publish.{publish_head-read_head, publish_head_exclusive, read_head-publish_head}

abbrev root : Text
root = codes "db"

abbrev key : Text
key = codes "db/HEAD.json"

abbrev first_head : Head
first_head = record {
  format_version = 1;
  generation = 7;
  database_id = codes "d";
  commit_id = codes "c1";
  commit_key = codes "db/commits/c1";
  commit_sha256 = codes "ab";
}

abbrev second_head : Head
second_head = record first_head { generation = 8; commit_id = codes "generation" }

key_lem : head_key root ≡ some key
unfolding build_head_key
key_lem = refl

root_with_slash : head_key (codes "db/") ≡ some key
unfolding build_head_key
root_with_slash = refl

second_head-Fits : Fits second_head
second_head-Fits = record {
  format_given = omega arith;
  format_range = omega arith;
  generation_range = omega arith;
  database_id_plain = omega arith;
  commit_id_plain = omega arith;
  commit_key_plain = omega arith;
  commit_sha256_plain = omega arith;
  database_id_bytes = omega arith;
  commit_id_bytes = omega arith;
  commit_key_bytes = omega arith;
  commit_sha256_bytes = omega arith;
  database_id_size = omega arith;
  commit_id_size = omega arith;
  commit_key_size = omega arith;
  commit_sha256_size = omega arith;
}

format_zero : head_decode_json (head_encode_json (record first_head { format_version = 0 })) ≡ none
unfolding head_decode_json head_encode_json decimal cstr strtoull
format_zero = refl

-- The world after a first publication, and after a second that replaces it.
abbrev world1 : Memory
world1 = record {
  written = head_encode_json first_head ∷ [];
  objects = (publish_head memory_store (some root) first_head none true empty_memory).2.objects;
  time = 100;
}

published :
    publish_head memory_store (some root) first_head none true empty_memory
    ≡ (JournalResult.ok, some (tag_of 0), world1)
unfolding publish_head store_put
published = refl

created_once :
    (publish_head memory_store (some root) second_head none true world1).0 ≡ JournalResult.conflict
unfolding publish_head store_put
created_once = refl

unguarded :
    (publish_head memory_store (some root) second_head none false world1).0 ≡ JournalResult.invalid
unfolding publish_head
unguarded = refl

forced :
    (publish_head_unconditional memory_store (some root) second_head world1).0 ≡ JournalResult.ok
unfolding publish_head_unconditional store_put publish_head
forced = refl

read_first : read_head memory_store (some root) world1 ≡ record {
  result = JournalResult.ok;
  head = some first_head;
  etag = some (tag_of 0);
  world = world1;
}
unfolding read_head head_encode_json store_get publish_head store_put head_decode_json decimal cstr
    strtoull
read_first = refl

abbrev world2 : Memory
world2 = (publish_head memory_store (some root) second_head (some (tag_of 0)) false world1).2

replaced :
    publish_head memory_store (some root) second_head (some (tag_of 0)) false world1
    ≡ (JournalResult.ok, some (tag_of 1), world2)
unfolding publish_head store_put
replaced = refl

publish_head-read_head_example :
    ((b : List ℕ) × (memory_store-IsConditional.content world1 key ≡ some b)
      × (head_decode_json b ≡ some first_head))
    × (memory_store-IsConditional.content world2 key ≡ some (head_encode_json second_head))
publish_head-read_head_example =
    publish_head-read_head memory_store-IsConditional root key second_head first_head (tag_of 0)
      (some (tag_of 1)) world1 world1 world2 key_lem (ap (λ r. r.result) read_first)
      (ap (λ r. r.head) read_first) (ap (λ r. r.etag) read_first)
      (subst (λ r. memory_store-IsConditional.Later r.world world1) (sym read_first)
        (memory_store-IsConditional.clock_later world1))
      replaced

abbrev third_head : Head
third_head = record first_head { generation = 8; commit_id = codes "c3" }

publish_head_exclusive_example :
    (publish_head memory_store (some root) third_head (some (tag_of 0)) false world2).0
    ≢ JournalResult.ok
publish_head_exclusive_example =
    publish_head_exclusive memory_store-IsConditional root key first_head second_head third_head
      (tag_of 0) (some (tag_of 1)) world1 world1 world2 world2 key_lem second_head-Fits
      (λ e. omega (arith, ap (λ h. h.generation) e)) (ap (λ r. r.result) read_first)
      (ap (λ r. r.head) read_first) (ap (λ r. r.etag) read_first)
      (subst (λ r. memory_store-IsConditional.Later r.world world1) (sym read_first)
        (memory_store-IsConditional.clock_later world1))
      replaced (memory_store-IsConditional.clock_later world2) refl

abbrev second_object : Object
second_object = (store_get memory_store key world2).1

got_second : store_get memory_store key world2 ≡ (StoreResult.ok, second_object, world2)
unfolding publish_head store_put store_get
got_second = refl

read_head-publish_head_example : read_head memory_store (some root) world2 ≡ record {
  result = JournalResult.ok;
  head = some second_head;
  etag = second_object.etag;
  world = world2;
}
read_head-publish_head_example =
    read_head-publish_head memory_store-IsConditional root key second_head (some (tag_of 0))
      (some (tag_of 1)) false second_object world1 world2 world2 world2 key_lem second_head-Fits
      replaced got_second refl
