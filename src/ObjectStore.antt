-- ===== src/ObjectStore.antt =====
-- src/storage/object_store.h: the table of operations through which all other parts reach the
-- object storage, over an unknown world, and what its clients assume of conditional writes.
pub mod Memory
use otsardb.Base.{
  ℕ, ◌<◌, ◌≤◌, ◌≡◌, ◌≢◌, ◌⊎◌, Bool, true, false, ◌==◌, Option, none, some, List, [], length,
  bit_and,
}
use otsardb.Text.{Text}

pub data StoreResult : Type 0 where
  ok not_found precondition_failed error not_empty timeout unsupported : StoreResult

-- `rc == OTSARDB_STORE_OK`
abbrev pub is_ok : StoreResult → Bool
is_ok StoreResult.ok = true
is_ok _ = false

-- `last_modified_secs` is 0 where the store does not expose it.
pub record Object : Type 0 where
  pub bytes : List ℕ
  pub etag : Option Text
  pub last_modified_secs : ℕ

abbrev pub empty_object : Object
empty_object = record { bytes = []; etag = none; last_modified_secs = 0 }

pub record PutOptions : Type 0 where
  pub if_none_match : Bool
  pub if_match_etag : Option Text

abbrev pub no_options : PutOptions
no_options = record { if_none_match = false; if_match_etag = none }

-- `none` is a null entry of the table. An operation may change the world.
pub record ObjectStore (W : Type 0) : Type 0 where
  pub get : Option (Text → W → StoreResult × Object × W)
  pub put : Option (Text → List ℕ → PutOptions → W → StoreResult × Option Text × W)
  pub delete_object : Option (Text → W → StoreResult × W)
  pub capabilities : ℕ

abbrev pub conditional_create : ℕ
conditional_create = 8

module _ {W : Type 0} (store : ObjectStore W) where
  unfoldable pub supports : ℕ → Bool
  supports capability = bit_and store.capabilities capability == capability

  unfoldable pub store_get : Text → W → StoreResult × Object × W
  store_get key w = elim store.get [
    | none ↦ (StoreResult.unsupported, empty_object, w)
    | some get ↦ get key w
  ]

  unfoldable pub store_put : Text → List ℕ → PutOptions → W → StoreResult × Option Text × W
  store_put key bytes options w = elim store.put [
    | none ↦ (StoreResult.unsupported, none, w)
    | some put ↦ put key bytes options w
  ]

  unfoldable pub store_delete : Text → W → StoreResult × W
  store_delete key w = elim store.delete_object [
    | none ↦ (StoreResult.unsupported, w)
    | some delete_object ↦ delete_object key w
  ]

-- What the storage promises of writes, the clock being read between them. Each operation is atomic:
-- others act between operations, and not within one. `Later w w'` says that the world `w` may have
-- become `w'`, by anyone's doing. `Names w t b`: until `w` the tag `t` was given to the content `b`;
-- a tag is a strong validator, so it names one content for ever. `content w key` is what the object
-- holds.
pub record IsConditional {W : Type 0} (store : ObjectStore W) (clock : W → ℕ × W) : Type 1 where
  pub Later : W → W → Type 0
  pub later_trans : (u v w : W) → Later u v → Later v w → Later u w
  pub Names : W → Text → List ℕ → Type 0
  pub names_one : (w : W) (t : Text) (b c : List ℕ) → Names w t b → Names w t c → b ≡ c
  pub names_size : (w : W) (t : Text) (b : List ℕ) → Names w t b → length t < 128
  pub names_given : (w : W) (t : Text) (b : List ℕ) → Names w t b → 1 ≤ length t
  pub names_kept : (w w' : W) (t : Text) (b : List ℕ) → Later w w' → Names w t b → Names w' t b
  pub content : W → Text → Option (List ℕ)
  pub clock_later : (w : W) → Later w (clock w).1
  pub get_later : (key : Text) (w : W) → Later w (store_get store key w).2
  pub put_later :
      (key : Text) (b : List ℕ) (options : PutOptions) (w : W)
      → Later w (store_put store key b options w).2
  pub delete_later : (key : Text) (w : W) → Later w (store_delete store key w).1
  -- A write that succeeds returns a tag of what was written, and the object holds it.
  pub put_writes :
      (key : Text) (b : List ℕ) (options : PutOptions) (w w' : W) (e : Option Text)
      → store_put store key b options w ≡ (StoreResult.ok, e, w')
      → ((t : Text) × (e ≡ some t) × Names w' t b) × (content w' key ≡ some b)
  -- If-Match: a write succeeds only if the object has this tag.
  pub put_matches :
      (key : Text) (b : List ℕ) (t : Text) (w w' : W) (e : Option Text)
      → store_put store key b (record { if_none_match = false; if_match_etag = some t }) w
        ≡ (StoreResult.ok, e, w')
      → (old : List ℕ) × (content w key ≡ some old) × Names w t old
  -- If-None-Match: a write succeeds only if there is no object.
  pub put_creates :
      (key : Text) (b : List ℕ) (w w' : W) (e : Option Text)
      → store_put store key b (record { if_none_match = true; if_match_etag = none }) w
        ≡ (StoreResult.ok, e, w')
      → content w key ≡ none
  -- What is read is what the object holds, with a tag of it.
  pub get_reads :
      (key : Text) (w w' : W) (o : Object)
      → store_get store key w ≡ (StoreResult.ok, o, w')
      → ((t : Text) × (o.etag ≡ some t) × Names w' t o.bytes) × (content w' key ≡ some o.bytes)

-- What the storage promises while nobody else acts: a read changes no object and gives what the object
-- holds, and a deletion changes no other object than the one that is named, and no content.
pub record IsQuiet {W : Type 0} (store : ObjectStore W) (clock : W → ℕ × W) : Type 1 where
  pub content : W → Text → Option (List ℕ)
  pub clock_keeps : (w : W) (k : Text) → content (clock w).1 k ≡ content w k
  pub get_keeps :
      (key : Text) (w : W) (k : Text) → content (store_get store key w).2 k ≡ content w k
  pub get_reads :
      (key : Text) (w : W)
      → (store_get store key w).0 ≡ StoreResult.ok
      → content w key ≡ some (store_get store key w).1.bytes
  pub delete_keeps :
      (key : Text) (w : W) (k : Text)
      → k ≢ key
      → content (store_delete store key w).1 k ≡ content w k
  pub delete_removes :
      (key : Text) (w : W)
      → (content (store_delete store key w).1 key ≡ content w key)
        ⊎ (content (store_delete store key w).1 key ≡ none)
