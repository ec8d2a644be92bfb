-- ===== src/CheckpointManifest/Pointer.antt =====
-- src/storage/checkpoint_manifest.c: CHECKPOINT.json, the object that names the newest checkpoint: its
-- document, how it is read, and how it is written on a condition. The store is a parameter.
use otsardb.Base.{
  ℕ, ◌+◌, ◌-◌, ◌^◌, Bool, true, false, ◌&&◌, ◌||◌, not, Option, none, some, List, [], ◌∷◌, ◌++◌,
  ltb, ◌==◌, if◌then◌else◌, ◌>>=◌, ◌>>◌, guard, length,
}
use otsardb.Text.{Text, codes, cstr, decimal}
use otsardb.Text.Write.{print_size}
use otsardb.ObjectStore.{StoreResult, is_ok, Object, PutOptions, ObjectStore, store_get, store_put}
use otsardb.Journal.{head_key_max, JournalResult, ends_with}
use otsardb.CheckpointManifest.{checkpoint_id_max, checkpoint_sha_size, extract_u64, extract_string}

abbrev pub checkpoint_key_size : ℕ
checkpoint_key_size = 1024

pub record CheckpointPointer : Type 0 where
  pub covered_generation : ℕ
  pub checkpoint_sha256 : Text
  pub checkpoint_key : Text
  pub database_id : Text

pub data PointerResult : Type 0 where
  ok not_found error : PointerResult

unfoldable pub build_checkpoint_key : Option Text → ℕ → Option Text
build_checkpoint_key none out_size = none
build_checkpoint_key (some root) out_size =
    let needs_slash = ltb 0 (length root) && not (ends_with 47 root) in
    let key = root ++ ((if needs_slash then codes "/" else []) ++ codes "CHECKPOINT.json") in
    if out_size == 0 then none else if ltb (length key) out_size then some key else none

unfoldable pub print_pointer : CheckpointPointer → Text
print_pointer ptr =
    codes "{\"otsardb_checkpoint_format\":1,\"database_id\":\""
    ++ (ptr.database_id
        ++ (codes "\",\"covered_generation\":"
            ++ (decimal ptr.covered_generation
                ++ (codes ",\"checkpoint_sha256\":\""
                    ++ (ptr.checkpoint_sha256
                        ++ (codes "\",\"checkpoint_key\":\""
                            ++ (ptr.checkpoint_key ++ codes "\"}\n")))))))

-- `otsardb_checkpoint_ptr_encode`
unfoldable pub ptr_encode : CheckpointPointer → Option Text
unfolding print_size print_pointer
ptr_encode ptr = do size ← print_size (print_pointer ptr); some (print_pointer ptr)

-- `otsardb_checkpoint_ptr_decode`
unfoldable pub ptr_decode : List ℕ → Option CheckpointPointer
unfolding extract_u64 extract_string
ptr_decode json = do
  guard (not (length json == 0))
  let copy = cstr json
  format ← extract_u64 copy (codes "otsardb_checkpoint_format")
  covered_generation ← extract_u64 copy (codes "covered_generation")
  database_id ← extract_string copy (codes "database_id") (checkpoint_id_max + 1) false
  checkpoint_sha256 ←
      extract_string copy (codes "checkpoint_sha256") (checkpoint_sha_size + 1) false
  checkpoint_key ← extract_string copy (codes "checkpoint_key") checkpoint_key_size false
  guard (not (format == 0 || ltb (2 ^ 32 - 1) format))
  some (record {
    covered_generation = covered_generation;
    checkpoint_sha256 = checkpoint_sha256;
    checkpoint_key = checkpoint_key;
    database_id = database_id;
  })

-- The pointer and its tag, where there are both.
abbrev pub with_etag : Option CheckpointPointer → Option Text → Option (CheckpointPointer × Text)
with_etag none etag = none
with_etag (some ptr) none = none
with_etag (some ptr) (some []) = none
with_etag (some ptr) (some (c ∷ etag)) = some (ptr, c ∷ etag)

-- `not_found` for a missing object, and an error where there is no pointer with a tag.
abbrev pub ptr_result : StoreResult → Option (CheckpointPointer × Text) → PointerResult
ptr_result StoreResult.not_found found = PointerResult.not_found
ptr_result rc none = PointerResult.error
ptr_result rc (some found) = PointerResult.ok

unfoldable pub after_ptr_get :
    {W : Type 0} → StoreResult × Object × W → PointerResult × Option (CheckpointPointer × Text) × W
unfolding ptr_decode
after_ptr_get (rc, object, w) =
    let found = if is_ok rc then with_etag (ptr_decode object.bytes) object.etag else none in
    (ptr_result rc found, found, w)

-- What the answer to the write means; the results that are not named count as a success.
unfoldable pub after_ptr_put :
    {W : Type 0} → StoreResult × Option Text × W → JournalResult × Option Text × W
after_ptr_put (StoreResult.precondition_failed, etag, w) = (JournalResult.conflict, none, w)
after_ptr_put (StoreResult.timeout, etag, w) = (JournalResult.ambiguous, none, w)
after_ptr_put (StoreResult.unsupported, etag, w) = (JournalResult.unsupported, none, w)
after_ptr_put (StoreResult.error, etag, w) = (JournalResult.error, none, w)
after_ptr_put (_, etag, w) = (JournalResult.ok, etag, w)

module _ {W : Type 0} (store : ObjectStore W) where
  unfoldable pub ptr_read_at :
      Option Text → W → PointerResult × Option (CheckpointPointer × Text) × W
  unfolding after_ptr_get
  ptr_read_at none w = (PointerResult.error, none, w)
  ptr_read_at (some key) w = after_ptr_get (store_get store key w)

  -- `otsardb_checkpoint_ptr_read`
  unfoldable pub ptr_read : Option Text → W → PointerResult × Option (CheckpointPointer × Text) × W
  unfolding build_checkpoint_key ptr_read_at
  ptr_read database_root w = ptr_read_at (build_checkpoint_key database_root (head_key_max + 1)) w

  unfoldable pub ptr_publish_at :
      Text → CheckpointPointer → PutOptions → W → JournalResult × Option Text × W
  unfolding ptr_encode after_ptr_put
  ptr_publish_at key ptr options w = elim (ptr_encode ptr) [
    | none ↦ (JournalResult.error, none, w)
    | some json ↦ after_ptr_put (store_put store key json options w)
  ]

  unfoldable pub ptr_publish_when :
      Option Text → CheckpointPointer → PutOptions → W → JournalResult × Option Text × W
  unfolding build_checkpoint_key ptr_publish_at
  ptr_publish_when database_root ptr options w =
      elim (build_checkpoint_key database_root (head_key_max + 1)) [
        | none ↦ (JournalResult.invalid, none, w)
        | some key ↦ ptr_publish_at key ptr options w
      ]

  -- `otsardb_checkpoint_ptr_publish`
  unfoldable pub ptr_publish :
      Option Text → CheckpointPointer → Option Text → Bool → W → JournalResult × Option Text × W
  unfolding ptr_publish_when
  ptr_publish database_root ptr expected_etag true w =
      ptr_publish_when database_root ptr (record { if_none_match = true; if_match_etag = none }) w
  ptr_publish database_root ptr none false w = (JournalResult.invalid, none, w)
  ptr_publish database_root ptr (some expected_etag) false w =
      ptr_publish_when database_root ptr
        (record { if_none_match = false; if_match_etag = some expected_etag }) w
