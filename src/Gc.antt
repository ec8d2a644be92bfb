-- ===== src/Gc.antt =====
-- src/storage/gc.c: the sweep that deletes the commits which a checkpoint has made superfluous. The store
-- and the clock are parameters; allocations succeed, and the root is given.
pub mod Kept
pub mod Chain
pub mod Below
pub mod Base
pub mod Spared
pub mod Ends
pub mod Live
use otsardb.Base.{
  ℕ, zero, suc, ◌+◌, ◌-◌, ◌^◌, ◌%◌, Bool, true, false, ◌&&◌, ◌||◌, not, Option, none, some, List,
  [], ◌∷◌, ◌++◌, ltb, leb, ◌==◌, if◌then◌else◌, ◌>>=◌, ◌>>◌, guard, length,
}
use otsardb.Text.{Text, codes, quote, snprintf, strstr, text_eq}
use otsardb.ObjectStore.{StoreResult, is_ok, Object, ObjectStore, store_get, store_delete}
use otsardb.Sha256.{hex_data}
use otsardb.Journal.{commit_id_max, head_key_max, ends_with}
use otsardb.CommitManifest.{SegmentRef, Manifest}
use otsardb.CommitManifest.Decode.{decode_json}
use otsardb.CheckpointManifest.{CheckpointManifest, decode}
use otsardb.CheckpointManifest.Pointer.{CheckpointPointer, PointerResult, ptr_read}

-- `none` in `owner_expected` is a null pointer.
pub record GcOptions : Type 0 where
  pub keep_secs : ℕ
  pub owner_expected : Option Text

-- What the options say where there are none.
abbrev pub no_gc_options : GcOptions
no_gc_options = record { keep_secs = 0; owner_expected = none }

unfoldable pub root_join : Text → Text → ℕ → Option Text
root_join root suffix out_size =
    let needs_slash = ltb 0 (length root) && not (ends_with 47 root) in
    let key = root ++ ((if needs_slash then codes "/" else []) ++ suffix) in
    if out_size == 0
    then none
    else if ltb 0 (length key) && ltb (length key) out_size
    then some key
    else none

-- Whether the needle, which is not empty, stands in the bytes.
unfoldable pub mem_contains : List ℕ → Text → Bool
mem_contains haystack needle =
    if length needle == 0 || ltb (length haystack) (length needle)
    then false
    else elim (strstr haystack needle) [ none ↦ false | some found ↦ true ]

-- The key of a commit, in an array of 1024 bytes, of which the end may be cut off.
unfoldable pub commit_key : Text → Text → Option Text
unfolding root_join
commit_key root commit_id = do
  prefix ← root_join root (codes "commits/") (head_key_max + 1)
  some (prefix ++ snprintf (head_key_max + 1 - length prefix) (commit_id ++ codes ".json"))

-- From format 3 on a segment is named from the root.
unfoldable pub segment_key : Text → ℕ → SegmentRef → Option Text
unfolding root_join
segment_key root format_version ref =
    if leb 3 format_version then root_join root ref.key (head_key_max + 1) else some ref.key

abbrev pub owner_needle : Text → Text
owner_needle owner = codes "\"owner\":\"" ++ (owner ++ codes "\"")

-- What the retention window says: go on, stop without an error, or stop with one.
pub data Retention : Type 0 where
  passed young unknown : Retention

-- How a sweep ends: with -1, with a number of deleted objects, or not within the fuel.
pub data Outcome (W : Type 0) : Type 0 where
  failed : W → Outcome W
  swept : ℕ → W → Outcome W
  out_of_fuel : Outcome W

-- An object that can be decoded, or nothing.
abbrev pub decoded_by :
    {A W : Type 0} → (List ℕ → Option A) → StoreResult × Object × W → Option A × W
decoded_by decoder (rc, object, w) = (if is_ok rc then decoder object.bytes else none, w)

-- The decoder of a checkpoint, whose hash must be the one of the pointer.
unfoldable pub verified_checkpoint : CheckpointPointer → List ℕ → Option CheckpointManifest
verified_checkpoint cp bytes = do
  guard (text_eq (hex_data bytes) cp.checkpoint_sha256)
  decode bytes

-- The decoder of the base, whose generation must be the covered one.
unfoldable pub verified_base : CheckpointPointer → List ℕ → Option Manifest
verified_base cp bytes = do
  base ← decode_json bytes
  guard (base.generation == cp.covered_generation)
  some base

module _ {W : Type 0} (store : ObjectStore W) (clock : W → ℕ × W) (root : Text) where
  -- `if (otsardb_store_delete(store, key) == OTSARDB_STORE_OK) ++deleted;`
  unfoldable pub delete_key : Option Text → ℕ × W → ℕ × W
  delete_key none (deleted, w) = (deleted, w)
  delete_key (some key) (deleted, w) =
      let (rc, w1) = store_delete store key w in (if is_ok rc then deleted + 1 else deleted, w1)

  unfoldable pub delete_segments : ℕ → List SegmentRef → ℕ × W → ℕ × W
  unfolding delete_key segment_key
  delete_segments format_version [] s = s
  delete_segments format_version (ref ∷ refs) s =
      delete_segments format_version refs (delete_key (segment_key root format_version ref) s)

  -- All segments of a manifest, and the manifest.
  unfoldable pub delete_commit : Text → Manifest → ℕ × W → ℕ × W
  unfolding delete_key delete_segments
  delete_commit key m s = delete_key (some key) (delete_segments m.format_version m.segments s)

  -- The manifest of a commit, where it can be read and decoded.
  unfoldable pub read_commit : Text → W → Option Manifest × W
  unfolding decode_json
  read_commit key w = decoded_by decode_json (store_get store key w)

  abbrev pub parent_id : Manifest → Text
  parent_id m = snprintf (commit_id_max + 1) m.parent_commit_id

  -- The body of the loop, given what the next rounds do.
  unfoldable pub sweep_found :
      (ℕ → Text → ℕ × W → Option (ℕ × W)) → Text → Option Manifest → ℕ × W → Option (ℕ × W)
  unfolding delete_commit
  sweep_found rounds key none s = some s
  sweep_found rounds key (some m) s =
      let next = delete_commit key m s in
      let rest = rounds m.parent_generation (parent_id m) next in
      if m.parent_generation == 0 then some next else rest

  unfoldable pub sweep_keyed :
      (ℕ → Text → ℕ × W → Option (ℕ × W)) → Option Text → ℕ × W → Option (ℕ × W)
  unfolding read_commit sweep_found
  sweep_keyed rounds none s = some s
  sweep_keyed rounds (some key) (deleted, w) =
      let (found, w1) = read_commit key w in sweep_found rounds key found (deleted, w1)

  -- The loop over the superseded commits, from `current_id` on.
  unfoldable pub sweep_chain : ℕ → ℕ → Text → ℕ × W → Option (ℕ × W)
  unfolding commit_key sweep_keyed
  sweep_chain zero gen current_id s = if gen == 0 then some s else none
  sweep_chain (suc fuel) gen current_id s =
      let swept = sweep_keyed (sweep_chain fuel) (commit_key root current_id) s in
      if gen == 0 then some s else swept

  -- The lease goes only if its object names the expected owner.
  abbrev pub delete_lease_read : Text → Text → ℕ → StoreResult × Object × W → ℕ × W
  delete_lease_read key owner deleted (rc, object, w) =
      if is_ok rc && mem_contains object.bytes (owner_needle owner)
      then delete_key (some key) (deleted, w)
      else (deleted, w)

  unfoldable pub delete_lease : Option Text → ℕ × W → ℕ × W
  unfolding root_join mem_contains delete_key
  delete_lease none s = s
  delete_lease (some []) s = s
  delete_lease (some (c ∷ owner)) (deleted, w) =
      elim (root_join root (codes "lease.json") (head_key_max + 1)) [
        | none ↦ (deleted, w)
        | some key ↦ delete_lease_read key (c ∷ owner) deleted (store_get store key w)
      ]

  abbrev pub judged : ℕ → ℕ → ℕ × W → Retention × W
  judged modified keep_secs (time, w) = (
    (if ltb time ((modified + keep_secs) % 2 ^ 64) then Retention.young else Retention.passed),
    w,
  )

  abbrev pub age_judged : ℕ → StoreResult × Object × W → Retention × W
  age_judged keep_secs (rc, object, w) =
      if not (is_ok rc)
      then (Retention.unknown, w)
      else if object.last_modified_secs == 0
      then (Retention.young, w)
      else judged object.last_modified_secs keep_secs (clock w)

  -- Whether the checkpoint has outlived the window; a store that does not expose its age stops the sweep.
  unfoldable pub age_of : ℕ → Option Text → W → Retention × W
  age_of keep_secs none w = (Retention.unknown, w)
  age_of keep_secs (some key) w = age_judged keep_secs (store_get store key w)

  unfoldable pub retention : ℕ → W → Retention × W
  unfolding root_join age_of
  retention zero w = (Retention.passed, w)
  retention (suc keep) w =
      age_of (suc keep) (root_join root (codes "CHECKPOINT.json") (head_key_max + 1)) w

  unfoldable pub read_base_at : CheckpointPointer → Option Text → W → Option Manifest × W
  unfolding verified_base
  read_base_at cp none w = (none, w)
  read_base_at cp (some key) w = decoded_by (verified_base cp) (store_get store key w)

  -- The manifest of the commit that the checkpoint covers, where all tests pass.
  unfoldable pub read_base : CheckpointPointer → Option CheckpointManifest × W → Option Manifest × W
  unfolding commit_key read_base_at
  read_base cp (none, w) = (none, w)
  read_base cp (some checkpoint, w) = read_base_at cp (commit_key root checkpoint.base_commit_id) w

  -- After the loop, the lease.
  unfoldable pub sweep_ended : Option Text → Option (ℕ × W) → Outcome W
  unfolding delete_lease
  sweep_ended owner none = Outcome.out_of_fuel
  sweep_ended owner (some s) = let (deleted, w) = delete_lease owner s in Outcome.swept deleted w

  unfoldable pub sweep_below : ℕ → Option Text → Option Manifest × W → Outcome W
  unfolding sweep_chain sweep_ended
  sweep_below fuel owner (none, w) = Outcome.failed w
  sweep_below fuel owner (some base, w) =
      sweep_ended owner (sweep_chain fuel base.parent_generation (parent_id base) (0, w))

  unfoldable pub sweep_retained : ℕ → Option Text → CheckpointPointer → Retention × W → Outcome W
  unfolding verified_checkpoint read_base sweep_below
  sweep_retained fuel owner cp (Retention.unknown, w) = Outcome.failed w
  sweep_retained fuel owner cp (Retention.young, w) = Outcome.swept 0 w
  sweep_retained fuel owner cp (Retention.passed, w) =
      sweep_below fuel owner
        (read_base cp (decoded_by (verified_checkpoint cp) (store_get store cp.checkpoint_key w)))

  unfoldable pub sweep_from :
      ℕ → GcOptions → PointerResult × Option (CheckpointPointer × Text) × W → Outcome W
  unfolding retention sweep_retained
  sweep_from fuel options (PointerResult.ok, some (cp, etag), w) =
      sweep_retained fuel options.owner_expected cp (retention options.keep_secs w)
  sweep_from fuel options (_, found, w) = Outcome.failed w

  -- `otsardb_gc_sweep`, with fuel for the loop over the superseded commits.
  unfoldable pub gc_sweep : ℕ → GcOptions → W → Outcome W
  unfolding ptr_read sweep_from
  gc_sweep fuel options w = sweep_from fuel options (ptr_read store (some root) w)
