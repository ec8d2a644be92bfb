-- ===== src/Gc/Spared.antt =====
-- src/storage/gc.c: which objects a sweep may delete.
use otsardb.Base.{ℕ, ◌+◌, ◌≡◌, ◌≢◌, ◌⊎◌, inl, inr, refl, subst, Option, none, some, List}
use otsardb.Text.{Text}
use otsardb.ObjectStore.{ObjectStore, IsQuiet, store_get}
use otsardb.Journal.{head_key_max}
use otsardb.CommitManifest.{Manifest}
use otsardb.CheckpointManifest.{CheckpointManifest}
use otsardb.CheckpointManifest.Pointer.{
  CheckpointPointer, PointerResult, build_checkpoint_key, ptr_read_at, ptr_read,
}
use otsardb.Gc.{
  GcOptions, Retention, Outcome, commit_key, decoded_by, verified_checkpoint, verified_base,
  retention, read_base_at, read_base, parent_id, sweep_chain, sweep_below, sweep_retained,
  sweep_from, gc_sweep,
}
use otsardb.Gc.Chain.{Doomed}
use otsardb.Gc.Below.{Kept-below, below_not_failed, below_runs_out}
use otsardb.Gc.Base.{
  IsBase, Untouched, Untouched-get, read_first, Untouched-retention, Pointed, Pointed-at,
  Untouched-ptr,
}

module _ {W : Type 0} {store : ObjectStore W} {clock : W → ℕ × W} (quiet : IsQuiet store clock)
    (root : Text) (start : W) where
  open quiet use {content, clock_keeps, get_keeps, get_reads}

  -- What a sweep that ends has done to an object.
  abbrev pub Swept : Option Text → W → Type 0
  Swept owner w' =
      (k : Text)
      → (content w' k ≡ content start k)
        ⊎ ((base : Manifest) × IsBase quiet root start base
            × (content w' k ≡ none)
            × Doomed quiet root start base owner k)

  -- What each way to end leaves.
  abbrev pub Fine : ℕ → Option Text → Outcome W → Type 0
  Fine fuel owner (Outcome.failed w') = Untouched quiet root start w'
  Fine fuel owner (Outcome.swept deleted w') = Swept owner w'
  Fine fuel owner Outcome.out_of_fuel =
      (base : Manifest) × (w : W) × IsBase quiet root start base
      × Untouched quiet root start w
      × (sweep_chain store clock root fuel base.parent_generation (parent_id store clock root base)
            (0, w)
          ≡ none)

  Fine-cases :
      (fuel : ℕ) (owner : Option Text) (o : Outcome W)
      → ((w' : W) → o ≢ Outcome.failed w')
      → ((deleted : ℕ) (w' : W) → o ≡ Outcome.swept deleted w' → Swept owner w')
      → (o ≡ Outcome.out_of_fuel → Fine fuel owner Outcome.out_of_fuel)
      → Fine fuel owner o
  Fine-cases fuel owner (Outcome.failed w') fails ends runs_out = absurd (fails w' refl)
  Fine-cases fuel owner (Outcome.swept deleted w') fails ends runs_out = ends deleted w' refl
  Fine-cases fuel owner Outcome.out_of_fuel fails ends runs_out = runs_out refl

  -- Up to the base, from a world where nothing is deleted.
  module _ (fuel : ℕ) (owner : Option Text) (cp : CheckpointPointer)
      (pointed : Pointed quiet root start cp) where
    Fine-found :
        (found : Option Manifest) (w : W)
        → ((base : Manifest) → found ≡ some base → IsBase quiet root start base)
        → Untouched quiet root start w
        → Fine fuel owner (sweep_below store clock root fuel owner (found, w))
    unfolding sweep_below
    Fine-found none w is_base same = same
    Fine-found (some base) w is_base same =
        Fine-cases fuel owner (sweep_below store clock root fuel owner (some base, w))
          (below_not_failed quiet root start base owner fuel w)
          (λ deleted w' h k.
            elim (Kept-below quiet root start base owner fuel w deleted w' (λ x. inl (same x)) h
              k) [
                | inl unchanged ↦ inl unchanged
                | inr (gone, doomed) ↦ inr (base, is_base base refl, gone, doomed)
              ])
          (λ h.
            (base, w, is_base base refl, same, below_runs_out quiet root start base owner fuel w h))

    Fine-at :
        (checkpoint : CheckpointManifest) (bytes : List ℕ) (key : Option Text) (w : W)
        → content start cp.checkpoint_key ≡ some bytes
        → verified_checkpoint cp bytes ≡ some checkpoint
        → commit_key root checkpoint.base_commit_id ≡ key
        → Untouched quiet root start w
        → Fine fuel owner
            (sweep_below store clock root fuel owner (read_base_at store clock root cp key w))
    unfolding read_base_at
    Fine-at checkpoint bytes none w stored verified keyed same =
        Fine-found none w (λ base e. absurd (cc e)) same
    Fine-at checkpoint bytes (some key) w stored verified keyed same =
        let p = store_get store key w in
        Fine-found (decoded_by (verified_base cp) p).0 p.2
          (λ base e.
            let (base_bytes, base_stored, base_verified) =
              read_first quiet root start w key (verified_base cp) base same e in
            record {
              pointer = cp;
              pointer_key = pointed.key;
              pointer_bytes = pointed.bytes;
              pointer_keyed = pointed.keyed;
              pointer_stored = pointed.stored;
              pointer_decodes = pointed.decodes;
              checkpoint = checkpoint;
              checkpoint_bytes = bytes;
              checkpoint_stored = stored;
              checkpoint_verified = verified;
              base_key = key;
              base_bytes = base_bytes;
              base_keyed = keyed;
              base_stored = base_stored;
              base_verified = base_verified;
            })
          (Untouched-get quiet root start w key same)

    Fine-checkpoint :
        (found : Option CheckpointManifest) (w : W)
        → ((checkpoint : CheckpointManifest)
            → found ≡ some checkpoint
            → (bytes : List ℕ) × (content start cp.checkpoint_key ≡ some bytes)
              × (verified_checkpoint cp bytes ≡ some checkpoint))
        → Untouched quiet root start w
        → Fine fuel owner
            (sweep_below store clock root fuel owner (read_base store clock root cp (found, w)))
    unfolding read_base
    Fine-checkpoint none w read same = Fine-found none w (λ base e. absurd (cc e)) same
    Fine-checkpoint (some checkpoint) w read same =
        let (bytes, stored, verified) = read checkpoint refl in
        Fine-at checkpoint bytes (commit_key root checkpoint.base_commit_id) w stored verified refl
          same

    Fine-retained :
        (r : Retention) (w : W)
        → Untouched quiet root start w
        → Fine fuel owner (sweep_retained store clock root fuel owner cp (r, w))
    unfolding sweep_retained
    Fine-retained Retention.unknown w same = same
    Fine-retained Retention.young w same = λ k. inl (same k)
    Fine-retained Retention.passed w same =
        let p = store_get store cp.checkpoint_key w in
        Fine-checkpoint (decoded_by (verified_checkpoint cp) p).0 p.2
          (λ checkpoint e.
            read_first quiet root start w cp.checkpoint_key (verified_checkpoint cp) checkpoint same
              e)
          (Untouched-get quiet root start w cp.checkpoint_key same)

  Fine-from :
      (fuel : ℕ) (options : GcOptions) (result : PointerResult)
      (found : Option (CheckpointPointer × Text)) (w : W)
      → ((cp : CheckpointPointer) (etag : Text)
          → found ≡ some (cp, etag)
          → Pointed quiet root start cp)
      → Untouched quiet root start w
      → Fine fuel options.owner_expected
          (sweep_from store clock root fuel options (result, found, w))
  unfolding sweep_from
  Fine-from fuel options PointerResult.not_found found w pointed same = same
  Fine-from fuel options PointerResult.error found w pointed same = same
  Fine-from fuel options PointerResult.ok none w pointed same = same
  Fine-from fuel options PointerResult.ok (some (cp, etag)) w pointed same =
      let r = retention store clock root options.keep_secs w in
      Fine-retained fuel options.owner_expected cp (pointed cp etag refl) r.0 r.1
        (Untouched-retention quiet root start options.keep_secs w same)

  pub gc_sweep-Fine :
      (fuel : ℕ) (options : GcOptions)
      → Fine fuel options.owner_expected (gc_sweep store clock root fuel options start)
  unfolding gc_sweep ptr_read
  gc_sweep-Fine fuel options =
      let key = build_checkpoint_key (some root) (head_key_max + 1) in
      let p = ptr_read_at store key start in
      Fine-from fuel options p.0 p.1 p.2
        (λ cp etag e. Pointed-at quiet root start key cp etag refl e)
        (Untouched-ptr quiet root start key)

  -- While nobody else acts, a sweep that ends leaves each object as it was, or has deleted it; then the
  -- newest checkpoint has a base whose generation it covers, and the object is the manifest or a segment
  -- of a commit below the base, or the lease with the expected owner.
  pub gc_sweep_spares :
      (fuel : ℕ) (options : GcOptions) (deleted : ℕ) (w' : W) (k : Text)
      → gc_sweep store clock root fuel options start ≡ Outcome.swept deleted w'
      → (content w' k ≡ content start k)
        ⊎ ((base : Manifest) × IsBase quiet root start base
            × (content w' k ≡ none)
            × Doomed quiet root start base options.owner_expected k)
  gc_sweep_spares fuel options deleted w' k h =
      subst (Fine fuel options.owner_expected) h (gc_sweep-Fine fuel options) k

  -- While nobody else acts, a sweep that returns -1 has changed no object.
  pub gc_sweep_fails :
      (fuel : ℕ) (options : GcOptions) (w' : W) (k : Text)
      → gc_sweep store clock root fuel options start ≡ Outcome.failed w'
      → content w' k ≡ content start k
  gc_sweep_fails fuel options w' k h =
      subst (Fine fuel options.owner_expected) h (gc_sweep-Fine fuel options) k
