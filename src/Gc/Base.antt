-- ===== src/Gc/Base.antt =====
-- src/storage/gc.c: what a sweep reads before the loop.
use otsardb.Base.{
  ℕ, zero, suc, ◌+◌, ◌≡◌, inl, inr, refl, ap, sym, ◌∙◌, Bool, true, false, Option, none, some, List,
  [], ◌∷◌, Bool-cases, if◌then◌else◌, ◌==◌, not, some_eq,
}
use otsardb.Text.{Text}
use otsardb.ObjectStore.{ObjectStore, IsQuiet, is_ok, store_get}
use otsardb.Journal.{head_key_max}
use otsardb.CommitManifest.{Manifest}
use otsardb.CheckpointManifest.{CheckpointManifest}
use otsardb.CheckpointManifest.Pointer.{
  CheckpointPointer, ptr_decode, with_etag, after_ptr_get, build_checkpoint_key, ptr_read_at,
}
use otsardb.Gc.{
  Retention, commit_key, decoded_by, verified_checkpoint, verified_base, judged, age_of, retention,
}
use otsardb.Gc.Kept.{read_held, ok_of}

both_worlds :
    {W : Type 0} (P : W → Type 0) (fails new : Bool) (a b : Retention) (w : W) (p : Retention × W)
    → P w
    → P p.1
    → P (if fails then (a, w) else if new then (b, w) else p).1
both_worlds P true new a b w p h k = h
both_worlds P false true a b w p h k = h
both_worlds P false false a b w p h k = k

with_etag-some :
    (q : Option CheckpointPointer) (etag : Option Text) (cp : CheckpointPointer) (t : Text)
    → with_etag q etag ≡ some (cp, t)
    → q ≡ some cp
with_etag-some none etag cp t h = absurd (cc h)
with_etag-some (some ptr) none cp t h = absurd (cc h)
with_etag-some (some ptr) (some []) cp t h = absurd (cc h)
with_etag-some (some ptr) (some (c ∷ etag)) cp t h =
    ap (λ p. some p.0) (some_eq (ptr, c ∷ etag) (cp, t) h)

module _ {W : Type 0} {store : ObjectStore W} {clock : W → ℕ × W} (quiet : IsQuiet store clock)
    (root : Text) (start : W) where
  open quiet use {content, clock_keeps, get_keeps, get_reads}

  -- The base of the newest checkpoint: the checkpoint has the hash that the pointer names, and the base
  -- has the generation that the pointer covers.
  pub record IsBase (base : Manifest) : Type 0 where
    pub pointer : CheckpointPointer
    pub pointer_key : Text
    pub pointer_bytes : List ℕ
    pub pointer_keyed : build_checkpoint_key (some root) (head_key_max + 1) ≡ some pointer_key
    pub pointer_stored : content start pointer_key ≡ some pointer_bytes
    pub pointer_decodes : ptr_decode pointer_bytes ≡ some pointer
    pub checkpoint : CheckpointManifest
    pub checkpoint_bytes : List ℕ
    pub checkpoint_stored : content start pointer.checkpoint_key ≡ some checkpoint_bytes
    pub checkpoint_verified : verified_checkpoint pointer checkpoint_bytes ≡ some checkpoint
    pub base_key : Text
    pub base_bytes : List ℕ
    pub base_keyed : commit_key root checkpoint.base_commit_id ≡ some base_key
    pub base_stored : content start base_key ≡ some base_bytes
    pub base_verified : verified_base pointer base_bytes ≡ some base

  abbrev pub Untouched : W → Type 0
  Untouched w = (k : Text) → content w k ≡ content start k

  pub Untouched-get : (w : W) (key : Text) → Untouched w → Untouched (store_get store key w).2
  Untouched-get w key same k = get_keeps key w k ∙ same k

  -- What is read before the loop.
  pub read_first :
      {A : Type 0} (w : W) (key : Text) (decoder : List ℕ → Option A) (a : A)
      → Untouched w
      → (decoded_by decoder (store_get store key w)).0 ≡ some a
      → (bytes : List ℕ) × (content start key ≡ some bytes) × (decoder bytes ≡ some a)
  read_first w key decoder a same h =
      read_held quiet root start (λ k. Unit {0}) w key decoder a (λ k. inl (same k)) h

  Untouched-age :
      (keep : ℕ) (key : Option Text) (w : W)
      → Untouched w
      → Untouched (age_of store clock root keep key w).1
  unfolding age_of
  Untouched-age keep none w same = same
  Untouched-age keep (some key) w same =
      let p = store_get store key w in
      let same' = Untouched-get w key same in
      both_worlds Untouched (not (is_ok p.0)) (p.1.last_modified_secs == 0) Retention.unknown
        Retention.young p.2 (judged store clock root p.1.last_modified_secs keep (clock p.2)) same'
        (λ k. clock_keeps p.2 k ∙ same' k)

  pub Untouched-retention :
      (keep : ℕ) (w : W) → Untouched w → Untouched (retention store clock root keep w).1
  unfolding retention
  Untouched-retention zero w same = same
  Untouched-retention (suc keep) w same = Untouched-age (suc keep) _ w same

  -- The pointer as it was read.
  pub record Pointed (cp : CheckpointPointer) : Type 0 where
    pub key : Text
    pub bytes : List ℕ
    pub keyed : build_checkpoint_key (some root) (head_key_max + 1) ≡ some key
    pub stored : content start key ≡ some bytes
    pub decodes : ptr_decode bytes ≡ some cp

  pub Pointed-at :
      (key : Option Text) (cp : CheckpointPointer) (etag : Text)
      → build_checkpoint_key (some root) (head_key_max + 1) ≡ key
      → (ptr_read_at store key start).1 ≡ some (cp, etag)
      → Pointed cp
  unfolding ptr_read_at after_ptr_get
  Pointed-at none cp etag keyed h = absurd (cc h)
  Pointed-at (some key) cp etag keyed h =
      let p = store_get store key start in
      let found = with_etag (ptr_decode p.1.bytes) p.1.etag in
      elim (Bool-cases (is_ok p.0)) [
        | inl ok ↦ record {
          key = key;
          bytes = p.1.bytes;
          keyed = keyed;
          stored = get_reads key start (ok_of p.0 ok);
          decodes =
              with_etag-some (ptr_decode p.1.bytes) p.1.etag cp etag
                (sym (ap (λ b. if b then found else none) ok) ∙ h);
        }
        | inr fails ↦ absurd (cc (sym (ap (λ b. if b then found else none) fails) ∙ h))
      ]

  pub Untouched-ptr : (key : Option Text) → Untouched (ptr_read_at store key start).2
  unfolding ptr_read_at after_ptr_get
  Untouched-ptr none k = refl
  Untouched-ptr (some key) k = get_keeps key start k
