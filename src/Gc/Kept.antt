-- ===== src/Gc/Kept.antt =====
-- src/storage/gc.c: what the steps of a sweep leave of the objects, while nobody else acts.
use otsardb.Base.{
  ℕ, ◌≡◌, ◌≢◌, ◌⊎◌, inl, inr, refl, ap, sym, subst, ◌∙◌, true, Option, none, some, List, [], ◌∷◌,
  Bool-cases, if◌then◌else◌,
}
use otsardb.Text.{Text, text_eq}
use otsardb.Text.Search.{text_eq_refl, text_eq→eq}
use otsardb.ObjectStore.{StoreResult, ObjectStore, IsQuiet, is_ok, store_get, store_delete}
use otsardb.CommitManifest.{SegmentRef, Manifest}
use otsardb.Gc.{decoded_by, segment_key, delete_key, delete_segments, delete_commit}

pub ok_of : (rc : StoreResult) → is_ok rc ≡ true → rc ≡ StoreResult.ok
ok_of StoreResult.ok h = refl
ok_of StoreResult.not_found h = absurd (cc h)
ok_of StoreResult.precondition_failed h = absurd (cc h)
ok_of StoreResult.error h = absurd (cc h)
ok_of StoreResult.not_empty h = absurd (cc h)
ok_of StoreResult.timeout h = absurd (cc h)
ok_of StoreResult.unsupported h = absurd (cc h)

-- The keys that the entries of a manifest name.
pub data Listed (root : Text) (format : ℕ) : List SegmentRef → Text → Type 0 where
  first :
      (ref : SegmentRef) (refs : List SegmentRef) (key : Text)
      → segment_key root format ref ≡ some key
      → Listed root format (ref ∷ refs) key
  later :
      (ref : SegmentRef) (refs : List SegmentRef) (key : Text)
      → Listed root format refs key
      → Listed root format (ref ∷ refs) key

module _ {W : Type 0} {store : ObjectStore W} {clock : W → ℕ × W} (quiet : IsQuiet store clock)
    (root : Text) (start : W) where
  open quiet use {content, clock_keeps, get_keeps, get_reads, delete_keeps, delete_removes}

  -- Since `start` each object is as it was, or it is gone and its key is in `D`.
  abbrev pub Kept : (Text → Type 0) → W → Type 0
  Kept D w = (k : Text) → (content w k ≡ content start k) ⊎ ((content w k ≡ none) × D k)

  pub Kept-start : (D : Text → Type 0) → Kept D start
  Kept-start D k = inl refl

  Kept-at :
      (D : Text → Type 0) (w' w : W) (k : Text)
      → content w' k ≡ content w k
      → (content w k ≡ content start k) ⊎ ((content w k ≡ none) × D k)
      → (content w' k ≡ content start k) ⊎ ((content w' k ≡ none) × D k)
  Kept-at D w' w k same (inl h) = inl (same ∙ h)
  Kept-at D w' w k same (inr (h, d)) = inr (same ∙ h, d)

  pub Kept-get :
      (D : Text → Type 0) (w : W) (key : Text) → Kept D w → Kept D (store_get store key w).2
  Kept-get D w key kept k = Kept-at D (store_get store key w).2 w k (get_keeps key w k) (kept k)

  pub Kept-clock : (D : Text → Type 0) (w : W) → Kept D w → Kept D (clock w).1
  Kept-clock D w kept k = Kept-at D (clock w).1 w k (clock_keeps w k) (kept k)

  -- What can be read was there at the start.
  pub held :
      (D : Text → Type 0) (w : W) (key : Text) (bytes : List ℕ)
      → Kept D w
      → content w key ≡ some bytes
      → content start key ≡ some bytes
  held D w key bytes kept h = elim (kept key) [
    | inl same ↦ sym same ∙ h
    | inr (gone, d) ↦ absurd (cc (sym gone ∙ h))
  ]

  pub read_held :
      {A : Type 0} (D : Text → Type 0) (w : W) (key : Text) (decoder : List ℕ → Option A) (a : A)
      → Kept D w
      → (decoded_by decoder (store_get store key w)).0 ≡ some a
      → (bytes : List ℕ) × (content start key ≡ some bytes) × (decoder bytes ≡ some a)
  read_held D w key decoder a kept h =
      let p = store_get store key w in
      elim (Bool-cases (is_ok p.0)) [
        | inl ok ↦ (
          p.1.bytes,
          held D w key p.1.bytes kept (get_reads key w (ok_of p.0 ok)),
          sym (ap (λ b. if b then decoder p.1.bytes else none) ok) ∙ h,
        )
        | inr fails ↦ absurd (cc (sym (ap (λ b. if b then decoder p.1.bytes else none) fails) ∙ h))
      ]

  Kept-delete :
      (D : Text → Type 0) (w : W) (key : Text)
      → D key
      → Kept D w
      → Kept D (store_delete store key w).1
  Kept-delete D w key d kept k = elim (Bool-cases (text_eq k key)) [
    | inl same ↦
        let e = sym (text_eq→eq k key same) in
        subst
          (λ x.
            (content (store_delete store key w).1 x ≡ content start x)
            ⊎ ((content (store_delete store key w).1 x ≡ none) × D x))
          e
          (elim (delete_removes key w) [
            | inr gone ↦ inr (gone, d)
            | inl unchanged ↦ elim (kept key) [
              | inl h ↦ inl (unchanged ∙ h)
              | inr (h, d') ↦ inr (unchanged ∙ h, d')
            ]
          ])
    | inr other ↦
        let ne : k ≢ key = λ e. cc (sym other ∙ ap (text_eq k) (sym e) ∙ text_eq_refl k) in
        Kept-at D (store_delete store key w).1 w k (delete_keeps key w k ne) (kept k)
  ]

  pub Kept-delete_key :
      (D : Text → Type 0) (key : Option Text) (s : ℕ × W)
      → ((k : Text) → key ≡ some k → D k)
      → Kept D s.1
      → Kept D (delete_key store clock root key s).1
  unfolding delete_key
  Kept-delete_key D none s d kept = kept
  Kept-delete_key D (some key) s d kept = Kept-delete D s.1 key (d key refl) kept

  Kept-delete_segments :
      (D : Text → Type 0) (format : ℕ) (refs : List SegmentRef) (s : ℕ × W)
      → ((k : Text) → Listed root format refs k → D k)
      → Kept D s.1
      → Kept D (delete_segments store clock root format refs s).1
  unfolding delete_segments
  Kept-delete_segments D format [] s d kept = kept
  Kept-delete_segments D format (ref ∷ refs) s d kept =
      let key = segment_key root format ref in
      Kept-delete_segments D format refs (delete_key store clock root key s)
        (λ k h. d k (Listed.later ref refs k h))
        (Kept-delete_key D key s (λ k e. d k (Listed.first ref refs k e)) kept)

  pub Kept-delete_commit :
      (D : Text → Type 0) (key : Text) (m : Manifest) (s : ℕ × W)
      → D key
      → ((k : Text) → Listed root m.format_version m.segments k → D k)
      → Kept D s.1
      → Kept D (delete_commit store clock root key m s).1
  unfolding delete_commit
  Kept-delete_commit D key m s d listed kept =
      let s1 = delete_segments store clock root m.format_version m.segments s in
      Kept-delete_key D (some key) s1 (λ k e. subst D (cc e) d)
        (Kept-delete_segments D m.format_version m.segments s listed kept)
