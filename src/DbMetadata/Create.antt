-- ===== src/DbMetadata/Create.antt =====
-- src/storage/db_metadata.c: the creation of the metadata on a store with conditional writes.
use otsardb.Base.{ℕ, ◌+◌, ◌≡◌, refl, ap, sym, ◌∙◌, true, Option, none, some, Bool-cases, inl, inr}
use otsardb.Text.{Text}
use otsardb.ObjectStore.{
  StoreResult, Object, PutOptions, no_options, ObjectStore, IsConditional, conditional_create,
  supports, store_get, store_put,
}
use otsardb.DbMetadata.{
  metadata_key_max, Metadata, MetadataResult, build_key, encode_json, decode_json, after_put,
  after_read, create_unguarded, create_at, create, read,
}
use otsardb.DbMetadata.Json.{Fits, decode_json-encode_json}

abbrev pub metadata_key : Text → Option Text
metadata_key root = build_key (some root) (metadata_key_max + 1)

abbrev if_new : PutOptions
if_new = record { if_none_match = true; if_match_etag = none }

module _ {W : Type 0} {store : ObjectStore W} {clock : W → ℕ × W}
    (c : IsConditional store clock) where
  open c use {content, put_writes, put_creates, get_reads}

  after_put_ok :
      (r : StoreResult) (e : Option Text) (w w' : W)
      → after_put (r, e, w) ≡ (MetadataResult.ok, w')
      → (r ≡ StoreResult.ok) × (w ≡ w')
  unfolding after_put
  after_put_ok StoreResult.ok e w w' h = (refl, ap (λ p. p.1) h)
  after_put_ok StoreResult.not_found e w w' h = absurd (cc (ap (λ p. p.0) h))
  after_put_ok StoreResult.precondition_failed e w w' h = absurd (cc (ap (λ p. p.0) h))
  after_put_ok StoreResult.error e w w' h = absurd (cc (ap (λ p. p.0) h))
  after_put_ok StoreResult.not_empty e w w' h = absurd (cc (ap (λ p. p.0) h))
  after_put_ok StoreResult.timeout e w w' h = absurd (cc (ap (λ p. p.0) h))
  after_put_ok StoreResult.unsupported e w w' h = absurd (cc (ap (λ p. p.0) h))

  put_ok :
      (key json : Text) (options : PutOptions) (w w' : W)
      → after_put (store_put store key json options w) ≡ (MetadataResult.ok, w')
      → (e : Option Text) × (store_put store key json options w ≡ (StoreResult.ok, e, w'))
  put_ok key json options w w' h =
      let p = store_put store key json options w in
      let (ok, after) = after_put_ok p.0 p.1 p.2 w' h in
      (p.1, ap (λ r. (r, p.1, p.2)) ok ∙ ap (λ x. (StoreResult.ok, p.1, x)) after)

  unguarded_writes :
      (key json : Text) (r : StoreResult) (o : Object) (w w' : W)
      → create_unguarded store key json (r, o, w) ≡ (MetadataResult.ok, w')
      → content w' key ≡ some json
  unfolding create_unguarded
  unguarded_writes key json StoreResult.not_found o w w' h =
      let (e, put) = put_ok key json no_options w w' h in
      (put_writes key json no_options w w' e put).1
  unguarded_writes key json StoreResult.ok o w w' h = absurd (cc (ap (λ p. p.0) h))
  unguarded_writes key json StoreResult.precondition_failed o w w' h = absurd (cc (ap (λ p. p.0) h))
  unguarded_writes key json StoreResult.error o w w' h = absurd (cc (ap (λ p. p.0) h))
  unguarded_writes key json StoreResult.not_empty o w w' h = absurd (cc (ap (λ p. p.0) h))
  unguarded_writes key json StoreResult.timeout o w w' h = absurd (cc (ap (λ p. p.0) h))
  unguarded_writes key json StoreResult.unsupported o w w' h = absurd (cc (ap (λ p. p.0) h))

  create_at_writes :
      (key json : Text) (w w' : W)
      → create_at store key json w ≡ (MetadataResult.ok, w')
      → (content w' key ≡ some json)
        × (supports store conditional_create ≡ true → content w key ≡ none)
  unfolding create_at
  create_at_writes key json w w' h = elim (Bool-cases (supports store conditional_create)) [
    | inl guarded ↦
        let (e, put) = put_ok key json if_new w w' (rw guarded at h) in
        ((put_writes key json if_new w w' e put).1, λ _. put_creates key json w w' e put)
    | inr unguarded ↦
        let p = store_get store key w in
        (
          unguarded_writes key json p.0 p.1 p.2 w' (rw unguarded at h),
          λ yes'. absurd (cc (sym yes' ∙ unguarded)),
        )
  ]

  create_both :
      (root key json : Text) (m : Metadata) (w w' : W)
      → metadata_key root ≡ some key
      → encode_json m ≡ some json
      → create store (some root) m w ≡ (MetadataResult.ok, w')
      → (content w' key ≡ some json)
        × (supports store conditional_create ≡ true → content w key ≡ none)
  unfolding create
  create_both root key json m w w' at encodes h =
      let as_key =
        ap
          (λ q. elim q [
            | none ↦ (MetadataResult.invalid, w)
            | some k ↦ elim (encode_json m) [
              | none ↦ (MetadataResult.invalid, w)
              | some j ↦ create_at store k j w
            ]
          ])
          at in
      let as_json =
        ap (λ q. elim q [ none ↦ (MetadataResult.invalid, w) | some j ↦ create_at store key j w ])
          encodes in
      create_at_writes key json w w' (sym (as_key ∙ as_json) ∙ h)

  -- On a store with conditional creation, a creation that succeeds has written the document of the
  -- metadata, and there was no object before: what another process created is not replaced.
  pub create_writes :
      (root key json : Text) (m : Metadata) (w w' : W)
      → metadata_key root ≡ some key
      → encode_json m ≡ some json
      → supports store conditional_create ≡ true
      → create store (some root) m w ≡ (MetadataResult.ok, w')
      → (content w key ≡ none) × (content w' key ≡ some json)
  create_writes root key json m w w' at encodes guarded h =
      let (after, before) = create_both root key json m w w' at encodes h in (before guarded, after)

  -- Metadata whose fields fit is read back after its creation, if the object has not changed and the
  -- read gets it.
  pub read-create :
      (root key : Text) (m : Metadata) (json : Text) (o : Object) (w w' v v' : W)
      → metadata_key root ≡ some key
      → Fits m
      → encode_json m ≡ some json
      → create store (some root) m w ≡ (MetadataResult.ok, w')
      → store_get store key v ≡ (StoreResult.ok, o, v')
      → content v' key ≡ content w' key
      → read store (some root) v ≡ (MetadataResult.ok, some m, v')
  unfolding read after_read
  read-create root key m json o w w' v v' at fits encodes h got kept =
      let written = (create_both root key json m w w' at encodes h).0 in
      let holds = (get_reads key v v' o got).1 in
      let bytes : o.bytes ≡ json = cc (sym holds ∙ kept ∙ written) in
      ap
        (λ q. elim q [
          | none ↦ (MetadataResult.invalid, none, v)
          | some k ↦ after_read (store_get store k v)
        ])
        at
      ∙ ap after_read got
      ∙ ap
          (λ q. elim q [
            | none ↦ (MetadataResult.invalid, none, v')
            | some n ↦ (MetadataResult.ok, some n, v')
          ])
          (ap decode_json bytes ∙ decode_json-encode_json m json fits encodes)
