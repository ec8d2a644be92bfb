-- ===== src/Journal/Read.antt =====
-- src/storage/journal.c: what a read of HEAD means on a store with conditional writes.
use otsardb.Base.{
  ℕ, ◌+◌, ◌≤◌, ◌≡◌, refl, ap, sym, subst, ◌∙◌, Option, none, some, List, [], ◌∷◌, length, arith,
  Bool-cases, inl, inr,
}
use otsardb.Text.{Text, text_eq}
use otsardb.ObjectStore.{StoreResult, Object, ObjectStore, IsConditional, store_get}
use otsardb.Journal.{
  head_key_max, Head, JournalResult, build_head_key, head_decode_json, no_head, decoded_head,
  after_head_get, read_head,
}

abbrev pub head_key : Text → Option Text
head_key root = build_head_key (some root) (head_key_max + 1)

-- The operations at the key of HEAD.
module _ {W : Type 0} (store : ObjectStore W) (root key : Text)
    (at : head_key root ≡ some key) where
  pub read_head_at :
      (w : W) → read_head store (some root) w ≡ after_head_get (store_get store key w)
  unfolding read_head
  read_head_at w =
      ap
        (λ q. elim q [
          | none ↦ no_head JournalResult.invalid w
          | some k ↦ after_head_get (store_get store k w)
        ])
        at

module _ {W : Type 0} {store : ObjectStore W} {clock : W → ℕ × W}
    (c : IsConditional store clock) where
  open c use {
    Later, later_trans, Names, names_one, names_given, names_kept, content, get_later, put_later,
    put_writes, put_matches, put_creates, get_reads,
  }

  -- HEAD as it was read: its document, and its tag in the world after the read.
  pub record ReadAs (key : Text) (head : Head) (etag : Text) (w : W) : Type 0 where
    pub document : List ℕ
    pub decodes : head_decode_json document ≡ some head
    pub tagged : Names w etag document
    pub holds : content w key ≡ some document

  decoded_ok :
      (etag : Option Text) (q : Option Head) (w : W) (head : Head) (e : Text)
      → (decoded_head etag q w).result ≡ JournalResult.ok
      → (decoded_head etag q w).head ≡ some head
      → (decoded_head etag q w).etag ≡ some e
      → (q ≡ some head) × (etag ≡ some e) × ((decoded_head etag q w).world ≡ w)
  unfolding decoded_head
  decoded_ok etag none w head e h h' h'' = absurd (cc h)
  decoded_ok none (some k) w head e h h' h'' = absurd (cc h)
  decoded_ok (some t) (some k) w head e h h' h'' = elim (Bool-cases (text_eq t [])) [
    | inl blank ↦ absurd (cc (rw blank at h))
    | inr given ↦ (rw given at h', rw given at h'', rw given refl)
  ]

  get_ok :
      (key : Text) (r : StoreResult) (o : Object) (w : W) (head : Head) (e : Text)
      → (r ≡ StoreResult.ok
          → ((t : Text) × (o.etag ≡ some t) × Names w t o.bytes) × (content w key ≡ some o.bytes))
      → (after_head_get (r, o, w)).result ≡ JournalResult.ok
      → (after_head_get (r, o, w)).head ≡ some head
      → (after_head_get (r, o, w)).etag ≡ some e
      → ReadAs key head e (after_head_get (r, o, w)).world
  unfolding after_head_get
  get_ok key StoreResult.ok o w head e reads h h' h'' =
      let ((t, tag, names), holds) = reads refl in
      let (decodes, same, world) = decoded_ok o.etag (head_decode_json o.bytes) w head e h h' h'' in
      let named : t ≡ e = cc (sym tag ∙ same) in
      record {
        document = o.bytes;
        decodes = decodes;
        tagged =
            subst (λ x. Names x e o.bytes) (sym world) (subst (λ x. Names w x o.bytes) named names);
        holds = ap (λ x. content x key) world ∙ holds;
      }
  get_ok key StoreResult.not_found o w head e reads h h' h'' = absurd (cc h)
  get_ok key StoreResult.precondition_failed o w head e reads h h' h'' = absurd (cc h)
  get_ok key StoreResult.error o w head e reads h h' h'' = absurd (cc h)
  get_ok key StoreResult.not_empty o w head e reads h h' h'' = absurd (cc h)
  get_ok key StoreResult.timeout o w head e reads h h' h'' = absurd (cc h)
  get_ok key StoreResult.unsupported o w head e reads h h' h'' = absurd (cc h)

  pub read_as :
      (root key : Text) (head : Head) (e : Text) (w : W)
      → head_key root ≡ some key
      → (read_head store (some root) w).result ≡ JournalResult.ok
      → (read_head store (some root) w).head ≡ some head
      → (read_head store (some root) w).etag ≡ some e
      → ReadAs key head e (read_head store (some root) w).world
  read_as root key head e w at h h' h'' =
      let p = store_get store key w in
      let same = read_head_at store root key at w in
      subst (λ r. ReadAs key head e r.world) (sym same)
        (get_ok key p.0 p.1 p.2 head e (λ ok. get_reads key w p.2 p.1 (ap (λ r. (r, p.1, p.2)) ok))
          (sym (ap (λ r. r.result) same) ∙ h) (sym (ap (λ r. r.head) same) ∙ h')
          (sym (ap (λ r. r.etag) same) ∙ h''))

  pub usable :
      (o : Object) (t : Text) (head : Head) (w : W)
      → o.etag ≡ some t
      → 1 ≤ length t
      → head_decode_json o.bytes ≡ some head
      → after_head_get (StoreResult.ok, o, w)
        ≡ record { result = JournalResult.ok; head = some head; etag = some t; world = w }
  unfolding after_head_get decoded_head
  usable o (x ∷ t) head w tag long decodes =
      ap (λ e. decoded_head e (head_decode_json o.bytes) w) tag
      ∙ ap (λ q. decoded_head (some (x ∷ t)) q w) decodes
  usable o [] head w tag long decodes = absurd (omega arith)
