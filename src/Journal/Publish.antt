-- ===== src/Journal/Publish.antt =====
-- src/storage/journal.c: what the publication of HEAD means on a store with conditional writes.
use otsardb.Base.{
  ℕ, ◌≡◌, ◌≢◌, refl, ap, sym, subst, ◌∙◌, Bool, true, false, Option, none, some, List,
  if◌then◌else◌,
}
use otsardb.Text.{Text}
use otsardb.ObjectStore.{
  StoreResult, Object, PutOptions, ObjectStore, IsConditional, store_get, store_put,
}
use otsardb.Journal.{
  Head, JournalResult, head_encode_json, head_decode_json, after_head_get, after_head_put,
  read_head, publish_head_json, publish_head,
}
use otsardb.Journal.Json.{Fits, head_decode_json-head_encode_json}
use otsardb.Journal.Read.{head_key, read_head_at, read_as, usable}

abbrev pub if_expected : Option Text → Bool → PutOptions
if_expected expected_etag create_if_missing = record {
  if_none_match = create_if_missing;
  if_match_etag = if create_if_missing then none else expected_etag;
}

-- The operations at the key of HEAD.
module _ {W : Type 0} (store : ObjectStore W) (root key : Text)
    (at : head_key root ≡ some key) where
  publish_head_json_at :
      (head : Head) (options : PutOptions) (w : W)
      → publish_head_json store (some root) head options w
        ≡ after_head_put (store_put store key (head_encode_json head) options w)
  unfolding publish_head_json
  publish_head_json_at head options w =
      ap
        (λ q. elim q [
          | none ↦ (JournalResult.invalid, none, w)
          | some k ↦ after_head_put (store_put store k (head_encode_json head) options w)
        ])
        at

module _ {W : Type 0} {store : ObjectStore W} {clock : W → ℕ × W}
    (c : IsConditional store clock) where
  open c use {
    Later, later_trans, Names, names_one, names_given, names_kept, content, get_later, put_later,
    put_writes, put_matches, put_creates, get_reads,
  }

  after_put_ok :
      (r : StoreResult) (e t : Option Text) (w w' : W)
      → after_head_put (r, e, w) ≡ (JournalResult.ok, t, w')
      → (r ≡ StoreResult.ok) × (e ≡ t) × (w ≡ w')
  unfolding after_head_put
  after_put_ok StoreResult.ok e t w w' h = (refl, ap (λ p. p.1) h, ap (λ p. p.2) h)
  after_put_ok StoreResult.not_found e t w w' h = absurd (cc (ap (λ p. p.0) h))
  after_put_ok StoreResult.precondition_failed e t w w' h = absurd (cc (ap (λ p. p.0) h))
  after_put_ok StoreResult.error e t w w' h = absurd (cc (ap (λ p. p.0) h))
  after_put_ok StoreResult.not_empty e t w w' h = absurd (cc (ap (λ p. p.0) h))
  after_put_ok StoreResult.timeout e t w w' h = absurd (cc (ap (λ p. p.0) h))
  after_put_ok StoreResult.unsupported e t w w' h = absurd (cc (ap (λ p. p.0) h))

  json_ok :
      (root key : Text) (head : Head) (options : PutOptions) (t : Option Text) (w w' : W)
      → head_key root ≡ some key
      → publish_head_json store (some root) head options w ≡ (JournalResult.ok, t, w')
      → store_put store key (head_encode_json head) options w ≡ (StoreResult.ok, t, w')
  json_ok root key head options t w w' at h =
      let p = store_put store key (head_encode_json head) options w in
      let (ok, tag, after) =
        after_put_ok p.0 p.1 t p.2 w'
          (sym (publish_head_json_at store root key at head options w) ∙ h) in
      ap (λ r. (r, p.1, p.2)) ok
      ∙ ap (λ e. (StoreResult.ok, e, p.2)) tag
      ∙ ap (λ x. (StoreResult.ok, t, x)) after

  publish_ok :
      (root key : Text) (head : Head) (expected : Option Text) (create : Bool) (t : Option Text)
      (w w' : W)
      → head_key root ≡ some key
      → publish_head store (some root) head expected create w ≡ (JournalResult.ok, t, w')
      → store_put store key (head_encode_json head) (if_expected expected create) w
        ≡ (StoreResult.ok, t, w')
  unfolding publish_head
  publish_ok root key head expected true t w w' at h =
      json_ok root key head (if_expected expected true) t w w' at h
  publish_ok root key head none false t w w' at h = absurd (cc (ap (λ p. p.0) h))
  publish_ok root key head (some e) false t w w' at h =
      json_ok root key head (if_expected (some e) false) t w w' at h

  -- If HEAD was read with a tag, and a publication later succeeds that expects this tag, then at the
  -- time of the publication the object held a document that decodes to the head that was read, and
  -- after it holds the document of the new head: no other publication is overwritten.
  pub publish_head-read_head :
      (root key : Text) (head old : Head) (e : Text) (t : Option Text) (w0 w w' : W)
      → head_key root ≡ some key
      → (read_head store (some root) w0).result ≡ JournalResult.ok
      → (read_head store (some root) w0).head ≡ some old
      → (read_head store (some root) w0).etag ≡ some e
      → Later (read_head store (some root) w0).world w
      → publish_head store (some root) head (some e) false w ≡ (JournalResult.ok, t, w')
      → ((b : List ℕ) × (content w key ≡ some b) × (head_decode_json b ≡ some old))
        × (content w' key ≡ some (head_encode_json head))
  publish_head-read_head root key head old e t w0 w w' at h h' h'' later published =
      let was = read_as c root key old e w0 at h h' h'' in
      let put = publish_ok root key head (some e) false t w w' at published in
      let (b, holds, named) = put_matches key (head_encode_json head) e w w' t put in
      let same =
        names_one w e b was.document named
          (names_kept (read_head store (some root) w0).world w e was.document later was.tagged) in
      (
        (b, holds, ap head_decode_json same ∙ was.decodes),
        (put_writes key (head_encode_json head) (if_expected (some e) false) w w' t put).1,
      )

  -- Of two publications that expect the tag of the same read of HEAD, with no change of the object
  -- between them, the second does not succeed after the first has, if the first published another
  -- head than was read, and this head can be read back: its texts have no quote and no NUL byte and
  -- are shorter than their arrays, its generation fits 64 bits, and its format fits 32 bits and is
  -- not 0.
  pub publish_head_exclusive :
      (root key : Text) (old first second : Head) (e : Text) (t : Option Text) (w0 w w' v : W)
      → head_key root ≡ some key
      → Fits first
      → first ≢ old
      → (read_head store (some root) w0).result ≡ JournalResult.ok
      → (read_head store (some root) w0).head ≡ some old
      → (read_head store (some root) w0).etag ≡ some e
      → Later (read_head store (some root) w0).world w
      → publish_head store (some root) first (some e) false w ≡ (JournalResult.ok, t, w')
      → Later w' v
      → content v key ≡ content w' key
      → (publish_head store (some root) second (some e) false v).0 ≢ JournalResult.ok
  publish_head_exclusive root key old first second e t w0 w w' v at fits other h h' h'' later
        published later' kept again =
      let put = publish_ok root key first (some e) false t w w' at published in
      let went : Later w w' =
        subst (λ p. Later w p.2) put
          (put_later key (head_encode_json first) (if_expected (some e) false) w) in
      let now =
        later_trans (read_head store (some root) w0).world w v later
          (later_trans w w' v went later') in
      let written =
        (publish_head-read_head root key first old e t w0 w w' at h h' h'' later published).1 in
      let p = publish_head store (some root) second (some e) false v in
      let ((b, holds, decodes), after) =
        publish_head-read_head root key second old e p.1 w0 v p.2 at h h' h'' now
          (ap (λ r. (r, p.1, p.2)) again) in
      let same : head_encode_json first ≡ b = cc (sym (kept ∙ written) ∙ holds) in
      other (
        cc
          (sym (head_decode_json-head_encode_json first fits) ∙ ap head_decode_json same ∙ decodes))

  -- A first publication that succeeds did not replace a HEAD, and the object holds its document.
  pub publish_head_creates :
      (root key : Text) (head : Head) (expected t : Option Text) (w w' : W)
      → head_key root ≡ some key
      → publish_head store (some root) head expected true w ≡ (JournalResult.ok, t, w')
      → (content w key ≡ none) × (content w' key ≡ some (head_encode_json head))
  publish_head_creates root key head expected t w w' at published =
      let put = publish_ok root key head expected true t w w' at published in
      (
        put_creates key (head_encode_json head) w w' t put,
        (put_writes key (head_encode_json head) (if_expected expected true) w w' t put).1,
      )

  -- A HEAD that publish_head published, over an expected tag or as a new object, is read back: if
  -- the object has not changed, then a read that gets the object gives this head, with the object's
  -- tag, where its texts have no quote and no NUL byte and are shorter than their arrays, its
  -- generation fits 64 bits, and its format fits 32 bits and is not 0.
  pub read_head-publish_head :
      (root key : Text) (head : Head) (expected t : Option Text) (create : Bool) (o : Object)
      (w w' v v' : W)
      → head_key root ≡ some key
      → Fits head
      → publish_head store (some root) head expected create w ≡ (JournalResult.ok, t, w')
      → store_get store key v ≡ (StoreResult.ok, o, v')
      → content v' key ≡ content w' key
      → read_head store (some root) v
        ≡ record { result = JournalResult.ok; head = some head; etag = o.etag; world = v' }
  read_head-publish_head root key head expected t create o w w' v v' at fits published got kept =
      let put = publish_ok root key head expected create t w w' at published in
      let written =
        (put_writes key (head_encode_json head) (if_expected expected create) w w' t put).1 in
      let ((tag, tagged, names), holds) = get_reads key v v' o got in
      let bytes : o.bytes ≡ head_encode_json head = cc (sym holds ∙ kept ∙ written) in
      read_head_at store root key at v
      ∙ ap after_head_get got
      ∙ usable c o tag head v' tagged (names_given v' tag o.bytes names)
          (ap head_decode_json bytes ∙ head_decode_json-head_encode_json head fits)
      ∙ ap (λ e. record { result = JournalResult.ok; head = some head; etag = e; world = v' })
          (sym tagged)
