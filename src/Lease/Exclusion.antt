-- ===== src/Lease/Exclusion.antt =====
-- Of all that hold a lease object, only the one whose document it is can renew.
use otsardb.Base.{
  ℕ, ◌<◌, ◌≡◌, ◌≢◌, refl, ap, sym, subst, ◌∙◌, false, Option, none, some, [], length, take,
  take_all, arith, if◌then◌else◌,
}
use otsardb.Text.{Text, cstr}
use otsardb.ObjectStore.{StoreResult, ObjectStore, IsConditional, store_put}
use otsardb.Lease.{Lease, Fields, parse_lease_json, or_empty}
use otsardb.Lease.Holder.{renewed, demoted, renew_commit, after_renew, renew}
use otsardb.Lease.Json.{Writable, parse-encode_lease_json}
use otsardb.Lease.Written.{own_json, Tagged}

module _ {W : Type 0} {store : ObjectStore W} {clock : W → ℕ × W}
    (c : IsConditional store clock) where
  open c use {
    names_one, names_size, names_kept, Names, content, clock_later, put_writes, put_matches,
  }

  after_renewed :
      (lease l : Lease) (r : StoreResult) (e : Option Text) (w w' : W)
      → after_renew store clock lease (r, e, w) ≡ (renewed, l, w')
      → (r ≡ StoreResult.ok) × (l ≡ renew_commit e (clock w).0 lease) × (w' ≡ (clock w).1)
  unfolding after_renew
  after_renewed lease l StoreResult.ok e w w' h =
      (refl, sym (ap (λ p. p.1) h), sym (ap (λ p. p.2) h))
  after_renewed lease l StoreResult.not_found e w w' h = absurd (cc (ap (λ p. p.0) h))
  after_renewed lease l StoreResult.precondition_failed e w w' h = absurd (cc (ap (λ p. p.0) h))
  after_renewed lease l StoreResult.error e w w' h = absurd (cc (ap (λ p. p.0) h))
  after_renewed lease l StoreResult.not_empty e w w' h = absurd (cc (ap (λ p. p.0) h))
  after_renewed lease l StoreResult.timeout e w w' h = absurd (cc (ap (λ p. p.0) h))
  after_renewed lease l StoreResult.unsupported e w w' h = absurd (cc (ap (λ p. p.0) h))

  -- What a renewal that succeeded shows, and leaves.
  pub record Renewed (lease : Lease) (w : W) (l : Lease) (w' : W) : Type 0 where
    pub held : content w lease.key ≡ some (own_json lease)
    pub same_owner : l.owner ≡ lease.owner
    pub same_address : l.address ≡ lease.address
    pub same_generation : l.generation ≡ lease.generation
    pub same_key : l.key ≡ lease.key
    pub not_lost : l.lost ≡ false
    pub tagged : Tagged c w' l

  committed_fields :
      (lease : Lease) (e : Option Text) (t : Text) (now : ℕ)
      → lease.lost ≡ false
      → e ≡ some t
      → length t < 128
      → renew_commit e now lease ≡ record lease { etag = t; claimed_at = now }
  unfolding renew_commit
  committed_fields lease e t now h given short =
      ap (λ b. if b then lease else record lease { etag = take 127 (or_empty e); claimed_at = now })
        h
      ∙ ap (λ x. record lease { etag = x; claimed_at = now })
          (ap (λ x. take 127 (or_empty x)) given ∙ take_all 127 t (omega arith))

  renew_ok :
      (lease l : Lease) (w w' : W)
      → lease.lost ≡ false
      → renew store clock lease w ≡ (renewed, l, w')
      → (e : Option Text) × (w1 : W) × (store_put store lease.key
            (own_json lease)
            (record { if_none_match = false; if_match_etag = some lease.etag })
            w
          ≡ (StoreResult.ok, e, w1))
        × (l ≡ renew_commit e (clock w1).0 lease)
        × (w' ≡ (clock w1).1)
  unfolding renew
  renew_ok lease l w w' kept h =
      let p =
        store_put store lease.key (own_json lease)
          (record { if_none_match = false; if_match_etag = some lease.etag }) w in
      let (ok, set, after) = after_renewed lease l p.0 p.1 p.2 w' (
        sym (ap (λ b. if b then (demoted, lease, w) else after_renew store clock lease p) kept)
        ∙ h) in
      (p.1, p.2, ap (λ r. (r, p.1, p.2)) ok, set, after)

  -- If the tag of a lease that is not lost is that of its own document, and its renewal succeeds,
  -- then the object held this document until then: nobody had taken the lease over. The renewed
  -- lease keeps its owner, address, generation and key, is not lost, and has the tag of its
  -- document again.
  pub renew-Renewed :
      (lease l : Lease) (w w' : W)
      → Tagged c w lease
      → lease.lost ≡ false
      → renew store clock lease w ≡ (renewed, l, w')
      → Renewed lease w l w'
  renew-Renewed lease l w w' names kept h =
      let (e, w1, put, set, after) = renew_ok lease l w w' kept h in
      let (old, at, named) = put_matches lease.key (own_json lease) lease.etag w w1 e put in
      let ((t, given, names'), held') =
        put_writes lease.key (own_json lease)
          (record { if_none_match = false; if_match_etag = some lease.etag }) w w1 e put in
      let same : l ≡ record lease { etag = t; claimed_at = (clock w1).0 } =
        set
        ∙ committed_fields lease e t (clock w1).0 kept given
            (names_size w1 t (own_json lease) names') in
      record {
        held = at ∙ ap some (names_one w lease.etag old (own_json lease) named names);
        same_owner = ap (λ x. x.owner) same;
        same_address = ap (λ x. x.address) same;
        same_generation = ap (λ x. x.generation) same;
        same_key = ap (λ x. x.key) same;
        not_lost = ap (λ x. x.lost) same ∙ kept;
        tagged =
            subst (λ x. Names x l.etag (own_json l)) (sym after)
              (subst (λ x. Names (clock w1).1 x.etag (own_json x)) (sym same)
                (names_kept w1 (clock w1).1 t (own_json lease) (clock_later w1) names'));
      }

  fields_owner : (f g : Fields) → some f ≡ some g → f.owner ≡ g.owner
  fields_owner f g h = ap (λ q. elim q [ none ↦ [] | some k ↦ k.owner ]) h

  fields_generation : (f g : Fields) → some f ≡ some g → f.generation ≡ g.generation
  fields_generation f g h = ap (λ q. elim q [ none ↦ 0 | some k ↦ k.generation ]) h

  -- Of two leases of one object that differ in owner or generation, whose tags are those of their
  -- own documents and which are not lost, only one can be renewed in a given world: if a renewal of
  -- the first would succeed there, one of the second would not. The owner of each is not empty, is
  -- neither the text generation nor the text address, and has at most 63 bytes; its address has at
  -- most 255 bytes; neither text has a quote or a NUL byte; and its generation fits 64 bits.
  pub renew_exclusive :
      (a b a' : Lease) (w v : W)
      → Writable a.owner a.generation a.address
      → Writable b.owner b.generation b.address
      → Tagged c w a
      → Tagged c w b
      → a.lost ≡ false
      → b.lost ≡ false
      → a.key ≡ b.key
      → ¬ ((a.owner ≡ b.owner) × (a.generation ≡ b.generation))
      → renew store clock a w ≡ (renewed, a', v)
      → (renew store clock b w).0 ≢ renewed
  renew_exclusive a b a' w v fit fit' names names' kept kept' same differ h again =
      let ra = renew-Renewed a a' w v names kept h in
      let p = renew store clock b w in
      let rb = renew-Renewed b p.1 w p.2 names' kept' (ap (λ r. (r, p.1, p.2)) again) in
      let documents : some (own_json a) ≡ some (own_json b) =
        sym ra.held ∙ ap (content w) same ∙ rb.held in
      let fa : Fields = record {
        owner = a.owner;
        generation = a.generation;
        address = a.address;
      } in
      let fb : Fields = record {
        owner = b.owner;
        generation = b.generation;
        address = b.address;
      } in
      let read : some fa ≡ some fb =
        sym (parse-encode_lease_json a.owner a.generation a.address fit)
        ∙ ap (λ o. elim o [ none ↦ none | some j ↦ parse_lease_json (cstr j) (length j) ]) documents
        ∙ parse-encode_lease_json b.owner b.generation b.address fit' in
      differ (fields_owner fa fb read, fields_generation fa fb read)
