-- ===== src/Lease/Written.antt =====
-- src/ha/lease.c: what the write of a claim leaves on a store with conditional writes.
use otsardb.Base.{
  ℕ, ◌≤◌, ◌<◌, ◌≡◌, refl, ap, sym, subst, ◌∙◌, true, false, Option, some, List, length, take,
  take_all, arith,
}
use otsardb.Text.{Text, cstr}
use otsardb.ObjectStore.{StoreResult, Object, PutOptions, ObjectStore, IsConditional, store_put}
use otsardb.Lease.{
  Lease, Fields, encode_lease_json, parse_lease_json, or_empty, address_valid, lease_set,
}
use otsardb.Lease.Claim.{won, if_tag, after_put, claim_put}

-- The document that an object holds.
abbrev pub read_lease : List ℕ → Option Fields
read_lease b = parse_lease_json (cstr b) (length b)

abbrev pub own_json : Lease → List ℕ
own_json lease = encode_lease_json lease.owner lease.generation lease.address

-- The arrays of a lease hold what a claim writes of itself.
module _ (lease : Lease) (id : Text) (generation : ℕ) (address : Option Text) (t : Text)
    (now : ℕ) where
  abbrev set_to : Option Text → Lease
  set_to e = lease_set lease id generation address e now

  set_owner : (e : Option Text) → length id ≤ 63 → (set_to e).owner ≡ id
  unfolding lease_set
  set_owner e h = take_all 63 id h

  set_address :
      (e : Option Text)
      → address_valid address ≡ true
      → length (or_empty address) ≤ 255
      → (set_to e).address ≡ or_empty address
  unfolding lease_set
  set_address e valid h = rw valid (take_all 255 (or_empty address) h)

  set_etag : (e : Option Text) → e ≡ some t → length t < 128 → (set_to e).etag ≡ t
  unfolding lease_set
  set_etag e given h = ap (λ x. take 127 (or_empty x)) given ∙ take_all 127 t (omega arith)

  set_rest :
      (e : Option Text)
      → ((set_to e).generation ≡ generation)
        × ((set_to e).key ≡ lease.key)
        × ((set_to e).lost ≡ false)
  unfolding lease_set
  set_rest e = (refl, refl, refl)

module _ {W : Type 0} {store : ObjectStore W} {clock : W → ℕ × W}
    (c : IsConditional store clock) where
  open c use {
    Later, later_trans, Names, names_one, names_size, names_kept, content, clock_later, get_later,
    put_later, put_writes, put_matches, put_creates, get_reads,
  }

  -- The lease's tag is the tag of its own document.
  abbrev pub Tagged : W → Lease → Type 0
  Tagged w lease = Names w lease.etag (own_json lease)

  -- What the store's answer to a claim's write says if the claim won.
  after_put_won :
      (lease : Lease) (id : Text) (generation : ℕ) (address : Option Text) (r : StoreResult)
      (e : Option Text) (w w' : W) (l : Lease) (epoch : ℕ)
      → after_put store clock lease id generation address (r, e, w) ≡ (won l epoch, w')
      → (r ≡ StoreResult.ok)
        × (l ≡ lease_set lease id generation address e (clock w).0)
        × (epoch ≡ generation)
        × (w' ≡ (clock w).1)
  unfolding after_put
  after_put_won lease id generation address StoreResult.ok e w w' l epoch h =
      (refl, cc (ap (λ p. p.0) h), cc (ap (λ p. p.0) h), sym (ap (λ p. p.1) h))
  after_put_won lease id generation address StoreResult.not_found e w w' l epoch h =
      cc (ap (λ p. p.0) h)
  after_put_won lease id generation address StoreResult.precondition_failed e w w' l epoch h =
      cc (ap (λ p. p.0) h)
  after_put_won lease id generation address StoreResult.error e w w' l epoch h =
      cc (ap (λ p. p.0) h)
  after_put_won lease id generation address StoreResult.not_empty e w w' l epoch h =
      cc (ap (λ p. p.0) h)
  after_put_won lease id generation address StoreResult.timeout e w w' l epoch h =
      cc (ap (λ p. p.0) h)
  after_put_won lease id generation address StoreResult.unsupported e w w' l epoch h =
      cc (ap (λ p. p.0) h)

  -- What a won write leaves: the fields of the claim, and the tag of its own document.
  pub record Written (key : Text) (id : Text) (generation : ℕ) (options : PutOptions) (w w' : W)
      (l : Lease) (epoch : ℕ) : Type 0 where
    pub etag : Option Text
    pub after : W
    pub put :
        store_put store key (encode_lease_json id generation l.address) options w
        ≡ (StoreResult.ok, etag, after)
    pub same_owner : l.owner ≡ id
    pub same_generation : l.generation ≡ generation
    pub same_epoch : epoch ≡ l.generation
    pub same_key : l.key ≡ key
    pub not_lost : l.lost ≡ false
    pub tagged : Tagged w' l

  pub written :
      (lease : Lease) (id : Text) (generation : ℕ) (address : Option Text) (options : PutOptions)
      (w w' : W) (l : Lease) (epoch : ℕ)
      → length id ≤ 63
      → address_valid address ≡ true
      → length (or_empty address) ≤ 255
      → claim_put store clock lease id generation address options w ≡ (won l epoch, w')
      → Written lease.key id generation options w w' l epoch
  unfolding claim_put
  written lease id generation address options w w' l epoch short valid short' h =
      let json = encode_lease_json id generation (or_empty address) in
      let p = store_put store lease.key json options w in
      let now = (clock p.2).0 in
      let (ok, set, reported, after) =
        after_put_won lease id generation address p.0 p.1 p.2 w' l epoch h in
      let answer : p ≡ (StoreResult.ok, p.1, p.2) = ap (λ r. (r, p.1, p.2)) ok in
      let ((t, given, names), held') = put_writes lease.key json options w p.2 p.1 answer in
      let owner : l.owner ≡ id =
        ap (λ x. x.owner) set ∙ set_owner lease id generation address t now p.1 short in
      let addr : l.address ≡ or_empty address =
        ap (λ x. x.address) set ∙ set_address lease id generation address t now p.1 valid short' in
      let tag : l.etag ≡ t =
        ap (λ x. x.etag) set
        ∙ set_etag lease id generation address t now p.1 given (names_size p.2 t json names) in
      let rest = set_rest lease id generation address t now p.1 in
      let gen : l.generation ≡ generation = ap (λ x. x.generation) set ∙ rest.0 in
      let document : own_json l ≡ json =
        ap (λ x. encode_lease_json x l.generation l.address) owner
        ∙ ap (λ x. encode_lease_json id x l.address) gen
        ∙ ap (encode_lease_json id generation) addr in
      record {
        etag = p.1;
        after = p.2;
        put =
            ap (λ a. store_put store lease.key (encode_lease_json id generation a) options w) addr
            ∙ answer;
        same_owner = owner;
        same_generation = gen;
        same_epoch = reported ∙ sym gen;
        same_key = ap (λ x. x.key) set ∙ rest.1;
        not_lost = ap (λ x. x.lost) set ∙ rest.2;
        tagged =
            subst (λ x. Names x l.etag (own_json l)) (sym after)
              (subst (λ x. Names (clock p.2).1 x (own_json l)) (sym tag)
                (subst (λ x. Names (clock p.2).1 t x) (sym document)
                  (names_kept p.2 (clock p.2).1 t json (clock_later p.2) names)));
      }

  -- A write over a document that was read, if it won, replaced this very document.
  pub replaced :
      (key id : Text) (generation : ℕ) (o : Object) (t : Text) (w w' : W) (l : Lease) (epoch : ℕ)
      → o.etag ≡ some t
      → Names w t o.bytes
      → Written key id generation (if_tag o.etag) w w' l epoch
      → content w key ≡ some o.bytes
  replaced key id generation o t w w' l epoch e names won' =
      let b = encode_lease_json id generation l.address in
      let (old, at, named) =
        put_matches key b t w won'.after won'.etag
          (ap (λ x. store_put store key b (if_tag x) w) (sym e) ∙ won'.put) in
      at ∙ ap some (names_one w t old o.bytes named names)
