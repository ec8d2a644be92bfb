-- ===== src/Lease/Fence.antt =====
-- src/ha/lease.c: what a claim means on a store with conditional writes.
use otsardb.Base.{
  ℕ, zero, suc, ◌+◌, ◌%◌, ◌^◌, ◌≤◌, ◌≡◌, refl, ap, sym, subst, ◌∙◌, true, false, Option, none, some,
  List, length, Bool-cases, inl, inr, arith, ltb, leb, ◌-◌, ◌⊎◌,
}
use otsardb.Text.{Text, text_eq}
use otsardb.ObjectStore.{StoreResult, Object, PutOptions, ObjectStore, IsConditional, store_get}
use otsardb.Lease.{
  Lease, Fields, encode_lease_json, or_empty, address_valid, skew_margin, age_is_expired,
}
use otsardb.Lease.Claim.{
  claimed, held, Claim, Attempt, won, conflict, stop, Attempted, if_absent, if_tag, foreign_expired,
  claim_put, claim_existing, claim_read, after_get, claim_attempt, follow_attempt, claim_loop,
  claim, claimable, new_lease, no_claim, seen_in, newest,
}
use otsardb.Lease.Written.{read_lease, Tagged, Written, written, replaced}

claimable_address :
    (root id : Text) (address : Option Text)
    → claimable (some root) (some id) address ≡ true
    → address_valid address ≡ true
unfolding claimable
claimable_address root id address h = ground arith

module _ {W : Type 0} {store : ObjectStore W} {clock : W → ℕ × W}
    (c : IsConditional store clock) where
  open c use {
    Later, later_trans, Names, names_one, names_size, names_kept, content, clock_later, get_later,
    put_later, put_writes, put_matches, put_creates, get_reads,
  }

  -- Why a claim may write generation `generation` over what the object holds in the world `w`.
  pub data Cause (w : W) (key owner : Text) (ttl_secs generation : ℕ) : Type 0 where
    fresh : content w key ≡ none → generation ≡ 1 → Cause w key owner ttl_secs generation
    own :
        (old : List ℕ) (f : Fields)
        → content w key ≡ some old
        → read_lease old ≡ some f
        → text_eq f.owner owner ≡ true
        → generation ≡ f.generation
        → Cause w key owner ttl_secs generation
    -- The object was read in the world `read`, and the clock after it.
    taken :
        (read after : W) (object : Object) (f : Fields)
        → store_get store key read ≡ (StoreResult.ok, object, after)
        → w ≡ (clock after).1
        → content w key ≡ some object.bytes
        → read_lease object.bytes ≡ some f
        → text_eq f.owner owner ≡ false
        → 1 ≤ object.last_modified_secs
        → (2 ^ 63 ≤ ttl_secs)
          ⊎ (ttl_secs ≤ (clock after).0 - object.last_modified_secs + skew_margin)
        → generation ≡ (f.generation + 1) % 2 ^ 64
        → Cause w key owner ttl_secs generation

  -- A lease that was granted, and why: `when` is the world in which its document was written.
  pub record Granted (key id : Text) (ttl_secs : ℕ) (w' : W) (l : Lease) : Type 0 where
    pub when : W
    pub cause : Cause when key id ttl_secs l.generation
    pub same_key : l.key ≡ key
    pub same_owner : l.owner ≡ id
    pub not_lost : l.lost ≡ false
    pub tagged : Tagged c w' l

  -- The epoch that is reported with it is its generation.
  abbrev Reported : Text → Text → ℕ → W → Lease → ℕ → Type 0
  Reported key id ttl_secs w' l epoch = (epoch ≡ l.generation) × Granted key id ttl_secs w' l

  granted :
      (key id : Text) (ttl_secs generation : ℕ) (options : PutOptions) (w w' : W) (l : Lease)
      (epoch : ℕ)
      → Written c key id generation options w w' l epoch
      → Cause w key id ttl_secs generation
      → Reported key id ttl_secs w' l epoch
  granted key id ttl_secs generation options w w' l epoch won' cause = (
    won'.same_epoch,
    record {
      when = w;
      cause = subst (λ g. Cause w key id ttl_secs g) (sym won'.same_generation) cause;
      same_key = won'.same_key;
      same_owner = won'.same_owner;
      not_lost = won'.not_lost;
      tagged = won'.tagged;
    },
  )

  expired_when :
      (modified now ttl_secs : ℕ)
      → foreign_expired modified now ttl_secs ≡ true
      → (ltb 0 modified ≡ true)
        × (1 ≤ modified)
        × ((2 ^ 63 ≤ ttl_secs) ⊎ (ttl_secs ≤ now - modified + skew_margin))
  unfolding foreign_expired age_is_expired
  expired_when modified now ttl_secs h = (
    ground arith,
    ground arith,
    elim (Bool-cases (leb (2 ^ 63) ttl_secs)) [
      | inl negative ↦ inl (ground arith)
      | inr positive ↦ inr (ground arith)
    ],
  )

  module _ (lease : Lease) (id : Text) (address : Option Text) (short : length id ≤ 63)
      (valid : address_valid address ≡ true) (short' : length (or_empty address) ≤ 255) where
    abbrev Grant : W → Lease → ℕ → Type 0
    Grant = Reported lease.key id lease.ttl_secs

    -- What was read in the world that the read left.
    abbrev Read : Object → W → Type 0
    Read o w =
        ((t : Text) × (o.etag ≡ some t) × Names w t o.bytes)
        × ((before : W) × (store_get store lease.key before ≡ (StoreResult.ok, o, w)))

    existing_granted :
        (o : Object) (f : Fields) (w w' : W) (l : Lease) (epoch : ℕ)
        → Read o w
        → read_lease o.bytes ≡ some f
        → claim_existing store clock lease id address o f w ≡ (won l epoch, w')
        → Grant w' l epoch
    unfolding claim_existing
    existing_granted o f w w' l epoch ((t, e, names), (before, got)) read h =
        elim (Bool-cases (text_eq f.owner id)) [
          | inl mine ↦
              let won' =
                written c lease id f.generation address (if_tag o.etag) w w' l epoch short valid
                  short' (rw mine at h) in
              granted lease.key id lease.ttl_secs f.generation (if_tag o.etag) w w' l epoch won' (
                own o.bytes f (replaced c lease.key id f.generation o t w w' l epoch e names won')
                  read mine refl)
          | inr other ↦
              elim (Bool-cases (foreign_expired o.last_modified_secs (clock w).0 lease.ttl_secs)) [
                | inl expired ↦
                    let generation = (f.generation + 1) % 2 ^ 64 in
                    let (dated, given, long) =
                      expired_when o.last_modified_secs (clock w).0 lease.ttl_secs expired in
                    let later = (clock w).1 in
                    let won' =
                      written c lease id generation address (if_tag o.etag) later w' l epoch short
                        valid short' (rw (other, expired, dated) at h) in
                    granted lease.key id lease.ttl_secs generation (if_tag o.etag) later w' l epoch
                      won'
                      (taken before w o f got refl
                        (replaced c lease.key id generation o t later w' l epoch e
                          (names_kept w later t o.bytes (clock_later w) names) won')
                        read other given long refl)
                | inr live ↦ absurd (cc (ap (λ p. p.0) (rw (other, live) at h)))
              ]
        ]

    claim_read_grants :
        (o : Object) (q : Option Fields) (w : W) (l : Lease) (epoch : ℕ)
        → Read o w
        → read_lease o.bytes ≡ q
        → (claim_read store clock lease id address o q w).attempt ≡ won l epoch
        → Grant (claim_read store clock lease id address o q w).world l epoch
    unfolding claim_read
    claim_read_grants o none w l epoch given read h = absurd (cc h)
    claim_read_grants o (some f) w l epoch given read h =
        let x = claim_existing store clock lease id address o f w in
        existing_granted o f w x.1 l epoch given read (ap (λ a. (a, x.1)) h)

    get_granted :
        (r : StoreResult) (o : Object) (w : W) (l : Lease) (epoch : ℕ)
        → (r ≡ StoreResult.ok → Read o w)
        → (after_get store clock lease id address (r, o, w)).attempt ≡ won l epoch
        → Grant (after_get store clock lease id address (r, o, w)).world l epoch
    unfolding after_get
    get_granted StoreResult.ok o w l epoch given h =
        claim_read_grants o (read_lease o.bytes) w l epoch (given refl) refl h
    get_granted StoreResult.not_found o w l epoch given h =
        let x = claim_put store clock lease id 1 address if_absent w in
        let won' =
          written c lease id 1 address if_absent w x.1 l epoch short valid short'
            (ap (λ a. (a, x.1)) h) in
        granted lease.key id lease.ttl_secs 1 if_absent w x.1 l epoch won' (
          fresh
            (put_creates lease.key (encode_lease_json id 1 l.address) w won'.after won'.etag
              won'.put)
            refl)
    get_granted StoreResult.precondition_failed o w l epoch given h = absurd (cc h)
    get_granted StoreResult.error o w l epoch given h = absurd (cc h)
    get_granted StoreResult.not_empty o w l epoch given h = absurd (cc h)
    get_granted StoreResult.timeout o w l epoch given h = absurd (cc h)
    get_granted StoreResult.unsupported o w l epoch given h = absurd (cc h)

    attempt_granted :
        (w : W) (l : Lease) (epoch : ℕ)
        → (claim_attempt store clock lease id address w).attempt ≡ won l epoch
        → Grant (claim_attempt store clock lease id address w).world l epoch
    unfolding claim_attempt
    attempt_granted w l epoch h =
        let p = store_get store lease.key w in
        get_granted p.0 p.1 p.2 l epoch
          (λ ok.
            let got : p ≡ (StoreResult.ok, p.1, p.2) = ap (λ r. (r, p.1, p.2)) ok in
            ((get_reads lease.key w p.2 p.1 got).0, (w, got)))
          h

    -- What a claim gives with a lease.
    abbrev Given : Claim × W → Lease → Type 0
    Given r l =
        (r.0.state ≡ claimed)
        × (r.0.epoch ≡ l.generation)
        × Granted lease.key id lease.ttl_secs r.1 l

    seen_same :
        (seen : Option Fields) (r : Claim)
        → ((seen_in seen r).lease ≡ r.lease)
          × ((seen_in seen r).state ≡ r.state)
          × ((seen_in seen r).epoch ≡ r.epoch)
    seen_same none r = (refl, refl, refl)
    seen_same (some f) r = (refl, refl, refl)

    follow_granted :
        (at : Attempt) (a : Attempted W) (seen : Option Fields) (go : Option Fields → W → Claim × W)
        (l : Lease)
        → ((epoch : ℕ) → at ≡ won l epoch → Grant a.world l epoch)
        → ((s : Option Fields) (w : W) → (go s w).0.lease ≡ some l → Given (go s w) l)
        → (follow_attempt seen go a at).0.lease ≡ some l
        → Given (follow_attempt seen go a at) l
    unfolding follow_attempt
    follow_granted (won k epoch) a seen go l grant rest h =
        let same =
          seen_same (newest a.seen seen)
            (record (no_claim claimed) { lease = some k; epoch = epoch }) in
        let k-eq : k ≡ l = cc (sym same.0 ∙ h) in
        let (reported, why) = grant epoch (ap (λ x. won x epoch) k-eq) in
        (same.1, same.2 ∙ reported, why)
    follow_granted conflict a seen go l grant rest h = rest (newest a.seen seen) a.world h
    follow_granted (stop state) a seen go l grant rest h =
        absurd (cc (sym (seen_same (newest a.seen seen) (no_claim state)).0 ∙ h))

    loop_granted :
        (left : ℕ) (seen : Option Fields) (w : W) (l : Lease)
        → (claim_loop store clock left lease id address seen w).0.lease ≡ some l
        → Given (claim_loop store clock left lease id address seen w) l
    unfolding claim_loop
    loop_granted zero seen w l h = absurd (cc (sym (seen_same seen (no_claim held)).0 ∙ h))
    loop_granted (suc left) seen w l h =
        let a = claim_attempt store clock lease id address w in
        follow_granted a.attempt a seen (λ s w'. claim_loop store clock left lease id address s w')
          l (λ epoch. attempt_granted w l epoch) (λ s w'. loop_granted left s w' l) h

  pub claim-Granted :
      (root id : Text) (address : Option Text) (ttl_secs : ℕ) (w : W) (l : Lease)
      → length id ≤ 63
      → length (or_empty address) ≤ 255
      → (claim store clock (some root) (some id) address ttl_secs w).0.lease ≡ some l
      → ((claim store clock (some root) (some id) address ttl_secs w).0.state ≡ claimed)
        × ((claim store clock (some root) (some id) address ttl_secs w).0.epoch ≡ l.generation)
        × Granted
            (new_lease root ttl_secs).key
            id
            (new_lease root ttl_secs).ttl_secs
            (claim store clock (some root) (some id) address ttl_secs w).1
            l
  unfolding claim
  claim-Granted root id address ttl_secs w l short short' h =
      elim (Bool-cases (claimable (some root) (some id) address)) [
        | inl go ↦ rw go (
            loop_granted (new_lease root ttl_secs) id address short
              (claimable_address root id address go) short' 3 none w l (rw go at h))
        | inr refused ↦ absurd (cc (rw refused at h))
      ]
