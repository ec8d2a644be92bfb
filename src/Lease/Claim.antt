-- ===== src/Lease/Claim.antt =====
-- src/ha/lease.c: `otsardb_lease_claim`. The bytes of an object are taken to be followed by a NUL, where
-- the search in the document ends. The holder and its address are given whole; the caller's buffers
-- may be shorter.
use otsardb.Base.{
  ℕ, zero, suc, ◌+◌, ◌-◌, ◌%◌, ◌^◌, Bool, true, false, ◌&&◌, not, Option, none, some, [], ◌++◌, ltb,
  ◌==◌, if◌then◌else◌, length,
}
use otsardb.Text.{Text, codes, quote, backslash, cstr, snprintf, text_eq}
use otsardb.ObjectStore.{StoreResult, Object, PutOptions, ObjectStore, store_get, store_put}
use otsardb.Lease.{
  Lease, Fields, ttl_default, key_max, age_is_expired, encode_lease_json, parse_lease_json, lacks,
  or_empty, address_valid, lease_set,
}

-- How a claim ended.
pub data ClaimState : Type 0 where
  claimed held error : ClaimState

pub record Claim : Type 0 where
  pub lease : Option Lease
  pub state : ClaimState
  pub epoch : ℕ
  pub holder : Text
  pub holder_address : Text

-- What one attempt of a claim comes to: a lease with the epoch that is reported, a conflict, or the end of
-- the attempts.
pub data Attempt : Type 0 where
  won : Lease → ℕ → Attempt
  conflict : Attempt
  stop : ClaimState → Attempt

pub record Attempted (W : Type 0) : Type 0 where
  pub attempt : Attempt
  -- The owner and the address that were read.
  pub seen : Option Fields
  pub world : W

abbrev pub if_absent : PutOptions
if_absent = record { if_none_match = true; if_match_etag = none }

abbrev pub if_tag : Option Text → PutOptions
if_tag etag = record { if_none_match = false; if_match_etag = etag }

abbrev pub nonempty : Text → Bool
nonempty text = not (text_eq text [])

-- Without the store's Last-Modified a lease is presumed live.
unfoldable pub foreign_expired : ℕ → ℕ → ℕ → Bool
unfolding age_is_expired
foreign_expired last_modified_secs now ttl_secs =
    ltb 0 last_modified_secs && age_is_expired (now - last_modified_secs) ttl_secs

pub no_claim : ClaimState → Claim
no_claim state = record { lease = none; state = state; epoch = 0; holder = []; holder_address = [] }

abbrev pub seen_in : Option Fields → Claim → Claim
seen_in none c = c
seen_in (some f) c = record c { holder = f.owner; holder_address = f.address }

-- What is known of the holder when no later attempt reads it again.
abbrev pub newest : Option Fields → Option Fields → Option Fields
newest none old = old
newest (some f) old = some f

-- The arguments that a claim takes; a null pointer is `none`.
unfoldable pub claimable : Option Text → Option Text → Option Text → Bool
claimable none instance_id address = false
claimable (some root) none address = false
claimable (some root) (some instance_id) address =
    nonempty root
    && (nonempty instance_id
        && (ltb (length root) key_max
            && (lacks quote instance_id && (lacks backslash instance_id && address_valid address))))

pub new_lease : Text → ℕ → Lease
new_lease root ttl_secs = record {
  key = snprintf (key_max + 1) (root ++ codes "/lease.json");
  owner = [];
  address = [];
  generation = 0;
  etag = [];
  ttl_secs = if ttl_secs == 0 then ttl_default else ttl_secs;
  claimed_at = 0;
  lost = false;
}

-- What the loop does with an attempt; `go` is the rest of the loop.
unfoldable pub follow_attempt :
    {W : Type 0}
    → Option Fields
    → (Option Fields → W → Claim × W)
    → Attempted W
    → Attempt
    → Claim × W
unfolding no_claim
follow_attempt seen go a (won l epoch) = (
  seen_in (newest a.seen seen) (record (no_claim claimed) { lease = some l; epoch = epoch }),
  a.world,
)
follow_attempt seen go a conflict = go (newest a.seen seen) a.world
follow_attempt seen go a (stop state) = (seen_in (newest a.seen seen) (no_claim state), a.world)

module _ {W : Type 0} (store : ObjectStore W) (clock : W → ℕ × W) where
  -- What is made of the store's answer to the write of a claim.
  unfoldable pub after_put :
      Lease → Text → ℕ → Option Text → StoreResult × Option Text × W → Attempt × W
  after_put lease instance_id generation address (StoreResult.ok, etag, w) =
      let (now, w') = clock w in
      (won (lease_set lease instance_id generation address etag now) generation, w')
  after_put lease instance_id generation address (StoreResult.precondition_failed, etag, w) =
      (conflict, w)
  after_put lease instance_id generation address (_, etag, w) = (stop error, w)

  unfoldable pub claim_put : Lease → Text → ℕ → Option Text → PutOptions → W → Attempt × W
  unfolding after_put
  claim_put lease instance_id generation address options w =
      after_put lease instance_id generation address (
        store_put store lease.key (encode_lease_json instance_id generation (or_empty address))
          options w)

  abbrev pub attempted : Option Fields → Attempt × W → Attempted W
  attempted seen (a, w) = record { attempt = a; seen = seen; world = w }

  -- A lease object that was read: adopted, taken over, or left to its holder.
  unfoldable pub claim_existing : Lease → Text → Option Text → Object → Fields → W → Attempt × W
  unfolding claim_put foreign_expired
  claim_existing lease instance_id address object current w =
      let if_match : PutOptions = if_tag object.etag in
      let (now, w') = clock w in
      let w'' = if ltb 0 object.last_modified_secs then w' else w in
      if text_eq current.owner instance_id
      then claim_put lease instance_id current.generation address if_match w
      else if foreign_expired object.last_modified_secs now lease.ttl_secs
      then claim_put lease instance_id ((current.generation + 1) % 2 ^ 64) address if_match w''
      else (stop held, w'')

  -- The object as it was read; `none` if it is no lease document.
  unfoldable pub claim_read : Lease → Text → Option Text → Object → Option Fields → W → Attempted W
  unfolding claim_existing
  claim_read lease instance_id address object none w = attempted none (stop error, w)
  claim_read lease instance_id address object (some current) w =
      attempted (some current) (claim_existing lease instance_id address object current w)

  unfoldable pub after_get : Lease → Text → Option Text → StoreResult × Object × W → Attempted W
  unfolding claim_put claim_read
  after_get lease instance_id address (StoreResult.not_found, object, w) =
      attempted none (claim_put lease instance_id 1 address if_absent w)
  after_get lease instance_id address (StoreResult.ok, object, w) =
      claim_read lease instance_id address object
        (parse_lease_json (cstr object.bytes) (length object.bytes)) w
  after_get lease instance_id address (_, object, w) = attempted none (stop error, w)

  -- One round of the loop of `otsardb_lease_claim`.
  unfoldable pub claim_attempt : Lease → Text → Option Text → W → Attempted W
  unfolding after_get
  claim_attempt lease instance_id address w =
      after_get lease instance_id address (store_get store lease.key w)

  -- The loop, with the attempts that are left.
  unfoldable pub claim_loop : ℕ → Lease → Text → Option Text → Option Fields → W → Claim × W
  unfolding no_claim follow_attempt
  claim_loop zero lease instance_id address seen w = (seen_in seen (no_claim held), w)
  claim_loop (suc left) lease instance_id address seen w =
      let a = claim_attempt lease instance_id address w in
      follow_attempt seen (λ seen' w'. claim_loop left lease instance_id address seen' w') a
        a.attempt

  unfoldable pub claim : Option Text → Option Text → Option Text → ℕ → W → Claim × W
  unfolding claimable claim_loop new_lease no_claim
  claim database_root instance_id address ttl_secs w =
      if claimable database_root instance_id address
      then claim_loop 3 (new_lease (or_empty database_root) ttl_secs) (or_empty instance_id) address
          none w
      else (no_claim error, w)
