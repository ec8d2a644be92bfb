-- ===== src/Tests/LeaseTests.antt =====
-- Tests of src/ha/lease.c on the store in memory, whose clock stands still: a lease with a time to
-- live of one second has expired at once.
use otsardb.Base.{ℕ, ◌≡◌, ◌≢◌, refl, subst, true, false, none, some, [], ◌∷◌, length, arith}
use otsardb.Text.{Text, codes, quote, cstr, strtoull, decimal}
use otsardb.ObjectStore.{store_get, store_put, store_delete}
use otsardb.ObjectStore.Memory.{
  Memory, empty_memory, memory_store, memory_clock, memory_store-IsConditional, tag_of,
}
use otsardb.Lease.{
  Lease, age_is_expired, encode_lease_json, parse_lease_json, lease_set, address_valid,
}
use otsardb.Lease.Claim.{
  claimed, held, error, claim, foreign_expired, no_claim, if_tag, claim_attempt,
}
use otsardb.Lease.Holder.{renewed, demoted, is_live, lease_address, renew, release}
use otsardb.Lease.Json.{Writable, parse-encode_lease_json}
use otsardb.Lease.Written.{Tagged, own_json}
use otsardb.Lease.Fence.{Granted, claim-Granted}
use otsardb.Lease.Exclusion.{Renewed, renew-Renewed, renew_exclusive}
use otsardb.Lease.Demotion.{foreign_expired-is_live, renew-demoted}

abbrev root : Text
root = codes "db"

abbrev alice : Text
alice = codes "alice"

abbrev bob : Text
bob = codes "bob"

abbrev endpoint : Text
endpoint = codes "10.0.0.1:80"

alice-Writable : Writable alice 1 endpoint
alice-Writable = record {
  owner_given = refl;
  owner_plain = omega arith;
  owner_bytes = omega arith;
  owner_size = omega arith;
  not_generation = refl;
  not_address = refl;
  in_range = omega arith;
  address_plain = omega arith;
  address_bytes = omega arith;
  address_size = omega arith;
}

bob-Writable : Writable bob 2 []
bob-Writable = record {
  owner_given = refl;
  owner_plain = omega arith;
  owner_bytes = omega arith;
  owner_size = omega arith;
  not_generation = refl;
  not_address = refl;
  in_range = omega arith;
  address_plain = tt;
  address_bytes = tt;
  address_size = omega arith;
}

parse-encode_lease_json_example :
    parse_lease_json
      (cstr (encode_lease_json alice 1 endpoint))
      (length (encode_lease_json alice 1 endpoint))
    ≡ some (record { owner = alice; generation = 1; address = endpoint })
parse-encode_lease_json_example = parse-encode_lease_json alice 1 endpoint alice-Writable

-- Alice claims, and Bob takes her expired lease over.
abbrev lease_a : Lease
lease_a = record {
  key = codes "db/lease.json";
  owner = alice;
  address = endpoint;
  generation = 1;
  etag = tag_of 0;
  ttl_secs = 1;
  claimed_at = 100;
  lost = false;
}

abbrev world1 : Memory
world1 =
    (store_put memory_store (codes "db/lease.json") (own_json lease_a)
      (record { if_none_match = true; if_match_etag = none }) empty_memory).2

abbrev lease_b : Lease
lease_b = record {
  key = codes "db/lease.json";
  owner = bob;
  address = [];
  generation = 2;
  etag = tag_of 1;
  ttl_secs = 1;
  claimed_at = 100;
  lost = false;
}

abbrev world2 : Memory
world2 =
    (store_put memory_store (codes "db/lease.json") (own_json lease_b) (if_tag (some (tag_of 0)))
      world1).2

claimed_a :
    (claim memory_store memory_clock
      (some root)
      (some alice)
      (some endpoint)
      1
      empty_memory).0.lease
    ≡ some lease_a
unfolding claim store_put store_get address_valid claim_attempt parse_lease_json cstr
    encode_lease_json decimal strtoull lease_set
claimed_a = refl

claimed_b :
    (claim memory_store memory_clock (some root) (some bob) none 1 world1).0.lease ≡ some lease_b
unfolding claim store_put store_get address_valid claim_attempt parse_lease_json cstr
    encode_lease_json decimal strtoull lease_set
claimed_b = refl

left_at_a :
    (claim memory_store memory_clock (some root) (some alice) (some endpoint) 1 empty_memory).1
    ≡ world1
unfolding claim store_put store_get address_valid claim_attempt parse_lease_json cstr
    encode_lease_json decimal strtoull lease_set
left_at_a = refl

left_at_b : (claim memory_store memory_clock (some root) (some bob) none 1 world1).1 ≡ world2
unfolding claim store_put store_get address_valid claim_attempt parse_lease_json cstr
    encode_lease_json decimal strtoull lease_set
left_at_b = refl

still_held :
    (claim memory_store memory_clock (some root) (some bob) none 30 world1).0
    ≡ record (no_claim held) { holder = alice; holder_address = endpoint }
unfolding claim store_put store_get address_valid claim_attempt parse_lease_json cstr
    encode_lease_json decimal strtoull lease_set
still_held = refl

adopted : (claim memory_store memory_clock (some root) (some bob) none 30 world2).0.epoch ≡ 2
unfolding claim store_put store_get address_valid claim_attempt parse_lease_json cstr
    encode_lease_json decimal strtoull lease_set
adopted = refl

quoted_owner :
    (claim memory_store memory_clock (some root) (some (quote ∷ [])) none 30 world2).0.state ≡ error
unfolding claim
quoted_owner = refl

lease_a-Granted :
    Granted memory_store-IsConditional
      (codes "db/lease.json")
      alice
      1
      (claim memory_store memory_clock (some root) (some alice) (some endpoint) 1 empty_memory).1
      lease_a
unfolding claim
lease_a-Granted =
    (claim-Granted memory_store-IsConditional root alice (some endpoint) 1 empty_memory lease_a
      (omega arith) (omega arith) claimed_a).2

claim-Granted_example :
    ((claim memory_store memory_clock (some root) (some bob) none 1 world1).0.state ≡ claimed)
    × ((claim memory_store memory_clock (some root) (some bob) none 1 world1).0.epoch ≡ 2)
    × Granted memory_store-IsConditional
        (codes "db/lease.json")
        bob
        1
        (claim memory_store memory_clock (some root) (some bob) none 1 world1).1
        lease_b
unfolding claim
claim-Granted_example =
    claim-Granted memory_store-IsConditional root bob none 1 world1 lease_b (omega arith)
      (omega arith) claimed_b

lease_a-Tagged : Tagged memory_store-IsConditional world1 lease_a
lease_a-Tagged =
    subst (λ w. Tagged memory_store-IsConditional w lease_a) left_at_a lease_a-Granted.tagged

lease_a-Tagged_later : Tagged memory_store-IsConditional world2 lease_a
lease_a-Tagged_later =
    memory_store-IsConditional.names_kept world1 world2 (tag_of 0) (own_json lease_a)
      (memory_store-IsConditional.put_later (codes "db/lease.json") (own_json lease_b)
        (if_tag (some (tag_of 0))) world1)
      lease_a-Tagged

lease_b-Tagged : Tagged memory_store-IsConditional world2 lease_b
lease_b-Tagged =
    subst (λ w. Tagged memory_store-IsConditional w lease_b) left_at_b
      claim-Granted_example.2.tagged

-- Bob renews, Alice is demoted.
abbrev lease_b_renewed : Lease
lease_b_renewed = record lease_b { etag = tag_of 2 }

abbrev world3 : Memory
world3 = (renew memory_store memory_clock lease_b world2).2

renewed_b : renew memory_store memory_clock lease_b world2 ≡ (renewed, lease_b_renewed, world3)
unfolding renew store_put
renewed_b = refl

demoted_a :
    renew memory_store memory_clock lease_a world2
    ≡ (demoted, record lease_a { lost = true }, world2)
unfolding renew store_put
demoted_a = refl

renew-Renewed_example : Renewed memory_store-IsConditional lease_b world2 lease_b_renewed world3
renew-Renewed_example =
    renew-Renewed memory_store-IsConditional lease_b lease_b_renewed world2 world3 lease_b-Tagged
      refl renewed_b

renew_exclusive_example : (renew memory_store memory_clock lease_a world2).0 ≢ renewed
renew_exclusive_example =
    renew_exclusive memory_store-IsConditional lease_b lease_a lease_b_renewed world2 world3
      bob-Writable alice-Writable lease_b-Tagged lease_a-Tagged_later refl refl refl
      (λ e. omega (arith, e.1)) renewed_b

renew-demoted_example :
    ((now : ℕ) → is_live (record lease_a { lost = true }) now ≡ false)
    × ((v : Memory)
        → renew memory_store memory_clock (record lease_a { lost = true }) v
          ≡ (demoted, record lease_a { lost = true }, v))
    × ((v : Memory)
        → release memory_store memory_clock (record lease_a { lost = true }) v
          ≡ (record lease_a { lost = true }, v))
renew-demoted_example =
    renew-demoted memory_store memory_clock lease_a (record lease_a { lost = true }) world2 world2
      demoted_a

-- A lease of 30 seconds, marked a second late, and looked at from a clock that is two seconds ahead.
abbrev lease_30 : Lease
lease_30 = record lease_a { ttl_secs = 30; claimed_at = 101 }

foreign_expired-is_live_example : is_live lease_30 128 ≡ false
unfolding foreign_expired age_is_expired
foreign_expired-is_live_example =
    foreign_expired-is_live lease_30 100 125 128 2 (omega arith) (omega arith) refl

is_live_before : is_live lease_30 125 ≡ true
unfolding is_live age_is_expired
is_live_before = refl

own_endpoint : lease_address lease_a 8 ≡ some (codes "10.0.0.")
unfolding lease_address
own_endpoint = refl

-- Alice, whose own clock still finds her lease live, deletes the lease that Bob has taken over.
released_newer :
    (release memory_store memory_clock (record lease_a { ttl_secs = 30 }) world2).1.objects
      (codes "db/lease.json")
    ≡ none
unfolding release is_live age_is_expired store_delete store_put
released_newer = refl
