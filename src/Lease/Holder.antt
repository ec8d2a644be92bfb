-- ===== src/Lease/Holder.antt =====
-- src/ha/lease.c: what the holder of a lease does with it.
use otsardb.Base.{ℕ, ◌-◌, Bool, true, false, not, Option, none, some, [], if◌then◌else◌}
use otsardb.Text.{Text, snprintf, text_eq}
use otsardb.ObjectStore.{StoreResult, PutOptions, ObjectStore, store_put, store_delete}
use otsardb.Lease.{Lease, age_is_expired, encode_lease_json, or_empty}

-- The results 0, 1 and 2 of a renewal.
pub data Renewal : Type 0 where
  renewed demoted unchanged : Renewal

-- After the store's answer, on the lease as it is then.
unfoldable pub renew_commit : Option Text → ℕ → Lease → Lease
renew_commit etag now lease =
    if lease.lost
    then lease
    else record lease { etag = snprintf 128 (or_empty etag); claimed_at = now }

unfoldable pub is_live : Lease → ℕ → Bool
unfolding age_is_expired
is_live lease now =
    if lease.lost then false else not (age_is_expired (now - lease.claimed_at) lease.ttl_secs)

-- `otsardb_lease_address`: the endpoint in a buffer of `out_cap` bytes; `none` if there is none.
unfoldable pub lease_address : Lease → ℕ → Option Text
lease_address lease out_cap =
    let out = snprintf out_cap lease.address in if text_eq out [] then none else some out

module _ {W : Type 0} (store : ObjectStore W) (clock : W → ℕ × W) where
  -- What is made of the store's answer to a renewal.
  unfoldable pub after_renew : Lease → StoreResult × Option Text × W → Renewal × Lease × W
  unfolding renew_commit
  after_renew lease (StoreResult.ok, etag, w) =
      let (now, w') = clock w in (renewed, renew_commit etag now lease, w')
  after_renew lease (StoreResult.precondition_failed, etag, w) =
      (demoted, record lease { lost = true }, w)
  after_renew lease (_, etag, w) = (unchanged, lease, w)

  unfoldable pub renew : Lease → W → Renewal × Lease × W
  unfolding after_renew
  renew lease w =
      let json = encode_lease_json lease.owner lease.generation lease.address in
      let options : PutOptions = record {
        if_none_match = false;
        if_match_etag = some lease.etag;
      } in
      if lease.lost
      then (demoted, lease, w)
      else after_renew lease (store_put store lease.key json options w)

  -- A lost or expired lease is left alone.
  unfoldable pub release : Lease → W → Lease × W
  unfolding is_live
  release lease w =
      let (now, w') = clock w in
      let (rc, w'') = store_delete store lease.key w' in
      if lease.lost
      then (lease, w)
      else if is_live lease now
      then (record lease { lost = true }, w'')
      else (lease, w')
