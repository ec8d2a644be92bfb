-- ===== src/Lease/Demotion.antt =====
-- src/ha/lease.c: when a lease is not live any more.
use otsardb.Base.{
  ℕ, ◌+◌, ◌≤◌, ◌≡◌, refl, ap, sym, ◌∙◌, true, false, Option, some, Bool-cases, inl, inr, arith,
  if◌then◌else◌,
}
use otsardb.Text.{Text}
use otsardb.ObjectStore.{StoreResult, ObjectStore, store_put}
use otsardb.Lease.{Lease, age_is_expired}
use otsardb.Lease.Claim.{foreign_expired}
use otsardb.Lease.Written.{own_json}
use otsardb.Lease.Holder.{demoted, is_live, after_renew, renew, release}

lost_is_dead : (l : Lease) (now : ℕ) → l.lost ≡ true → is_live l now ≡ false
unfolding is_live
lost_is_dead l now h = rw h refl

-- If another's lease object counts as expired by the clock of a claimant, and the holder's own mark of
-- its claim is at most `d` seconds after the store's mark of the object, then the holder is not live
-- at a time of its own clock that is at least `d` seconds after the claimant's, where it has the same
-- time to live.
pub foreign_expired-is_live :
    (lease : Lease) (modified now now' d : ℕ)
    → lease.claimed_at ≤ modified + d
    → now + d ≤ now'
    → foreign_expired modified now lease.ttl_secs ≡ true
    → is_live lease now' ≡ false
unfolding foreign_expired is_live age_is_expired
foreign_expired-is_live lease modified now now' d mark later h = ground arith

module _ {W : Type 0} (store : ObjectStore W) (clock : W → ℕ × W) where
  lost_stays : (l : Lease) (w : W) → l.lost ≡ true → renew store clock l w ≡ (demoted, l, w)
  unfolding renew
  lost_stays l w h = rw h refl

  lost_kept : (l : Lease) (w : W) → l.lost ≡ true → release store clock l w ≡ (l, w)
  unfolding release
  lost_kept l w h = rw h refl

  after_demoted :
      (lease l : Lease) (r : StoreResult) (e : Option Text) (w w' : W)
      → after_renew store clock lease (r, e, w) ≡ (demoted, l, w')
      → l.lost ≡ true
  unfolding after_renew
  after_demoted lease l StoreResult.precondition_failed e w w' h = sym (ap (λ p. p.1.lost) h)
  after_demoted lease l StoreResult.ok e w w' h = absurd (cc (ap (λ p. p.0) h))
  after_demoted lease l StoreResult.not_found e w w' h = absurd (cc (ap (λ p. p.0) h))
  after_demoted lease l StoreResult.error e w w' h = absurd (cc (ap (λ p. p.0) h))
  after_demoted lease l StoreResult.not_empty e w w' h = absurd (cc (ap (λ p. p.0) h))
  after_demoted lease l StoreResult.timeout e w w' h = absurd (cc (ap (λ p. p.0) h))
  after_demoted lease l StoreResult.unsupported e w w' h = absurd (cc (ap (λ p. p.0) h))

  demoted_lost :
      (lease l : Lease) (w w' : W) → renew store clock lease w ≡ (demoted, l, w') → l.lost ≡ true
  unfolding renew
  demoted_lost lease l w w' h =
      let p =
        store_put store lease.key (own_json lease)
          (record { if_none_match = false; if_match_etag = some lease.etag }) w in
      let answer : (if lease.lost then (demoted, lease, w) else after_renew store clock lease p)
          ≡ (demoted, l, w') =
        h in
      elim (Bool-cases lease.lost) [
        | inl gone ↦
            ap (λ x. x.lost)
              (sym (
                ap (λ p. p.1)
                  (sym (
                      ap (λ b. if b then (demoted, lease, w) else after_renew store clock lease p)
                        gone)
                    ∙ answer)))
            ∙ gone
        | inr kept ↦ after_demoted lease l p.0 p.1 p.2 w' (
            sym (ap (λ b. if b then (demoted, lease, w) else after_renew store clock lease p) kept)
            ∙ answer)
      ]

  -- A renewal that reports a demotion leaves a lease that is lost for good: at no time is it live, its
  -- renewals report a demotion again, and neither they nor a release change the lease or the world.
  pub renew-demoted :
      (lease l : Lease) (w w' : W)
      → renew store clock lease w ≡ (demoted, l, w')
      → ((now : ℕ) → is_live l now ≡ false)
        × ((v : W) → renew store clock l v ≡ (demoted, l, v))
        × ((v : W) → release store clock l v ≡ (l, v))
  renew-demoted lease l w w' h =
      let lost = demoted_lost lease l w w' h in
      (λ now. lost_is_dead l now lost, λ v. lost_stays l v lost, λ v. lost_kept l v lost)
