-- ===== src/SqliteWal/Capacity.antt =====
-- The growth of the array of references never refuses a count of frames that fits 32 bits.
use native.Mathlib.Nat.{pow-suc}
use otsardb.Base.{
  ℕ, zero, suc, ◌*◌, ◌/◌, ◌^◌, ◌≤◌, ◌≡◌, refl, ap, some, Bool-cases, inl, inr, false, ltb, leb,
  ◌==◌, if◌then◌else◌, arith,
}
use otsardb.WalBatch.{size_max}
use otsardb.SqliteWal.{grow, ensure_capacity, ref_bytes}

grow_enough :
    (fuel next required : ℕ)
    → required ≤ next * 2 ^ fuel
    → next ≤ 2 ^ 33
    → required ≤ 2 ^ 32
    → (c : ℕ) × (grow (suc fuel) next required ≡ some c) × (required ≤ c) × (c ≤ 2 ^ 33)
unfolding grow
grow_enough zero next required h h' r = (next, ground arith, omega arith, h')
grow_enough (suc fuel) next required h h' r = elim (Bool-cases (ltb next required)) [
  | inr large ↦ (next, rw large refl, ground arith, h')
  | inl small ↦
      let (c, e, lo, hi) =
        grow_enough fuel (next * 2) required
          (omega (arith, ap (λ (t : ℕ). next * t) (pow-suc 2 fuel))) (ground arith) r in
      let safe : ltb (size_max / 2) next ≡ false = ground arith in (c, rw (small, safe) e, lo, hi)
]

-- For up to 2^32 references and any capacity that was reached so, there is a capacity that holds
-- them, again at most 2^33.
pub ensure_capacity_total :
    (capacity required : ℕ)
    → required ≤ 2 ^ 32
    → capacity ≤ 2 ^ 33
    → (c : ℕ) × (ensure_capacity capacity required ≡ some c) × (required ≤ c) × (c ≤ 2 ^ 33)
unfolding ensure_capacity
ensure_capacity_total capacity required h h' = elim (Bool-cases (leb required capacity)) [
  | inl fits ↦ (capacity, rw fits refl, ground arith, h')
  | inr short ↦
      let next = if capacity == 0 then 8 else capacity in
      let (c, e, lo, hi) = grow_enough 64 next required (ground arith) (ground arith) h in
      let safe : ltb (size_max / ref_bytes) c ≡ false = ground arith in
      (c, rw (short, e, safe) refl, lo, hi)
]
