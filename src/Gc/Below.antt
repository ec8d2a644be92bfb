-- ===== src/Gc/Below.antt =====
-- src/storage/gc.c: the end of a sweep, behind the loop.
use otsardb.Base.{
  ℕ, ◌+◌, ◌≡◌, ◌≢◌, inl, inr, refl, ap, sym, subst, ◌&&◌, Option, none, some, [], ◌∷◌, Bool-cases,
  if◌then◌else◌, true_both,
}
use otsardb.Text.{Text, codes}
use otsardb.ObjectStore.{ObjectStore, IsQuiet, is_ok, store_get}
use otsardb.Journal.{head_key_max}
use otsardb.CommitManifest.{Manifest}
use otsardb.Gc.{
  Outcome, root_join, mem_contains, owner_needle, delete_key, parent_id, sweep_chain,
  delete_lease_read, delete_lease, sweep_below, sweep_ended,
}
use otsardb.Gc.Kept.{Kept, Kept-get, held, ok_of, Kept-delete_key}
use otsardb.Gc.Chain.{Superseded, Doomed, Kept-chain}

abbrev pub world_of : {W : Type 0} → W → Outcome W → W
world_of w (Outcome.failed w') = w'
world_of w (Outcome.swept deleted w') = w'
world_of w Outcome.out_of_fuel = w

module _ {W : Type 0} {store : ObjectStore W} {clock : W → ℕ × W} (quiet : IsQuiet store clock)
    (root : Text) (start : W) where
  open quiet use {content, get_reads}

  module _ (base : Manifest) (owner : Option Text) where
    abbrev D : Text → Type 0
    D = Doomed quiet root start base owner

    abbrev Fine : ℕ × W → Type 0
    Fine s = Kept quiet root start D s.1

    -- The lease.
    Kept-lease_read :
        (key me : Text) (s : ℕ × W)
        → owner ≡ some me
        → root_join root (codes "lease.json") (head_key_max + 1) ≡ some key
        → Fine s
        → Fine (delete_lease_read store clock root key me s.0 (store_get store key s.1))
    Kept-lease_read key me s mine keyed kept =
        let (rc, object, w) = store_get store key s.1 in
        let p = store_get store key s.1 in
        let kept' = Kept-get quiet root start D s.1 key kept in
        let gone = delete_key store clock root (some key) (s.0, p.2) in
        elim (Bool-cases (is_ok p.0 && mem_contains p.1.bytes (owner_needle me))) [
          | inr other ↦ subst Fine (ap (λ b. if b then gone else (s.0, p.2)) (sym other)) kept'
          | inl named ↦
              let (ok, names) = true_both (is_ok p.0) _ named in
              let stored =
                held quiet root start D s.1 key p.1.bytes kept (get_reads key s.1 (ok_of p.0 ok)) in
              let doomed = Doomed.of_lease me key p.1.bytes mine keyed stored names in
              subst Fine (ap (λ b. if b then gone else (s.0, p.2)) (sym named)) (
                Kept-delete_key quiet root start D (some key) (s.0, p.2)
                  (λ k e. subst D (cc e) doomed) kept')
        ]

    Kept-lease_keyed :
        (me : Text) (key : Option Text) (s : ℕ × W)
        → owner ≡ some me
        → root_join root (codes "lease.json") (head_key_max + 1) ≡ key
        → Fine s
        → Fine (elim key [
          | none ↦ s
          | some k ↦ delete_lease_read store clock root k me s.0 (store_get store k s.1)
        ])
    Kept-lease_keyed me none s mine keyed kept = kept
    Kept-lease_keyed me (some key) s mine keyed kept = Kept-lease_read key me s mine keyed kept

    Kept-lease :
        (me : Option Text) (s : ℕ × W)
        → owner ≡ me
        → Fine s
        → Fine (delete_lease store clock root me s)
    unfolding delete_lease
    Kept-lease none s mine kept = kept
    Kept-lease (some []) s mine kept = kept
    Kept-lease (some (c ∷ me)) s mine kept =
        Kept-lease_keyed (c ∷ me) (root_join root (codes "lease.json") (head_key_max + 1)) s mine
          refl kept

    ended_not_failed :
        (q : Option (ℕ × W)) (w' : W) → sweep_ended store clock root owner q ≢ Outcome.failed w'
    unfolding sweep_ended
    ended_not_failed none w' h = cc h
    ended_not_failed (some s) w' h = cc h

    Kept-ended :
        (q : Option (ℕ × W)) (deleted : ℕ) (w' : W)
        → ((s : ℕ × W) → q ≡ some s → Fine s)
        → sweep_ended store clock root owner q ≡ Outcome.swept deleted w'
        → Kept quiet root start D w'
    unfolding sweep_ended
    Kept-ended none deleted w' fine h = absurd (cc h)
    Kept-ended (some s) deleted w' fine h =
        subst (Kept quiet root start D) (ap (world_of w') h) (Kept-lease owner s refl (fine s refl))

    pub Kept-below :
        (fuel : ℕ) (w : W) (deleted : ℕ) (w' : W)
        → Kept quiet root start D w
        → sweep_below store clock root fuel owner (some base, w) ≡ Outcome.swept deleted w'
        → Kept quiet root start D w'
    unfolding sweep_below
    Kept-below fuel w deleted w' kept h =
        let parent = parent_id store clock root base in
        Kept-ended (sweep_chain store clock root fuel base.parent_generation parent (0, w)) deleted
          w'
          (λ s e.
            Kept-chain quiet root start base owner fuel base.parent_generation parent (0, w) s
              Superseded.parent kept e)
          h

    pub below_not_failed :
        (fuel : ℕ) (w w' : W)
        → sweep_below store clock root fuel owner (some base, w) ≢ Outcome.failed w'
    unfolding sweep_below
    below_not_failed fuel w w' =
        ended_not_failed
          (sweep_chain store clock root fuel base.parent_generation
            (parent_id store clock root base) (0, w))
          w'

    ended_runs_out :
        (q : Option (ℕ × W)) → sweep_ended store clock root owner q ≡ Outcome.out_of_fuel → q ≡ none
    unfolding sweep_ended
    ended_runs_out none h = refl
    ended_runs_out (some s) h = absurd (cc h)

    pub below_runs_out :
        (fuel : ℕ) (w : W)
        → sweep_below store clock root fuel owner (some base, w) ≡ Outcome.out_of_fuel
        → sweep_chain store clock root fuel base.parent_generation
            (parent_id store clock root base)
            (0, w)
          ≡ none
    unfolding sweep_below
    below_runs_out fuel w = ended_runs_out (
        sweep_chain store clock root fuel base.parent_generation (parent_id store clock root base)
          (0, w))
