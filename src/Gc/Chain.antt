-- ===== src/Gc/Chain.antt =====
-- src/storage/gc.c: which objects the loop of a sweep and its last step may delete.
use otsardb.Base.{
  ℕ, zero, suc, ◌+◌, ◌≡◌, ◌≢◌, inl, inr, refl, subst, true, false, Option, none, some, List, arith,
  ◌==◌, ends_or, some_eq,
}
use otsardb.Text.{Text, codes}
use otsardb.ObjectStore.{ObjectStore, IsQuiet, store_get}
use otsardb.Journal.{head_key_max}
use otsardb.CommitManifest.{Manifest}
use otsardb.CommitManifest.Decode.{decode_json}
use otsardb.Gc.{
  root_join, mem_contains, commit_key, owner_needle, decoded_by, delete_commit, read_commit,
  parent_id, sweep_chain, sweep_found, sweep_keyed,
}
use otsardb.Gc.Kept.{Listed, Kept, Kept-get, read_held, Kept-delete_commit}

pub not_zero : (n : ℕ) → (n == 0) ≡ false → n ≢ 0
not_zero n h e = ground arith

module _ {W : Type 0} {store : ObjectStore W} {clock : W → ℕ × W} (quiet : IsQuiet store clock)
    (root : Text) (start : W) where
  open quiet use {content, get_reads}

  -- At the start, the object of this commit could be decoded as the manifest.
  pub record Filed (commit_id : Text) (m : Manifest) : Type 0 where
    pub key : Text
    pub bytes : List ℕ
    pub keyed : commit_key root commit_id ≡ some key
    pub stored : content start key ≡ some bytes
    pub decodes : decode_json bytes ≡ some m

  -- The commits below the base: its parent, and the parent of each of them.
  pub data Superseded (base : Manifest) : Text → Type 0 where
    parent : base.parent_generation ≢ 0 → Superseded base (parent_id store clock root base)
    up :
        (commit_id : Text) (m : Manifest)
        → Superseded base commit_id
        → Filed commit_id m
        → m.parent_generation ≢ 0
        → Superseded base (parent_id store clock root m)

  -- What a sweep below the base may delete: the manifests of superseded commits, the segments that they
  -- list, and the lease if it names the expected owner.
  pub data Doomed (base : Manifest) (owner : Option Text) : Text → Type 0 where
    of_commit :
        (commit_id : Text) (m : Manifest) (key : Text)
        → Superseded base commit_id
        → Filed commit_id m
        → commit_key root commit_id ≡ some key
        → Doomed base owner key
    of_segment :
        (commit_id : Text) (m : Manifest) (key : Text)
        → Superseded base commit_id
        → Filed commit_id m
        → Listed root m.format_version m.segments key
        → Doomed base owner key
    of_lease :
        (me : Text) (key : Text) (bytes : List ℕ)
        → owner ≡ some me
        → root_join root (codes "lease.json") (head_key_max + 1) ≡ some key
        → content start key ≡ some bytes
        → mem_contains bytes (owner_needle me) ≡ true
        → Doomed base owner key

  -- The loop.
  module _ (base : Manifest) (owner : Option Text) where
    abbrev D : Text → Type 0
    D = Doomed base owner

    abbrev chain : ℕ → ℕ → Text → ℕ × W → Option (ℕ × W)
    chain = sweep_chain store clock root

    pub after_commit :
        (current_id key : Text) (m : Manifest) (s : ℕ × W)
        → Superseded base current_id
        → Filed current_id m
        → commit_key root current_id ≡ some key
        → Kept quiet root start D s.1
        → Kept quiet root start D (delete_commit store clock root key m s).1
    after_commit current_id key m s below filed keyed kept =
        Kept-delete_commit quiet root start D key m s
          (Doomed.of_commit current_id m key below filed keyed)
          (λ k listed. Doomed.of_segment current_id m k below filed listed) kept

    abbrev Fine : ℕ × W → Type 0
    Fine s = Kept quiet root start D s.1

    -- What a round promises of the next ones.
    abbrev Rounds : (ℕ → Text → ℕ × W → Option (ℕ × W)) → Type 0
    Rounds rounds =
        (gen : ℕ) (current_id : Text) (s s' : ℕ × W)
        → (gen ≢ 0 → Superseded base current_id)
        → Fine s
        → rounds gen current_id s ≡ some s'
        → Fine s'

    Kept-found :
        (rounds : ℕ → Text → ℕ × W → Option (ℕ × W)) (current_id key : Text)
        (found : Option Manifest) (s s' : ℕ × W)
        → Rounds rounds
        → Superseded base current_id
        → commit_key root current_id ≡ some key
        → ((m : Manifest) → found ≡ some m → Filed current_id m)
        → Fine s
        → sweep_found store clock root rounds key found s ≡ some s'
        → Fine s'
    unfolding sweep_found
    Kept-found rounds current_id key none s s' more below keyed filed kept h =
        subst Fine (some_eq s s' h) kept
    Kept-found rounds current_id key (some m) s s' more below keyed filed kept h =
        let next = delete_commit store clock root key m s in
        let parent = parent_id store clock root m in
        let kept' = after_commit current_id key m s below (filed m refl) keyed kept in
        elim (ends_or (m.parent_generation == 0) next s' (rounds m.parent_generation parent next)
          h) [
            | inl same ↦ subst Fine same kept'
            | inr (goes_on, h') ↦
                more m.parent_generation parent next s'
                  (Superseded.up current_id m below (filed m refl)) kept' h'
          ]

    Kept-keyed :
        (rounds : ℕ → Text → ℕ × W → Option (ℕ × W)) (current_id : Text) (key : Option Text)
        (s s' : ℕ × W)
        → Rounds rounds
        → Superseded base current_id
        → commit_key root current_id ≡ key
        → Fine s
        → sweep_keyed store clock root rounds key s ≡ some s'
        → Fine s'
    unfolding sweep_keyed read_commit
    Kept-keyed rounds current_id none s s' more below keyed kept h =
        subst Fine (some_eq s s' h) kept
    Kept-keyed rounds current_id (some key) s s' more below keyed kept h =
        let p = store_get store key s.1 in
        let filed : (m : Manifest) → (decoded_by decode_json p).0 ≡ some m → Filed current_id m =
          λ m e.
            let (bytes, stored, decodes) =
              read_held quiet root start D s.1 key decode_json m kept e in
            record {
              key = key;
              bytes = bytes;
              keyed = keyed;
              stored = stored;
              decodes = decodes;
            } in
        Kept-found rounds current_id key (decoded_by decode_json p).0 (s.0, p.2) s' more below keyed
          filed (Kept-get quiet root start D s.1 key kept) h

    pub Kept-chain : (fuel : ℕ) → Rounds (sweep_chain store clock root fuel)
    unfolding sweep_chain
    Kept-chain zero gen current_id s s' below kept h = elim (ends_or (gen == 0) s s' none h) [
      | inl same ↦ subst Fine same kept
      | inr (goes_on, h') ↦ absurd (cc h')
    ]
    Kept-chain (suc fuel) gen current_id s s' below kept h =
        let key = commit_key root current_id in
        let rounds = sweep_chain store clock root fuel in
        elim (ends_or (gen == 0) s s' (sweep_keyed store clock root rounds key s) h) [
          | inl same ↦ subst Fine same kept
          | inr (goes_on, h') ↦
              Kept-keyed rounds current_id key s s' (Kept-chain fuel) (below (not_zero gen goes_on))
                refl kept h'
        ]
