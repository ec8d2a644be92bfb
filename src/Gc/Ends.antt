-- ===== src/Gc/Ends.antt =====
-- src/storage/gc.c: the loop over the superseded commits ends.
use otsardb.Base.{
  ℕ, zero, suc, ◌+◌, ◌≤◌, ◌≡◌, ◌≢◌, inl, inr, refl, ap, subst, ◌∙◌, Bool, true, false, Option, none,
  some, List, arith, if◌then◌else◌, ◌==◌, Bool-cases, bind_some, guard-some, some_eq, ==_iff, guard,
  ◌>>◌,
}
use otsardb.Text.{Text}
use otsardb.ObjectStore.{ObjectStore, IsQuiet, store_get}
use otsardb.CommitManifest.{Manifest}
use otsardb.CommitManifest.Decode.{decode_json}
use otsardb.CommitManifest.Parent.{decode_json-parent}
use otsardb.CheckpointManifest.Pointer.{CheckpointPointer}
use otsardb.Gc.{
  GcOptions, Outcome, commit_key, decoded_by, verified_base, delete_commit, read_commit, parent_id,
  sweep_found, sweep_keyed, sweep_chain, gc_sweep,
}
use otsardb.Gc.Kept.{Kept, Kept-get, read_held}
use otsardb.Gc.Chain.{Filed, Superseded, Doomed, after_commit, not_zero}
use otsardb.Gc.Base.{IsBase}
use otsardb.Gc.Spared.{gc_sweep-Fine, Fine}

goes_on_none {ℓ} :
    {A : Type ℓ} (test : Bool) (a : A) (q : Option A)
    → (if test then some a else q) ≡ none
    → (test ≡ false) × (q ≡ none)
goes_on_none true a q h = absurd (cc h)
goes_on_none false a q h = (refl, h)

base_decodes :
    (cp : CheckpointPointer) (bytes : List ℕ) (base : Manifest)
    → verified_base cp bytes ≡ some base
    → (decode_json bytes ≡ some base) × (base.generation ≡ cp.covered_generation)
unfolding verified_base
base_decodes cp bytes base h =
    let (m, e, h1) =
      bind_some (decode_json bytes) (λ m. guard (m.generation == cp.covered_generation) >> some m)
        base h in
    let (covered, h2) = guard-some (m.generation == cp.covered_generation) (some m) base h1 in
    let same = some_eq m base h2 in
    (
      e ∙ ap some same,
      subst (λ x. x.generation ≡ cp.covered_generation) same
          ((==_iff m.generation cp.covered_generation).0 covered),
    )

module _ {W : Type 0} {store : ObjectStore W} {clock : W → ℕ × W} (quiet : IsQuiet store clock)
    (root : Text) (start : W) where
  -- Each commit is filed under one generation, and each manifest names its parent by the generation
  -- under which the parent is filed.
  pub record IsChain (generation_of : Text → ℕ) : Type 0 where
    pub filed :
        (commit_id : Text) (m : Manifest)
        → Filed quiet root start commit_id m
        → m.generation ≡ generation_of commit_id
    pub parents :
        (commit_id : Text) (m : Manifest)
        → Filed quiet root start commit_id m
        → m.parent_generation ≢ 0
        → generation_of (parent_id store clock root m) ≡ m.parent_generation

  pub Filed-parent :
      (commit_id : Text) (m : Manifest)
      → Filed quiet root start commit_id m
      → m.parent_generation ≢ 0
      → m.parent_generation + 1 ≡ m.generation
  Filed-parent commit_id m filed = decode_json-parent filed.bytes m filed.decodes

  pub base-Filed :
      (base : Manifest) (b : IsBase quiet root start base)
      → Filed quiet root start b.checkpoint.base_commit_id base
  base-Filed base b = record {
    key = b.base_key;
    bytes = b.base_bytes;
    keyed = b.base_keyed;
    stored = b.base_stored;
    decodes = (base_decodes b.pointer b.base_bytes base b.base_verified).0;
  }

  parent_room :
      (commit_id : Text) (m : Manifest) (fuel : ℕ)
      → Filed quiet root start commit_id m
      → m.generation ≤ fuel
      → m.parent_generation ≤ fuel
  parent_room commit_id m fuel file room = elim (Bool-cases (m.parent_generation == 0)) [
    | inl first ↦ let e = (==_iff m.parent_generation 0).0 first in omega (arith, e)
    | inr other ↦
        let step = Filed-parent commit_id m file (not_zero m.parent_generation other) in
        omega (arith, step)
  ]

  module _ (generation_of : Text → ℕ) (is_chain : IsChain generation_of) (base : Manifest)
      (owner : Option Text) where
    abbrev At : W → Type 0
    At = Kept quiet root start (Doomed quiet root start base owner)

    -- What a number of rounds promises.
    abbrev Ends : ℕ → (ℕ → Text → ℕ × W → Option (ℕ × W)) → Type 0
    Ends fuel rounds =
        (gen : ℕ) (current_id : Text) (s : ℕ × W)
        → gen ≤ fuel
        → (gen ≢ 0 → Superseded quiet root start base current_id)
        → (gen ≢ 0 → generation_of current_id ≡ gen)
        → At s.1
        → rounds gen current_id s ≢ none

    found-Ends :
        (fuel gen : ℕ) (rounds : ℕ → Text → ℕ × W → Option (ℕ × W)) (current_id key : Text)
        (found : Option Manifest) (s : ℕ × W)
        → Ends fuel rounds
        → gen ≤ suc fuel
        → Superseded quiet root start base current_id
        → generation_of current_id ≡ gen
        → commit_key root current_id ≡ some key
        → ((m : Manifest) → found ≡ some m → Filed quiet root start current_id m)
        → At s.1
        → sweep_found store clock root rounds key found s ≢ none
    unfolding sweep_found
    found-Ends fuel gen rounds current_id key none s more room below g keyed filed at h = cc h
    found-Ends fuel gen rounds current_id key (some m) s more room below g keyed filed at h =
        let file = filed m refl in
        let next = delete_commit store clock root key m s in
        let parent = parent_id store clock root m in
        let (goes_on, h') =
          goes_on_none (m.parent_generation == 0) next (rounds m.parent_generation parent next) h in
        let ne = not_zero m.parent_generation goes_on in
        let step = Filed-parent current_id m file ne in
        let this = is_chain.filed current_id m file in
        more m.parent_generation parent next (omega arith) (Superseded.up current_id m below file)
          (is_chain.parents current_id m file)
          (after_commit quiet root start base owner current_id key m s below file keyed at) h'

    keyed-Ends :
        (fuel gen : ℕ) (rounds : ℕ → Text → ℕ × W → Option (ℕ × W)) (current_id : Text)
        (key : Option Text) (s : ℕ × W)
        → Ends fuel rounds
        → gen ≤ suc fuel
        → Superseded quiet root start base current_id
        → generation_of current_id ≡ gen
        → commit_key root current_id ≡ key
        → At s.1
        → sweep_keyed store clock root rounds key s ≢ none
    unfolding sweep_keyed read_commit
    keyed-Ends fuel gen rounds current_id none s more room below g keyed at h = cc h
    keyed-Ends fuel gen rounds current_id (some key) s more room below g keyed at h =
        let p = store_get store key s.1 in
        let D = Doomed quiet root start base owner in
        let filed : (m : Manifest)
            → (decoded_by decode_json p).0 ≡ some m
            → Filed quiet root start current_id m =
          λ m e.
            let (bytes, stored, decodes) =
              read_held quiet root start D s.1 key decode_json m at e in
            record {
              key = key;
              bytes = bytes;
              keyed = keyed;
              stored = stored;
              decodes = decodes;
            } in
        found-Ends fuel gen rounds current_id key (decoded_by decode_json p).0 (s.0, p.2) more room
          below g keyed filed (Kept-get quiet root start D s.1 key at) h

    chain-Ends : (fuel : ℕ) → Ends fuel (sweep_chain store clock root fuel)
    unfolding sweep_chain
    chain-Ends zero gen current_id s room below g at h =
        let (goes_on, h') = goes_on_none (gen == 0) s none h in not_zero gen goes_on (omega arith)
    chain-Ends (suc fuel) gen current_id s room below g at h =
        let key = commit_key root current_id in
        let rounds = sweep_chain store clock root fuel in
        let (goes_on, h') =
          goes_on_none (gen == 0) s (sweep_keyed store clock root rounds key s) h in
        let ne = not_zero gen goes_on in
        keyed-Ends fuel gen rounds current_id key s (chain-Ends fuel) room (below ne) (g ne) refl at
          h'

  -- While nobody else acts, each commit is filed under one generation, and each manifest names its
  -- parent by the generation under which the parent is filed, the loop ends within as many rounds
  -- as the generation that the newest checkpoint covers.
  pub gc_sweep_ends :
      (generation_of : Text → ℕ) (fuel : ℕ) (options : GcOptions)
      → IsChain generation_of
      → ((base : Manifest) → IsBase quiet root start base → base.generation ≤ fuel)
      → gc_sweep store clock root fuel options start ≢ Outcome.out_of_fuel
  gc_sweep_ends generation_of fuel options is_chain enough h =
      let owner = options.owner_expected in
      let (base, w, is_base, same, runs_out) =
        subst (Fine quiet root start fuel owner) h (gc_sweep-Fine quiet root start fuel options) in
      let file = base-Filed base is_base in
      let room = enough base is_base in
      chain-Ends generation_of is_chain base owner fuel base.parent_generation
        (parent_id store clock root base) (0, w)
        (parent_room is_base.checkpoint.base_commit_id base fuel file room) Superseded.parent
        (is_chain.parents is_base.checkpoint.base_commit_id base file) (λ k. inl (same k)) runs_out
