-- ===== src/Gc/Live.antt =====
-- src/storage/gc.c: the commits that a recovery still needs stay.
use otsardb.Base.{ℕ, ◌+◌, ◌≤◌, ◌<◌, ◌≡◌, ◌≢◌, inl, inr, ◌∙◌, Option, some, List, arith}
use otsardb.Text.{Text, codes}
use otsardb.ObjectStore.{ObjectStore, IsQuiet}
use otsardb.Journal.{head_key_max}
use otsardb.CommitManifest.{Manifest}
use otsardb.Gc.{GcOptions, Outcome, root_join, commit_key, gc_sweep}
use otsardb.Gc.Kept.{Listed}
use otsardb.Gc.Chain.{Filed, Superseded, Doomed}
use otsardb.Gc.Base.{IsBase}
use otsardb.Gc.Spared.{gc_sweep_spares}
use otsardb.Gc.Ends.{IsChain, Filed-parent, base-Filed}

module _ {W : Type 0} {store : ObjectStore W} {clock : W → ℕ × W} (quiet : IsQuiet store clock)
    (root : Text) (start : W) where
  open quiet use {content}

  -- The key is that of commits of one generation, and of nothing else that a sweep deletes.
  pub record IsApart (generation_of : Text → ℕ) (key : Text) (generation : ℕ) : Type 0 where
    pub commits :
        (commit_id : Text)
        → commit_key root commit_id ≡ some key
        → generation_of commit_id ≡ generation
    pub segments :
        (commit_id : Text) (m : Manifest)
        → Filed quiet root start commit_id m
        → ¬ Listed root m.format_version m.segments key
    pub lease : root_join root (codes "lease.json") (head_key_max + 1) ≢ some key

  older :
      (generation_of : Text → ℕ) (base : Manifest) (base_id commit_id : Text)
      → IsChain quiet root start generation_of
      → Filed quiet root start base_id base
      → Superseded quiet root start base commit_id
      → generation_of commit_id < base.generation
  older generation_of base base_id _ is_chain file (Superseded.parent given) =
      let step = Filed-parent quiet root start base_id base file given in
      let named = is_chain.parents base_id base file given in omega (arith, step, named)
  older generation_of base base_id _ is_chain file (Superseded.up commit_id m below filed given) =
      let step = Filed-parent quiet root start commit_id m filed given in
      let named = is_chain.parents commit_id m filed given in
      let this = is_chain.filed commit_id m filed in
      let before = older generation_of base base_id commit_id is_chain file below in
      omega (arith, step, named, this, before)

  spared :
      (generation_of : Text → ℕ) (base : Manifest) (base_id key : Text) (generation : ℕ)
      (owner : Option Text)
      → IsChain quiet root start generation_of
      → Filed quiet root start base_id base
      → base.generation ≤ generation
      → IsApart generation_of key generation
      → ¬ Doomed quiet root start base owner key
  spared generation_of base base_id _ generation owner is_chain file newer apart
        (Doomed.of_commit commit_id m key below filed keyed) =
      let before = older generation_of base base_id commit_id is_chain file below in
      let this = apart.commits commit_id keyed in omega (arith, before, this)
  spared generation_of base base_id _ generation owner is_chain file newer apart
        (Doomed.of_segment commit_id m key below filed listed) =
      apart.segments commit_id m filed listed
  spared generation_of base base_id _ generation owner is_chain file newer apart
        (Doomed.of_lease me key bytes mine keyed stored named) =
      apart.lease keyed

  -- While nobody else acts, each commit is filed under one generation, and each manifest names its
  -- parent by the generation under which the parent is filed, a sweep that ends leaves the object
  -- of each commit that is not older than the generation which the newest checkpoint covers, if no
  -- segment, no lease and no commit of another generation has its key.
  pub gc_sweep_live :
      (generation_of : Text → ℕ) (fuel : ℕ) (options : GcOptions) (deleted : ℕ) (w' : W)
      (key : Text) (bytes : List ℕ) (generation : ℕ)
      → IsChain quiet root start generation_of
      → gc_sweep store clock root fuel options start ≡ Outcome.swept deleted w'
      → content start key ≡ some bytes
      → ((base : Manifest) → IsBase quiet root start base → base.generation ≤ generation)
      → IsApart generation_of key generation
      → content w' key ≡ some bytes
  gc_sweep_live generation_of fuel options deleted w' key bytes generation is_chain h stored newer
        apart =
      elim (gc_sweep_spares quiet root start fuel options deleted w' key h) [
        | inl same ↦ same ∙ stored
        | inr (base, is_base, gone, doomed) ↦ absurd (
            spared generation_of base is_base.checkpoint.base_commit_id key generation
              options.owner_expected is_chain (base-Filed quiet root start base is_base)
              (newer base is_base) apart doomed)
      ]
