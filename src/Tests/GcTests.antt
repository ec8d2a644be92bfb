-- ===== src/Tests/GcTests.antt =====
-- Tests of src/storage/gc.c on the store in memory: a chain of three commits with a checkpoint at the last.
use otsardb.Base.{
  ℕ, ◌≤◌, ◌≡◌, ◌≢◌, ◌⊎◌, refl, ap, sym, subst, ◌∙◌, true, false, none, some, List, [], ◌∷◌, ◌++◌,
  arith, Option, get_elem?, zero, suc, Bool, some_eq,
}
use otsardb.Text.{Text, codes}
use otsardb.ObjectStore.{no_options, store_get, store_put, store_delete}
use otsardb.ObjectStore.Memory.{
  Memory, empty_memory, memory_store, memory_clock, memory_store-IsQuiet, content_of, content_found,
}
use otsardb.Sha256.{hex_data}
use otsardb.CommitManifest.{SegmentRef, Manifest}
use otsardb.CommitManifest.Written.{print_document}
use otsardb.CheckpointManifest.{PageGroupRef, CheckpointManifest}
use otsardb.CheckpointManifest.Pointer.{CheckpointPointer, print_pointer}
use otsardb.CommitManifest.Decode.{decode_json}
use otsardb.Gc.{GcOptions, Outcome, commit_key, root_join, segment_key, parent_id, gc_sweep}
use otsardb.Gc.Chain.{Filed, Doomed}
use otsardb.Gc.Below.{world_of}
use otsardb.Gc.Base.{IsBase}
use otsardb.Gc.Spared.{gc_sweep_spares, gc_sweep_fails}
use otsardb.Gc.Ends.{IsChain, base-Filed, gc_sweep_ends}
use otsardb.Gc.Kept.{Listed}
use otsardb.Gc.Live.{IsApart, gc_sweep_live}

abbrev root : Text
root = codes "db"

abbrev sha : Text
sha = codes "0123456789abcdef0123456789abcdef0123456789abcdef0123456789abcdef"

abbrev made_commit : ℕ → ℕ → Text → Text → Manifest
made_commit generation parent_generation commit_id parent_commit_id = record {
  format_version = 3;
  generation = generation;
  parent_generation = parent_generation;
  page_size = 4096;
  database_size_pages = 1;
  database_id = codes "d";
  commit_id = commit_id;
  parent_commit_id = parent_commit_id;
  parent_manifest_sha256 = sha;
  segments =
      record {
        key = codes "segments/" ++ commit_id;
        sha256 = sha;
        size = 9;
        pages = [];
        frame_offsets = none;
      }
      ∷ [];
  post_apply_checksum = [];
}

abbrev first_commit : Manifest
first_commit = record (made_commit 1 0 (codes "c1") []) { parent_manifest_sha256 = [] }

abbrev second_commit : Manifest
second_commit = made_commit 2 1 (codes "c2") (codes "c1")

abbrev third_commit : Manifest
third_commit = made_commit 3 2 (codes "c3") (codes "c2")

-- Its text ends the list of the page groups.
abbrev checkpoint_json : Text
checkpoint_json =
    codes "{\"otsardb_checkpoint_format\":1,\"database_id\":\"d\",\"covered_generation\":3,"
    ++ (codes "\"base_commit_id\":\"c3\",\"base_manifest_sha256\":\"\",\"page_size\":512,"
        ++ (codes "\"database_size_pages\":1,\"page_groups\":[{\"key\":\"g\",\"sha256\":\""
            ++ (sha ++ codes "\",\"size\":556}]}\n")))

abbrev pointer : CheckpointPointer
pointer = record {
  covered_generation = 3;
  checkpoint_sha256 = hex_data checkpoint_json;
  checkpoint_key = codes "db/checkpoints/k";
  database_id = codes "d";
}

abbrev put : Text → Text → Memory → Memory
put key text m = (store_put memory_store key text no_options m).2

abbrev my_lease : Text
my_lease = codes "{\"owner\":\"me\",\"epoch\":1}"

unfoldable filled : Memory
unfolding store_put hex_data print_pointer
filled = put (codes "db/CHECKPOINT.json") (print_pointer pointer) (
    put (codes "db/checkpoints/k") checkpoint_json (
      put (codes "db/commits/c3.json") (print_document third_commit) (
        put (codes "db/commits/c2.json") (print_document second_commit) (
          put (codes "db/commits/c1.json") (print_document first_commit) (
            put (codes "db/segments/c2") (codes "two") (
              put (codes "db/segments/c3") (codes "three")
                (put (codes "db/lease.json") my_lease empty_memory)))))))

abbrev options : GcOptions
options = record { keep_secs = 0; owner_expected = some (codes "me") }

abbrev is_swept : Outcome Memory → Bool
is_swept (Outcome.failed w) = false
is_swept (Outcome.swept deleted w) = true
is_swept Outcome.out_of_fuel = false

abbrev deleted_of : Outcome Memory → ℕ
deleted_of (Outcome.failed w) = 1000
deleted_of (Outcome.swept deleted w) = deleted
deleted_of Outcome.out_of_fuel = 2000

swept_as :
    (o : Outcome Memory)
    → is_swept o ≡ true
    → o ≡ Outcome.swept (deleted_of o) (world_of empty_memory o)
swept_as (Outcome.failed w) h = absurd (cc h)
swept_as (Outcome.swept deleted w) h = refl
swept_as Outcome.out_of_fuel h = absurd (cc h)

abbrev outcome : Outcome Memory
outcome = gc_sweep memory_store memory_clock root 3 options filled

abbrev after : Memory
after = world_of empty_memory outcome

-- The manifests of the second and the first commit, the segment of the second, and the lease go; the
-- segment of the first is not there, and its deletion counts too.
outcome_deletes : deleted_of outcome ≡ 5
unfolding gc_sweep filled store_get store_delete otsardb.Text.decimal otsardb.Text.cstr
    otsardb.Text.strtoull otsardb.CheckpointManifest.decode otsardb.CommitManifest.print_header
    otsardb.CommitManifest.print_entry otsardb.CommitManifest.Encode.print_checksum
outcome_deletes = refl

outcome_swept : is_swept outcome ≡ true
unfolding gc_sweep filled store_get store_delete otsardb.Text.decimal otsardb.Text.cstr
    otsardb.Text.strtoull otsardb.CheckpointManifest.decode otsardb.CommitManifest.print_header
    otsardb.CommitManifest.print_entry otsardb.CommitManifest.Encode.print_checksum
outcome_swept = refl

-- The documents are read as what they were written from.
first_decodes : decode_json (print_document first_commit) ≡ some first_commit
unfolding decode_json otsardb.Text.decimal otsardb.Text.cstr otsardb.Text.strtoull
    otsardb.CommitManifest.print_header otsardb.CommitManifest.print_entry
    otsardb.CommitManifest.Encode.print_checksum
first_decodes = refl

second_decodes : decode_json (print_document second_commit) ≡ some second_commit
unfolding decode_json otsardb.Text.decimal otsardb.Text.cstr otsardb.Text.strtoull
    otsardb.CommitManifest.print_header otsardb.CommitManifest.print_entry
    otsardb.CommitManifest.Encode.print_checksum
second_decodes = refl

third_decodes : decode_json (print_document third_commit) ≡ some third_commit
unfolding decode_json otsardb.Text.decimal otsardb.Text.cstr otsardb.Text.strtoull
    otsardb.CommitManifest.print_header otsardb.CommitManifest.print_entry
    otsardb.CommitManifest.Encode.print_checksum
third_decodes = refl

pointer_no_manifest : decode_json (print_pointer pointer) ≡ none
unfolding decode_json print_pointer hex_data otsardb.Text.decimal otsardb.Text.cstr
    otsardb.Text.strtoull
pointer_no_manifest = refl

checkpoint_no_manifest : decode_json checkpoint_json ≡ none
unfolding decode_json otsardb.Text.cstr otsardb.Text.strtoull
checkpoint_no_manifest = refl

text_no_manifest :
    (decode_json (codes "two") ≡ none)
    × (decode_json (codes "three") ≡ none)
    × (decode_json my_lease ≡ none)
unfolding decode_json otsardb.Text.cstr
text_no_manifest = (refl, refl, refl)

-- The generation under which the memory holds a commit.
abbrev manifest_generation : Option Manifest → ℕ
manifest_generation none = 0
manifest_generation (some m) = m.generation

abbrev stored_generation : Option (List ℕ) → ℕ
stored_generation none = 0
stored_generation (some bytes) = manifest_generation (decode_json bytes)

abbrev key_generation : Option Text → ℕ
key_generation none = 0
key_generation (some key) = stored_generation (content_of filled key)

abbrev generation_of : Text → ℕ
generation_of commit_id = key_generation (commit_key root commit_id)

abbrev Holds : Text → Manifest → Type 0
Holds = Filed memory_store-IsQuiet root filled

Holds-generation :
    (commit_id : Text) (m : Manifest) → Holds commit_id m → m.generation ≡ generation_of commit_id
unfolding memory_store-IsQuiet
Holds-generation commit_id m file = sym (
    ap key_generation file.keyed
    ∙ ap stored_generation file.stored
    ∙ ap manifest_generation file.decodes)

one_of :
    (P : Manifest → Type 0) (text bytes : List ℕ) (q : Option Manifest) (m : Manifest)
    → decode_json text ≡ q
    → some text ≡ some bytes
    → decode_json bytes ≡ some m
    → ((c : Manifest) → q ≡ some c → P c)
    → P m
one_of P text bytes q m e held h p = p m (sym e ∙ ap decode_json (some_eq text bytes held) ∙ h)

no_manifest : (P : Manifest → Type 0) (c : Manifest) → none ≡ some c → P c
no_manifest P c e = absurd (cc e)

-- What holds of the three manifests holds of all that the memory can give.
held_all :
    (P : Manifest → Type 0)
    → P first_commit
    → P second_commit
    → P third_commit
    → (n : ℕ) (bytes : List ℕ) (m : Manifest) → get_elem? filled.written n ≡ some bytes
    → decode_json bytes ≡ some m
    → P m
unfolding filled store_put
held_all P first second third zero bytes m e h =
    one_of P my_lease bytes none m text_no_manifest.2 e h (no_manifest P)
held_all P first second third (suc zero) bytes m e h =
    one_of P (codes "three") bytes none m text_no_manifest.1 e h (no_manifest P)
held_all P first second third (suc (suc zero)) bytes m e h =
    one_of P (codes "two") bytes none m text_no_manifest.0 e h (no_manifest P)
held_all P first second third (suc (suc (suc zero))) bytes m e h =
    one_of P (print_document first_commit) bytes (some first_commit) m first_decodes e h
      (λ c k. subst P (some_eq first_commit c k) first)
held_all P first second third (suc (suc (suc (suc zero)))) bytes m e h =
    one_of P (print_document second_commit) bytes (some second_commit) m second_decodes e h
      (λ c k. subst P (some_eq second_commit c k) second)
held_all P first second third (suc (suc (suc (suc (suc zero))))) bytes m e h =
    one_of P (print_document third_commit) bytes (some third_commit) m third_decodes e h
      (λ c k. subst P (some_eq third_commit c k) third)
held_all P first second third (suc (suc (suc (suc (suc (suc zero)))))) bytes m e h =
    one_of P checkpoint_json bytes none m checkpoint_no_manifest e h (no_manifest P)
held_all P first second third (suc (suc (suc (suc (suc (suc (suc zero))))))) bytes m e h =
    one_of P (print_pointer pointer) bytes none m pointer_no_manifest e h (no_manifest P)
held_all P first second third (suc (suc (suc (suc (suc (suc (suc (suc n)))))))) bytes m e h =
    absurd (cc e)

held_by :
    (P : Manifest → Type 0)
    → P first_commit
    → P second_commit
    → P third_commit
    → (commit_id : Text) (m : Manifest) → Holds commit_id m
    → P m
unfolding memory_store-IsQuiet
held_by P first second third commit_id m file =
    let (n, e) = content_found filled file.key file.bytes file.stored in
    held_all P first second third n file.bytes m e file.decodes

abbrev ParentKept : Manifest → Type 0
ParentKept m =
    m.parent_generation ≢ 0
    → generation_of (parent_id memory_store memory_clock root m) ≡ m.parent_generation

parent_first : generation_of (codes "c1") ≡ 1
unfolding commit_key filled store_put decode_json otsardb.Text.decimal otsardb.Text.cstr
    otsardb.Text.strtoull otsardb.CommitManifest.print_header otsardb.CommitManifest.print_entry
    otsardb.CommitManifest.Encode.print_checksum
parent_first = refl

parent_second : generation_of (codes "c2") ≡ 2
unfolding commit_key filled store_put decode_json otsardb.Text.decimal otsardb.Text.cstr
    otsardb.Text.strtoull otsardb.CommitManifest.print_header otsardb.CommitManifest.print_entry
    otsardb.CommitManifest.Encode.print_checksum
parent_second = refl

is_chain : IsChain memory_store-IsQuiet root filled generation_of
is_chain = record {
  filed = Holds-generation;
  parents =
      held_by ParentKept (λ given. absurd (given refl)) (λ given. parent_first)
        (λ given. parent_second);
}

base_enough : (base : Manifest) → IsBase memory_store-IsQuiet root filled base → base.generation ≤ 3
base_enough base b =
    held_by (λ m. m.generation ≤ 3) (omega arith) (omega arith) (omega arith)
      b.checkpoint.base_commit_id base (base-Filed memory_store-IsQuiet root filled base b)

gc_sweep_ends_example :
    gc_sweep memory_store memory_clock root 3 options filled ≢ Outcome.out_of_fuel
gc_sweep_ends_example =
    gc_sweep_ends memory_store-IsQuiet root filled generation_of 3 options is_chain base_enough

abbrev third_key : Text
third_key = codes "db/commits/c3.json"

third_generation : key_generation (some third_key) ≡ 3
unfolding filled store_put decode_json otsardb.Text.decimal otsardb.Text.cstr otsardb.Text.strtoull
    otsardb.CommitManifest.print_header otsardb.CommitManifest.print_entry
    otsardb.CommitManifest.Encode.print_checksum
third_generation = refl

not-Listed :
    (format : ℕ) (ref : SegmentRef) (key : Text)
    → segment_key root format ref ≢ some key
    → ¬ Listed root format (ref ∷ []) key
not-Listed format ref key ne (Listed.first _ _ _ e) = ne e
not-Listed format ref key ne (Listed.later _ _ _ listed) = no_entry format key listed
  where
    no_entry : (format : ℕ) (key : Text) → ¬ Listed root format [] key
    no_entry format key h = elim h [ ]

abbrev SegmentApart : Manifest → Type 0
SegmentApart m = ¬ Listed root m.format_version m.segments third_key

third-IsApart : IsApart memory_store-IsQuiet root filled generation_of third_key 3
unfolding segment_key root_join
third-IsApart = record {
  commits = λ commit_id e. ap key_generation e ∙ third_generation;
  segments =
      held_by SegmentApart (not-Listed 3 _ third_key (λ e. cc e))
        (not-Listed 3 _ third_key (λ e. cc e)) (not-Listed 3 _ third_key (λ e. cc e));
  lease = λ e. cc e;
}

third_stored : content_of filled third_key ≡ some (print_document third_commit)
unfolding filled store_put
third_stored = refl

gc_sweep_live_example : content_of after third_key ≡ some (print_document third_commit)
unfolding memory_store-IsQuiet
gc_sweep_live_example =
    gc_sweep_live memory_store-IsQuiet root filled generation_of 3 options (deleted_of outcome)
      after third_key (print_document third_commit) 3 is_chain (swept_as outcome outcome_swept)
      third_stored base_enough third-IsApart

-- The same for any object: here the lease.
gc_sweep_spares_example :
    (content_of after (codes "db/lease.json") ≡ content_of filled (codes "db/lease.json"))
    ⊎ ((base : Manifest) × IsBase memory_store-IsQuiet root filled base
        × (content_of after (codes "db/lease.json") ≡ none)
        × Doomed memory_store-IsQuiet root filled base (some (codes "me")) (codes "db/lease.json"))
unfolding memory_store-IsQuiet
gc_sweep_spares_example =
    gc_sweep_spares memory_store-IsQuiet root filled 3 options (deleted_of outcome) after
      (codes "db/lease.json") (swept_as outcome outcome_swept)

-- A checkpoint that has not the hash of the pointer makes the sweep fail.
unfoldable corrupt : Memory
unfolding store_put filled
corrupt = put (codes "db/checkpoints/k") (codes "x") filled

abbrev refusal : Outcome Memory
refusal = gc_sweep memory_store memory_clock root 3 options corrupt

abbrev is_failed : Outcome Memory → Bool
is_failed (Outcome.failed w) = true
is_failed (Outcome.swept deleted w) = false
is_failed Outcome.out_of_fuel = false

failed_as : (o : Outcome Memory) → is_failed o ≡ true → o ≡ Outcome.failed (world_of empty_memory o)
failed_as (Outcome.failed w) h = refl
failed_as (Outcome.swept deleted w) h = absurd (cc h)
failed_as Outcome.out_of_fuel h = absurd (cc h)

refusal_fails : is_failed refusal ≡ true
unfolding gc_sweep corrupt filled store_get otsardb.Text.decimal otsardb.Text.cstr
    otsardb.Text.strtoull otsardb.CommitManifest.print_header otsardb.CommitManifest.print_entry
    otsardb.CommitManifest.Encode.print_checksum
refusal_fails = refl

gc_sweep_fails_example :
    content_of (world_of empty_memory refusal) (codes "db/commits/c1.json")
    ≡ content_of corrupt (codes "db/commits/c1.json")
unfolding memory_store-IsQuiet
gc_sweep_fails_example =
    gc_sweep_fails memory_store-IsQuiet root corrupt 3 options (world_of empty_memory refusal)
      (codes "db/commits/c1.json") (failed_as refusal refusal_fails)
