-- ===== src/ObjectStore/Memory.antt =====
-- An object store in memory that meets the assumptions: each write gets a new tag.
use otsardb.Base.{
  ℕ, zero, suc, ◌≡◌, refl, ap, sym, ◌∙◌, Bool, true, false, Option, none, some, List, [], ◌∷◌, ◌++◌,
  length, get_elem?, ◌≢◌, inl, inr, Bool-cases, if◌then◌else◌, arith, append-nil, append_assoc,
}
use otsardb.Text.{Text, text_eq}
use otsardb.Text.Search.{text_eq_refl, text_eq→eq}
use otsardb.ObjectStore.{
  StoreResult, Object, empty_object, PutOptions, ObjectStore, IsConditional, IsQuiet, store_put,
  store_get, store_delete,
}

-- All contents that were ever written, the index of each object's, and the time of the server.
pub record Memory : Type 0 where
  pub written : List (List ℕ)
  pub objects : Text → Option ℕ
  pub time : ℕ

abbrev pub empty_memory : Memory
empty_memory = record { written = []; objects = λ key. none; time = 100 }

abbrev pub tag_of : ℕ → Text
tag_of n = suc n ∷ []

abbrev object : Memory → ℕ → List ℕ → Object
object m n b = record { bytes = b; etag = some (tag_of n); last_modified_secs = m.time }

-- The index and the content of an object.
abbrev pub find_at : Memory → Option ℕ → Option (ℕ × List ℕ)
find_at m none = none
find_at m (some n) = elim (get_elem? m.written n) [ none ↦ none | some b ↦ some (n, b) ]

abbrev pub find : Memory → Text → Option (ℕ × List ℕ)
find m key = find_at m (m.objects key)

abbrev update : (Text → Option ℕ) → Text → Option ℕ → Text → Option ℕ
update objects key n key' = if text_eq key key' then n else objects key'

-- Whether the conditions of a write hold of the object.
abbrev allowed : PutOptions → Option (ℕ × List ℕ) → Bool
allowed options none = elim options.if_match_etag [ none ↦ true | some t ↦ false ]
allowed options (some (n, b)) =
    if options.if_none_match
    then false
    else elim options.if_match_etag [ none ↦ true | some t ↦ text_eq t (tag_of n) ]

abbrev get_found : Option (ℕ × List ℕ) → Memory → StoreResult × Object × Memory
get_found none m = (StoreResult.not_found, empty_object, m)
get_found (some (n, b)) m = (StoreResult.ok, object m n b, m)

abbrev memory_get : Text → Memory → StoreResult × Object × Memory
memory_get key m = get_found (find m key) m

abbrev write : Text → List ℕ → Memory → Memory
write key b m = record m {
  written = m.written ++ b ∷ [];
  objects = update m.objects key (some (length m.written));
}

abbrev put_if : Bool → Text → List ℕ → Memory → StoreResult × Option Text × Memory
put_if true key b m = (StoreResult.ok, some (tag_of (length m.written)), write key b m)
put_if false key b m = (StoreResult.precondition_failed, none, m)

abbrev memory_put : Text → List ℕ → PutOptions → Memory → StoreResult × Option Text × Memory
memory_put key b options m = put_if (allowed options (find m key)) key b m

abbrev memory_delete : Text → Memory → StoreResult × Memory
memory_delete key m = (StoreResult.ok, record m { objects = update m.objects key none })

abbrev pub memory_store : ObjectStore Memory
memory_store = record {
  get = some memory_get;
  put = some memory_put;
  delete_object = some memory_delete;
  capabilities = 0x3f;
}

abbrev pub memory_clock : Memory → ℕ × Memory
memory_clock m = (m.time, m)

-- The log only grows.
abbrev pub Grows : Memory → Memory → Type 0
Grows m m' = (more : List (List ℕ)) × (m'.written ≡ m.written ++ more)

abbrev NamesIn : Memory → Text → List ℕ → Type 0
NamesIn m t b = (n : ℕ) × (t ≡ tag_of n) × (get_elem? m.written n ≡ some b)

get_elem?-append :
    (xs ys : List (List ℕ)) (n : ℕ) (b : List ℕ)
    → get_elem? xs n ≡ some b
    → get_elem? (xs ++ ys) n ≡ some b
get_elem?-append [] ys n b h = cc
get_elem?-append (x ∷ xs) ys zero b h = h
get_elem?-append (x ∷ xs) ys (suc n) b h = get_elem?-append xs ys n b h

get_elem?-last : (xs : List (List ℕ)) (b : List ℕ) → get_elem? (xs ++ b ∷ []) (length xs) ≡ some b
get_elem?-last [] b = refl
get_elem?-last (x ∷ xs) b = get_elem?-last xs b

abbrev content_at : Option (ℕ × List ℕ) → Option (List ℕ)
content_at none = none
content_at (some (n, b)) = some b

abbrev pub content_of : Memory → Text → Option (List ℕ)
content_of m key = content_at (find m key)

find-write :
    (key : Text) (b : List ℕ) (m : Memory) → find (write key b m) key ≡ some (length m.written, b)
find-write key b m =
    ap (λ q. find_at (write key b m) (if q then some (length m.written) else m.objects key))
      (text_eq_refl key)
    ∙ ap (λ o. elim o [ none ↦ none | some c ↦ some (length m.written, c) ])
        (get_elem?-last m.written b)

put_if_written :
    (go : Bool) (key : Text) (b : List ℕ) (m m' : Memory) (e : Option Text)
    → put_if go key b m ≡ (StoreResult.ok, e, m')
    → (go ≡ true) × (e ≡ some (tag_of (length m.written))) × (m' ≡ write key b m)
put_if_written true key b m m' e h = (refl, sym (ap (λ p. p.1) h), sym (ap (λ p. p.2) h))
put_if_written false key b m m' e h = cc

put_writes_lem :
    (key : Text) (b : List ℕ) (options : PutOptions) (m m' : Memory) (e : Option Text)
    → memory_put key b options m ≡ (StoreResult.ok, e, m')
    → ((t : Text) × (e ≡ some t) × NamesIn m' t b) × (content_of m' key ≡ some b)
put_writes_lem key b options m m' e h =
    let (go, tagged, same) = put_if_written (allowed options (find m key)) key b m m' e h in
    (
      (
        tag_of (length m.written),
        tagged,
        (
          length m.written,
          refl,
          ap (λ x. get_elem? x.written (length m.written)) same ∙ get_elem?-last m.written b,
        ),
      ),
      ap (λ x. content_of x key) same ∙ ap content_at (find-write key b m),
    )

allowed_match :
    (q : Option (ℕ × List ℕ)) (t : Text)
    → allowed (record { if_none_match = false; if_match_etag = some t }) q ≡ true
    → (n : ℕ) × (b : List ℕ) × (q ≡ some (n, b)) × (t ≡ tag_of n)
allowed_match none t h = cc
allowed_match (some (n, b)) t h = (n, b, refl, text_eq→eq t (tag_of n) h)

allowed_create :
    (o : Option (ℕ × List ℕ))
    → allowed (record { if_none_match = true; if_match_etag = none }) o ≡ true
    → content_at o ≡ none
allowed_create none h = refl
allowed_create (some (n, b)) h = cc

get_found_read :
    (q : Option (ℕ × List ℕ)) (m m' : Memory) (o : Object)
    → get_found q m ≡ (StoreResult.ok, o, m')
    → (n : ℕ) × (b : List ℕ) × (q ≡ some (n, b)) × (o ≡ object m n b) × (m' ≡ m)
get_found_read none m m' o h = cc
get_found_read (some (n, b)) m m' o h = (n, b, refl, sym (ap (λ p. p.1) h), sym (ap (λ p. p.2) h))

found :
    (m : Memory) (o : Option ℕ) (n : ℕ) (b : List ℕ)
    → find_at m o ≡ some (n, b)
    → get_elem? m.written n ≡ some b
found m none n b h = cc
found m (some k) n b h = ground arith

put_matches_lem :
    (key : Text) (b : List ℕ) (t : Text) (m m' : Memory) (e : Option Text)
    → memory_put key b (record { if_none_match = false; if_match_etag = some t }) m
      ≡ (StoreResult.ok, e, m')
    → (old : List ℕ) × (content_of m key ≡ some old) × NamesIn m t old
put_matches_lem key b t m m' e h =
    let options : PutOptions = record { if_none_match = false; if_match_etag = some t } in
    let go = (put_if_written (allowed options (find m key)) key b m m' e h).0 in
    let (n, old, at, same) = allowed_match (find m key) t go in
    (old, ap content_at at, (n, same, found m (m.objects key) n old at))

put_creates_lem :
    (key : Text) (b : List ℕ) (m m' : Memory) (e : Option Text)
    → memory_put key b (record { if_none_match = true; if_match_etag = none }) m
      ≡ (StoreResult.ok, e, m')
    → content_of m key ≡ none
put_creates_lem key b m m' e h =
    let options : PutOptions = record { if_none_match = true; if_match_etag = none } in
    allowed_create (find m key) (put_if_written (allowed options (find m key)) key b m m' e h).0

get_reads_lem :
    (key : Text) (m m' : Memory) (o : Object)
    → memory_get key m ≡ (StoreResult.ok, o, m')
    → ((t : Text) × (o.etag ≡ some t) × NamesIn m' t o.bytes) × (content_of m' key ≡ some o.bytes)
get_reads_lem key m m' o h =
    let (n, b, at, read, same) = get_found_read (find m key) m m' o h in
    let bytes : b ≡ o.bytes = sym (ap (λ x. x.bytes) read) in
    (
      (
        tag_of n,
        ap (λ x. x.etag) read,
        (
          n,
          refl,
          ap (λ x. get_elem? x.written n) same ∙ found m (m.objects key) n b at ∙ ap some bytes,
        ),
      ),
      ap (λ x. content_of x key) same ∙ ap content_at at ∙ ap some bytes,
    )

put_if-Grows : (go : Bool) (key : Text) (b : List ℕ) (m : Memory) → Grows m (put_if go key b m).2
put_if-Grows true key b m = (b ∷ [], refl)
put_if-Grows false key b m = ([], sym (append-nil m.written))

get_found-Grows : (q : Option (ℕ × List ℕ)) (m : Memory) → Grows m (get_found q m).2
get_found-Grows none m = ([], sym (append-nil m.written))
get_found-Grows (some (n, b)) m = ([], sym (append-nil m.written))

Grows-trans : (u v w : Memory) → Grows u v → Grows v w → Grows u w
Grows-trans u v w (xs, e) (ys, e') =
    (xs ++ ys, e' ∙ ap (λ l. l ++ ys) e ∙ append_assoc u.written xs ys)

names_one_lem : (m : Memory) (t : Text) (b c : List ℕ) → NamesIn m t b → NamesIn m t c → b ≡ c
names_one_lem m t b c (n, e, h) (k, e', h') =
    let same : n ≡ k = cc (sym e ∙ e') in cc (sym h ∙ ap (get_elem? m.written) same ∙ h')

names_kept_lem :
    (m m' : Memory) (t : Text) (b : List ℕ) → Grows m m' → NamesIn m t b → NamesIn m' t b
names_kept_lem m m' t b (more, e) (n, tagged, h) =
    (n, tagged, ap (λ l. get_elem? l n) e ∙ get_elem?-append m.written more n b h)

pub memory_store-IsConditional : IsConditional memory_store memory_clock
unfolding store_get store_put store_delete
memory_store-IsConditional = record {
  Later = Grows;
  later_trans = Grows-trans;
  Names = NamesIn;
  names_one = names_one_lem;
  names_size = λ m t b n. omega (arith, ap (λ l. length l) n.1);
  names_given = λ m t b n. omega (arith, ap (λ l. length l) n.1);
  names_kept = names_kept_lem;
  content = content_of;
  clock_later = λ m. ([], sym (append-nil m.written));
  get_later = λ key m. get_found-Grows (find m key) m;
  put_later = λ key b options m. put_if-Grows (allowed options (find m key)) key b m;
  delete_later = λ key m. ([], sym (append-nil m.written));
  put_writes = put_writes_lem;
  put_matches = put_matches_lem;
  put_creates = put_creates_lem;
  get_reads = get_reads_lem;
}

content_at_elem :
    (q : Option (List ℕ)) (n : ℕ) (b : List ℕ)
    → content_at (elim q [ none ↦ none | some c ↦ some (n, c) ]) ≡ some b
    → q ≡ some b
content_at_elem none n b h = absurd (cc h)
content_at_elem (some c) n b h = h

-- What an object holds was written at some time.
content_at_found :
    (m : Memory) (o : Option ℕ) (b : List ℕ)
    → content_at (find_at m o) ≡ some b
    → (n : ℕ) × (get_elem? m.written n ≡ some b)
content_at_found m none b h = absurd (cc h)
content_at_found m (some n) b h = (n, content_at_elem (get_elem? m.written n) n b h)

pub content_found :
    (m : Memory) (key : Text) (b : List ℕ)
    → content_of m key ≡ some b
    → (n : ℕ) × (get_elem? m.written n ≡ some b)
content_found m key b h = content_at_found m (m.objects key) b h

-- Nobody else acts on the memory.
pub get_found_keeps : (q : Option (ℕ × List ℕ)) (m : Memory) → (get_found q m).2 ≡ m
get_found_keeps none m = refl
get_found_keeps (some (n, b)) m = refl

pub get_found_ok :
    (q : Option (ℕ × List ℕ)) (m : Memory)
    → (get_found q m).0 ≡ StoreResult.ok
    → content_at q ≡ some (get_found q m).1.bytes
get_found_ok none m h = absurd (cc h)
get_found_ok (some (n, b)) m h = refl

pub memory_delete_keeps :
    (key : Text) (m : Memory) (k : Text)
    → k ≢ key
    → content_of (memory_delete key m).1 k ≡ content_of m k
memory_delete_keeps key m k ne = elim (Bool-cases (text_eq key k)) [
  | inl same ↦ absurd (ne (sym (text_eq→eq key k same)))
  | inr other ↦ ap (λ b. content_at (find_at m (if b then none else m.objects k))) other
]

pub memory_delete_removes :
    (key : Text) (m : Memory) → content_of (memory_delete key m).1 key ≡ none
memory_delete_removes key m =
    ap (λ b. content_at (find_at m (if b then none else m.objects key))) (text_eq_refl key)

unfoldable pub memory_store-IsQuiet : IsQuiet memory_store memory_clock
unfolding store_get store_delete
memory_store-IsQuiet = record {
  content = content_of;
  clock_keeps = λ m k. refl;
  get_keeps = λ key m k. ap (λ x. content_of x k) (get_found_keeps (find m key) m);
  get_reads = λ key m h. get_found_ok (find m key) m h;
  delete_keeps = memory_delete_keeps;
  delete_removes = λ key m. inr (memory_delete_removes key m);
}
