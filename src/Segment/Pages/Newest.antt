-- ===== src/Segment/Pages/Newest.antt =====
-- src/storage/segment.c: the encoder of format 3 keeps the newest frame of each page.
use otsardb.Base.{
  ℕ, zero, suc, ◌+◌, ◌*◌, ◌<◌, ◌≡◌, ◌≢◌, refl, ap, sym, ◌∙◌, subst, Bool, true, false, ◌||◌, some,
  List, [], ◌∷◌, ltb, ◌==◌, drop, All, Bool-cases, Option-cases, inl, inr, arith,
}
use otsardb.Bytes.{get_u32_le}
use otsardb.WalBatch
use otsardb.WalBatch.{record_size}
use otsardb.Segment.Pages.{PageRef, note_page, collect}

-- The page of frame `i` as it stands in the batch.
abbrev pub page_of : WalBatch.View → ℕ → ℕ
page_of batch i = get_u32_le (drop (32 + i * record_size batch.page_size) batch.bytes)

-- Of the first `n` frames of a batch, the reference names the last of its page.
pub record IsNewest (batch : WalBatch.View) (n : ℕ) (r : PageRef) : Type 0 where
  pub within : r.last_frame_index < n
  pub named : page_of batch r.last_frame_index ≡ r.page_no
  pub given : r.page_no ≢ 0
  pub newest : (j : ℕ) → r.last_frame_index < j → j < n → page_of batch j ≢ r.page_no

abbrev pub has : List PageRef → ℕ → Bool
has [] page_no = false
has (r ∷ refs) page_no = r.page_no == page_no || has refs page_no

abbrev pub Others : ℕ → List PageRef → Type 0
Others page_no = All (λ s. s.page_no ≢ page_no)

abbrev pub Distinct : List PageRef → Type 0
Distinct [] = Unit {0}
Distinct (r ∷ refs) = Others r.page_no refs × Distinct refs

module _ (batch : WalBatch.View) where
  kept :
      (n : ℕ) (r : PageRef)
      → IsNewest batch n r
      → page_of batch n ≢ r.page_no
      → IsNewest batch (n + 1) r
  kept n r is other = record {
    within = omega (arith, is.within);
    named = is.named;
    given = is.given;
    newest = λ j after before. elim (Bool-cases (ltb j n)) [
      | inl earlier ↦ is.newest j after (ground arith)
      | inr last ↦
          let same : j ≡ n = ground arith in
          subst (λ i. page_of batch i ≢ r.page_no) (sym same) other
    ];
  }

  noted :
      (n : ℕ) (r : PageRef)
      → r.page_no ≡ page_of batch n
      → page_of batch n ≢ 0
      → IsNewest batch (n + 1) (record r { last_frame_index = n })
  noted n r same given' = record {
    within = omega arith;
    named = sym same;
    given = λ z. given' (sym same ∙ z);
    newest = λ j after before. absurd (omega arith);
  }

  kept_all :
      (n p : ℕ) (refs : List PageRef)
      → page_of batch n ≡ p
      → Others p refs
      → All (IsNewest batch n) refs
      → All (IsNewest batch (n + 1)) refs
  kept_all n p [] e others h = tt
  kept_all n p (r ∷ refs) e others h =
      (kept n r h.0 (λ z. others.0 (sym z ∙ e)), kept_all n p refs e others.1 h.1)

  note_page-IsNewest :
      (n : ℕ) (refs : List PageRef)
      → page_of batch n ≢ 0
      → Distinct refs
      → All (IsNewest batch n) refs
      → All (IsNewest batch (n + 1)) (note_page refs (page_of batch n) n)
  unfolding note_page
  note_page-IsNewest n [] given' d h =
      (noted n (record { page_no = page_of batch n; last_frame_index = n }) refl given', tt)
  note_page-IsNewest n (r ∷ refs) given' d h =
      let rest = note_page-IsNewest n refs given' d.1 h.1 in
      elim (Bool-cases (r.page_no == page_of batch n)) [
        | inl same ↦
            let e : r.page_no ≡ page_of batch n = ground arith in
            rw same (noted n r e given', kept_all n r.page_no refs (sym e) d.0 h.1)
        | inr other ↦ rw other (kept n r h.0 (ground arith), rest)
      ]

note_page-Others :
    (q p i : ℕ) (refs : List PageRef) → p ≢ q → Others q refs → Others q (note_page refs p i)
unfolding note_page
note_page-Others q p i [] other h = (other, tt)
note_page-Others q p i (r ∷ refs) other h =
    let rest = note_page-Others q p i refs other h.1 in
    elim (Bool-cases (r.page_no == p)) [
      | inl same ↦ rw same (h.0, h.1)
      | inr differs ↦ rw differs (h.0, rest)
    ]

note_page-Distinct : (p i : ℕ) (refs : List PageRef) → Distinct refs → Distinct (note_page refs p i)
unfolding note_page
note_page-Distinct p i [] h = (tt, tt)
note_page-Distinct p i (r ∷ refs) h =
    let rest = note_page-Distinct p i refs h.1 in
    elim (Bool-cases (r.page_no == p)) [
      | inl same ↦ rw same (h.0, h.1)
      | inr differs ↦ rw differs (note_page-Others r.page_no p i refs (ground arith) h.0, rest)
    ]

has-note_page : (p i : ℕ) (refs : List PageRef) → has (note_page refs p i) p ≡ true
unfolding note_page
has-note_page p i [] = ground arith
has-note_page p i (r ∷ refs) = ground (arith, has-note_page p i refs)

has-note_page_old :
    (p i q : ℕ) (refs : List PageRef) → has refs q ≡ true → has (note_page refs p i) q ≡ true
unfolding note_page
has-note_page_old p i q [] h = absurd (cc h)
has-note_page_old p i q (r ∷ refs) h = ground (arith, has-note_page_old p i q refs)

-- What the references say of the first `n` frames.
pub record Collected (batch : WalBatch.View) (n : ℕ) (refs : List PageRef) : Type 0 where
  pub newest : All (IsNewest batch n) refs
  pub distinct : Distinct refs
  pub covers : (j : ℕ) → j < n → has refs (page_of batch j) ≡ true

frame_named :
    (batch : WalBatch.View) (i : ℕ) (f : ℕ × List ℕ)
    → WalBatch.frame batch i ≡ some f
    → (f.0 ≡ page_of batch i) × (page_of batch i ≢ 0)
unfolding WalBatch.frame
frame_named batch i f h = (ground arith, ground arith)

one_more :
    (batch : WalBatch.View) (n : ℕ) (refs : List PageRef)
    → page_of batch n ≢ 0
    → Collected batch n refs
    → Collected batch (n + 1) (note_page refs (page_of batch n) n)
one_more batch n refs given c = record {
  newest = note_page-IsNewest batch n refs given c.distinct c.newest;
  distinct = note_page-Distinct (page_of batch n) n refs c.distinct;
  covers = λ j before. elim (Bool-cases (ltb j n)) [
    | inl earlier ↦
        has-note_page_old (page_of batch n) n (page_of batch j) refs (c.covers j (ground arith))
    | inr last ↦
        let same : j ≡ n = ground arith in
        subst (λ i. has (note_page refs (page_of batch n) n) (page_of batch i) ≡ true) (sym same)
          (has-note_page (page_of batch n) n refs)
  ];
}

collect_from :
    (batch : WalBatch.View) (left n : ℕ) (refs found : List PageRef)
    → Collected batch n refs
    → collect batch left n refs ≡ some found
    → Collected batch (n + left) found
unfolding collect
collect_from batch zero n refs found c h =
    let same : refs ≡ found = cc h in
    subst (λ k. Collected batch k found) (omega arith) (subst (Collected batch n) same c)
collect_from batch (suc left) n refs found c h = elim (Option-cases (WalBatch.frame batch n)) [
  | inl missing ↦ absurd (cc (rw missing at h))
  | inr (f, is) ↦
      let (named, given) = frame_named batch n f is in
      let next : collect batch left (n + 1) (note_page refs (page_of batch n) n) ≡ some found =
        ap (λ p. collect batch left (n + 1) (note_page refs p n)) (sym named) ∙ rw is at h in
      subst (λ k. Collected batch k found) (omega arith)
        (collect_from batch left (n + 1) (note_page refs (page_of batch n) n) found
          (one_more batch n refs given c) next)
]

pub collect-Collected :
    (batch : WalBatch.View) (count : ℕ) (found : List PageRef)
    → collect batch count 0 [] ≡ some found
    → Collected batch count found
collect-Collected batch count found h =
    subst (λ n. Collected batch n found) (omega arith)
      (collect_from batch count 0 [] found
        (record { newest = tt; distinct = tt; covers = λ j before. absurd (omega arith) }) h)
