-- ===== src/Segment/Pages/Order.antt =====
-- src/storage/segment.c: the blocks of format 3 stand in the order of their pages.
use otsardb.Base.{
  ℕ, ◌<◌, ◌≡◌, ◌≢◌, refl, ap, ◌∙◌, true, ◌||◌, some, List, [], ◌∷◌, ltb, ◌==◌, All, Bool-cases, inl,
  inr, arith,
}
use otsardb.WalBatch
use otsardb.Segment.Pages.{PageRef, collect, insert_ref, sort_refs}
use otsardb.Segment.Pages.Newest.{page_of, IsNewest, has, Others, Distinct, collect-Collected}

abbrev pub Ascending : List PageRef → Type 0
Ascending [] = Unit {0}
Ascending (r ∷ refs) = All (λ s. r.page_no < s.page_no) refs × Ascending refs

insert_ref-All :
    (P : PageRef → Type 0) (r : PageRef) (refs : List PageRef)
    → P r
    → All P refs
    → All P (insert_ref r refs)
unfolding insert_ref
insert_ref-All P r [] p h = (p, tt)
insert_ref-All P r (s ∷ refs) p h =
    let rest = insert_ref-All P r refs p h.1 in
    elim (Bool-cases (ltb r.page_no s.page_no)) [
      | inl less ↦ rw less (p, h)
      | inr more ↦ rw more (h.0, rest)
    ]

sort_refs-All : (P : PageRef → Type 0) (refs : List PageRef) → All P refs → All P (sort_refs refs)
unfolding sort_refs
sort_refs-All P [] h = h
sort_refs-All P (r ∷ refs) h = insert_ref-All P r (sort_refs refs) h.0 (sort_refs-All P refs h.1)

has-insert_ref :
    (q : ℕ) (r : PageRef) (refs : List PageRef)
    → has (insert_ref r refs) q ≡ (r.page_no == q || has refs q)
unfolding insert_ref
has-insert_ref q r [] = refl
has-insert_ref q r (s ∷ refs) = ground (arith, has-insert_ref q r refs)

has-sort_refs : (q : ℕ) (refs : List PageRef) → has (sort_refs refs) q ≡ has refs q
unfolding sort_refs
has-sort_refs q [] = refl
has-sort_refs q (r ∷ refs) =
    has-insert_ref q r (sort_refs refs) ∙ ap (λ b. r.page_no == q || b) (has-sort_refs q refs)

above :
    (p q : ℕ) (refs : List PageRef)
    → p < q
    → All (λ s. q < s.page_no) refs
    → All (λ s. p < s.page_no) refs
above p q [] less h = tt
above p q (s ∷ refs) less h = (omega (arith, h.0), above p q refs less h.1)

insert_ref-Ascending :
    (r : PageRef) (refs : List PageRef)
    → Others r.page_no refs
    → Ascending refs
    → Ascending (insert_ref r refs)
unfolding insert_ref
insert_ref-Ascending r [] others h = (tt, tt)
insert_ref-Ascending r (s ∷ refs) others h =
    let rest = insert_ref-Ascending r refs others.1 h.1 in
    elim (Bool-cases (ltb r.page_no s.page_no)) [
      | inl less ↦
          let l : r.page_no < s.page_no = ground arith in
          rw less ((l, above r.page_no s.page_no refs l h.0), h)
      | inr more ↦
          let differs = others.0 in
          let m : s.page_no < r.page_no = ground arith in
          rw more (insert_ref-All (λ t. s.page_no < t.page_no) r refs m h.0, rest)
    ]

sort_refs-Ascending : (refs : List PageRef) → Distinct refs → Ascending (sort_refs refs)
unfolding sort_refs
sort_refs-Ascending [] h = tt
sort_refs-Ascending (r ∷ refs) h =
    insert_ref-Ascending r (sort_refs refs) (sort_refs-All (λ s. s.page_no ≢ r.page_no) refs h.0)
      (sort_refs-Ascending refs h.1)

-- The references that the encoder has after the loop over the frames of a batch and the sort: each
-- names the last frame of its page, every frame's page has one, and their pages ascend strictly.
pub sort_refs-collect :
    (batch : WalBatch.View) (count : ℕ) (found : List PageRef)
    → collect batch count 0 [] ≡ some found
    → All (IsNewest batch count) (sort_refs found)
      × ((j : ℕ) → j < count → has (sort_refs found) (page_of batch j) ≡ true)
      × Ascending (sort_refs found)
sort_refs-collect batch count found h =
    let c = collect-Collected batch count found h in
    (
      sort_refs-All (IsNewest batch count) found c.newest,
      λ j before. has-sort_refs (page_of batch j) found ∙ c.covers j before,
      sort_refs-Ascending found c.distinct,
    )
