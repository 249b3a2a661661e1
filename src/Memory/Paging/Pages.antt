-- ===== src/Memory/Paging/Pages.antt =====
-- The page that `alloc_page` of kernel/memory/physical_mm.c finds while not all are in use.
use os_ax.Base.{
  ℕ, zero, suc, ◌+◌, ◌*◌, ◌^◌, ◌<◌, ◌≡◌, refl, sym, ap, ◌∙◌, inl, inr, Bool, true, false, arith,
  Bool-cases,
}
use os_ax.Base.Words.{page_size}
use os_ax.Base.Count.{count, count_flip}
use os_ax.Memory.Physical.{Pmm, alloc_page}
use os_ax.Memory.Physical.View.{page_used}
use os_ax.Memory.Physical.Invariant.{IsValid}
use os_ax.Memory.Physical.Alloc.{Free, Result, got, failed, alloc_page_lem}

-- One page is taken, a free one.
pub record TakesPage (s t : Pmm) (page : ℕ) : Type 0 where
  pub number : ℕ
  pub at : page ≡ number * page_size
  pub was_free : page_used s number ≡ false
  pub small : number < 2 ^ 20
  pub now_used : page_used t number ≡ true
  pub kept : (j : ℕ) → page_used s j ≡ true → page_used t j ≡ true
  pub one_more : t.used_pages ≡ s.used_pages + 1
  pub same_total : t.total_pages ≡ s.total_pages
  pub valid : IsValid t

not-Free : (s : Pmm) (k : ℕ) → ¬ (Free s k (k + 1)) → page_used s k ≡ true
not-Free s k h = elim (Bool-cases (page_used s k)) [
  | inl used ↦ used
  | inr free ↦ absurd (h (λ j lo hi. let e : j ≡ k = omega arith in rw e free))
]

count_all : (p : ℕ → Bool) (n : ℕ) → ((j : ℕ) → j < n → p j ≡ true) → count p n ≡ n
unfolding count
count_all p zero all = refl
count_all p (suc n) all =
    ground (arith, all n (omega arith), count_all p n (λ j h. all j (omega arith)))

taken :
    {s : Pmm} {r : ℕ × Pmm}
    → IsValid s
    → s.used_pages < s.total_pages
    → Result s 1 r
    → TakesPage s r.1 r.0
taken {s} v room (got i t takes first) = record {
  number = i;
  at = refl;
  was_free = takes.were_free i (omega arith) (omega arith);
  small = omega (arith, takes.in_range, v.small);
  now_used = takes.view i ∙ ground arith;
  kept = λ j used. takes.view j ∙ ground arith;
  one_more =
      omega
        (arith, flip, v.counted, takes.valid.counted, ap (count (page_used t)) takes.same_total);
  same_total = takes.same_total;
  valid = takes.valid;
}
  where
    flip : count (page_used t) s.total_pages ≡ count (page_used s) s.total_pages + 1
    flip =
        count_flip (page_used s) (page_used t) s.total_pages i (omega (arith, takes.in_range))
          (takes.were_free i (omega arith) (omega arith)) (takes.view i ∙ ground arith)
          (λ j ne. sym (takes.view j ∙ ground arith))
taken {s} v room (failed none_free) = absurd (
    omega (
      arith,
      v.counted,
      room,
      count_all (page_used s) s.total_pages (λ j h. not-Free s j (none_free j (omega arith))),
    ))

pub alloc_page-TakesPage :
    {s : Pmm}
    → IsValid s
    → s.used_pages < s.total_pages
    → TakesPage s (alloc_page s).1 (alloc_page s).0
alloc_page-TakesPage v room = taken v room (alloc_page_lem v)
