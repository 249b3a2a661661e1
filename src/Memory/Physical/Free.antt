-- ===== src/Memory/Physical/Free.antt =====
-- `free_page` of kernel/memory/physical_mm.c, and the figures that the file reports.
use os_ax.Base.{
  ℕ, ◌+◌, subst, ◌*◌, ◌/◌, ◌^◌, ◌<◌, ◌≡◌, refl, sym, ap, ◌∙◌, ◌≢◌, false, inl, inr, arith, ◌==◌,
  leb, if◌then◌else◌, Bool-cases, not-leb→lt,
}
use os_ax.Base.Count.{count, count-le, count_ext}
use os_ax.Base.Words.{u32, page_size}
use os_ax.Memory.Physical.{
  Pmm, page_bit, clear_page, free_page, alloc_page, get_free_memory, get_used_memory,
}
use os_ax.Memory.Physical.View.{page_used, page_bit-page_used, page_used-clear_page}
use os_ax.Memory.Physical.Invariant.{IsValid, inside, clear_page-IsValid, total_pages-clear_page}
use os_ax.Memory.Physical.Alloc.{Result, got, failed, alloc_page_lem}

-- `t` is `s` less the page at address `page`; an address past the last page changes nothing.
pub record Released (s : Pmm) (page : ℕ) (t : Pmm) : Type 0 where
  pub view :
      (j : ℕ)
      → j < s.total_pages
      → page_used t j ≡ (if page / page_size == j then false else page_used s j)
  pub same_total : t.total_pages ≡ s.total_pages
  pub valid : IsValid t

same_used : (s : Pmm) (i j : ℕ) → i ≡ j → page_used s i ≡ page_used s j
same_used s i j e = ap (page_used s) e

-- In a valid state free_page of an address below 2 ^ 44 frees the page that holds it, in use or
-- not, and no other, and nothing where the address lies behind the last page; it keeps the number
-- of pages and the invariant.
pub free_page_lem :
    {s : Pmm} (page : ℕ) → page < 2 ^ 44 → IsValid s → Released s page (free_page page s)
unfolding free_page
free_page_lem {s} page low v =
    let num = page / page_size in
    let number : u32 (page / page_size) ≡ num = omega arith in
    subst
      (λ (k : ℕ).
        Released s page
          (if leb s.total_pages k then s else if page_bit s k == 0 then s else clear_page s k))
      (sym number)
      (elim (Bool-cases (leb s.total_pages num)) [
        | inl beyond ↦
            rw beyond (record { view = λ j h. ground arith; same_total = refl; valid = v })
        | inr below ↦ rw below (elim (Bool-cases (page_bit s num == 0)) [
          | inl free ↦ rw free (record {
            view = λ j h. ground (arith, page_bit-page_used s num, same_used s num j);
            same_total = refl;
            valid = v;
          })
          | inr used ↦ rw used (record {
            view = λ j h. page_used-clear_page s num j (inside num v (not-leb→lt _ _ below));
            same_total = total_pages-clear_page s num;
            valid =
                clear_page-IsValid num v (not-leb→lt _ _ below)
                  (ground (arith, page_bit-page_used s num));
          })
        ])
      ])

-- `t` shows the same pages in use as `s`, and counts them alike.
pub record Same (s t : Pmm) : Type 0 where
  pub view : (j : ℕ) → j < s.total_pages → page_used t j ≡ page_used s j
  pub total : t.total_pages ≡ s.total_pages
  pub used : t.used_pages ≡ s.used_pages

Same-of_view :
    {s t : Pmm}
    → IsValid s
    → IsValid t
    → t.total_pages ≡ s.total_pages
    → ((j : ℕ) → j < s.total_pages → page_used t j ≡ page_used s j)
    → Same s t
Same-of_view {s} {t} v w total view = record {
  view = view;
  total = total;
  used =
      w.counted
      ∙ ap (count (page_used t)) total
      ∙ count_ext (page_used t) (page_used s) s.total_pages view
      ∙ sym v.counted;
}

Result-free :
    (s : Pmm) (r : ℕ × Pmm) → IsValid s → Result s 1 r → r.0 ≢ 0 → Same s (free_page r.0 r.1)
Result-free s r v (got i t takes first) ne =
    let freed =
      free_page_lem (i * page_size) (omega (arith, takes.in_range, v.small)) takes.valid in
    let num : i * page_size / page_size ≡ i = omega (arith, takes.in_range, v.small) in
    Same-of_view v freed.valid (freed.same_total ∙ takes.same_total)
      (λ j h. ground (arith, freed.view j, num, takes.view j, takes.same_total, takes.were_free j))
Result-free s r v (failed none_free) ne = absurd (ne refl)

-- Giving back the page that `alloc_page` returned restores the pages in use and the counter.
pub free_page-alloc_page :
    {s : Pmm}
    → IsValid s
    → (alloc_page s).0 ≢ 0
    → Same s (free_page (alloc_page s).0 (alloc_page s).1)
free_page-alloc_page {s} v ne = Result-free s (alloc_page s) v (alloc_page_lem v) ne

-- Below 4 GB the free and the used bytes reported make up the memory that the bitmap covers.
pub get_free_memory-get_used_memory :
    {s : Pmm}
    → IsValid s
    → s.total_pages < 2 ^ 20
    → get_free_memory s + get_used_memory s ≡ s.total_pages * page_size
unfolding get_free_memory get_used_memory
get_free_memory-get_used_memory {s} v h =
    omega (arith, v.counted, count-le (page_used s) s.total_pages)
