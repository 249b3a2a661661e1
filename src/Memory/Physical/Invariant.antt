-- ===== src/Memory/Physical/Invariant.antt =====
-- The invariant of the page bitmap of kernel/memory/physical_mm.c, and the two writes of a bit.
use os_ax.Base.{
  ℕ, ◌+◌, ◌*◌, ◌/◌, ◌^◌, ◌≤◌, ◌<◌, ◌≡◌, refl, sym, true, false, arith, length, length-set,
  ne→==_false, ==_refl,
}
use os_ax.Base.Count.{count, count-lt, count-le, count_flip}
use os_ax.Memory.Physical.{Pmm, set_page, clear_page}
use os_ax.Memory.Physical.View.{page_used, page_used-set_page, page_used-clear_page}

-- Every page has its bit, page numbers and addresses fit in 32 bits, and the counter counts.
pub record IsValid (s : Pmm) : Type 0 where
  pub covered : s.total_pages ≤ 32 * length s.bitmap
  pub small : s.total_pages ≤ 2 ^ 20
  pub counted : s.used_pages ≡ count (page_used s) s.total_pages

module _ {s : Pmm} (i : ℕ) (v : IsValid s) (below : i < s.total_pages) where
  pub inside : i / 32 < length s.bitmap
  inside = omega (arith, v.covered)

  -- Marking a free page keeps the invariant.
  pub set_page-IsValid : page_used s i ≡ false → IsValid (set_page s i)
  unfolding set_page
  set_page-IsValid free = record {
    covered = rw length-set v.covered;
    small = v.small;
    counted =
        omega (arith, flip, v.counted, v.small, count-lt (page_used s) s.total_pages i below free);
  }
    where
      flip : count (page_used (set_page s i)) s.total_pages ≡ count (page_used s) s.total_pages + 1
      flip =
          count_flip (page_used s) (page_used (set_page s i)) s.total_pages i below free
            (rw (page_used-set_page s i i inside, ==_refl))
            (λ j ne. sym (rw (page_used-set_page s i j inside, ne→==_false i j (λ e. ne (sym e)))))

  -- Clearing a page in use keeps the invariant.
  pub clear_page-IsValid : page_used s i ≡ true → IsValid (clear_page s i)
  unfolding clear_page
  clear_page-IsValid used = record {
    covered = rw length-set v.covered;
    small = v.small;
    counted = omega (arith, flip, v.counted, v.small, count-le (page_used s) s.total_pages);
  }
    where
      flip :
          count (page_used s) s.total_pages ≡ count (page_used (clear_page s i)) s.total_pages + 1
      flip =
          count_flip (page_used (clear_page s i)) (page_used s) s.total_pages i below
            (rw (page_used-clear_page s i i inside, ==_refl)) used
            (λ j ne. rw (page_used-clear_page s i j inside, ne→==_false i j (λ e. ne (sym e))))

pub total_pages-set_page : (s : Pmm) (i : ℕ) → (set_page s i).total_pages ≡ s.total_pages
unfolding set_page
total_pages-set_page s i = refl

pub total_pages-clear_page : (s : Pmm) (i : ℕ) → (clear_page s i).total_pages ≡ s.total_pages
unfolding clear_page
total_pages-clear_page s i = refl
