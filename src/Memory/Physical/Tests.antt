-- ===== src/Memory/Physical/Tests.antt =====
-- kernel/memory/physical_mm.c at small inputs, and its theorems there.
use os_ax.Base.{ℕ, ◌+◌, ◌/◌, ◌<◌, ◌≡◌, refl, [], ◌∷◌, arith, replicate, ◌||◌, ◌&&◌, ltb, leb}
use os_ax.Base.Bits.{bit}
use os_ax.Base.Count.{count}
use os_ax.Memory.Physical.{
  Pmm, page_bit, alloc_page_from, alloc_page, consecutive_free, alloc_pages_from, alloc_pages,
  free_page, physical_mm_init, dma_start_page, dma_end_page,
}
use os_ax.Memory.Physical.View.{page_used}
use os_ax.Memory.Physical.Invariant.{IsValid}
use os_ax.Memory.Physical.Alloc.{Result, alloc_page_lem, alloc_pages_lem}
use os_ax.Memory.Physical.Free.{Released, Same, free_page_lem, free_page-alloc_page}
use os_ax.Memory.Physical.Init.{Bootable, physical_mm_init_lem}

-- Forty pages, of which the first three and page 5 are in use.
abbrev forty : Pmm
forty = record {
  bitmap = 0x27 ∷ 0 ∷ [];
  bitmap_base = 0x2000;
  total_pages = 40;
  used_pages = 4;
  bitmap_size = 2;
  memory_size_mb = 0;
  memory_size_bytes = 0;
}

forty-IsValid : IsValid forty
unfolding count page_used bit
forty-IsValid = record { covered = omega arith; small = omega arith; counted = refl }

alloc_three : (alloc_page forty).0 ≡ 0x3000
unfolding alloc_page alloc_page_from page_bit
alloc_three = refl

alloc_run : (alloc_pages 3 forty).0 ≡ 0x6000
unfolding alloc_pages alloc_pages_from alloc_page alloc_page_from page_bit consecutive_free
alloc_run = refl

alloc_page_lem_example : Result forty 1 (alloc_page forty)
alloc_page_lem_example = alloc_page_lem forty-IsValid

alloc_pages_lem_example : Result forty 3 (alloc_pages 3 forty)
alloc_pages_lem_example = alloc_pages_lem 3 forty-IsValid (omega arith)

free_page_lem_example : Released forty 0x5000 (free_page 0x5000 forty)
free_page_lem_example = free_page_lem 0x5000 (omega arith) forty-IsValid

free_page-alloc_page_example : Same forty (free_page (alloc_page forty).0 (alloc_page forty).1)
free_page-alloc_page_example =
    free_page-alloc_page forty-IsValid (λ e. absurd (omega (arith, alloc_three)))

-- A machine of 16 MB whose kernel image ends at 1.5 MB.
sixteen : Bootable 0x180000 16 (replicate 128 7)
sixteen = record { memory = omega arith; storage = refl; room = omega arith }

physical_mm_init_lem_example :
    IsValid (physical_mm_init 0x180000 16 (replicate 128 7))
    × ((j : ℕ)
        → j < 4096
        → page_used (physical_mm_init 0x180000 16 (replicate 128 7)) j
          ≡ (ltb j ((1572864 + 512 + 4095) / 4096) || leb dma_start_page j && ltb j dma_end_page))
physical_mm_init_lem_example = physical_mm_init_lem sixteen
