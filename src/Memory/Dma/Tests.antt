-- ===== src/Memory/Dma/Tests.antt =====
-- kernel/memory/dma.c with one buffer handed out, and its theorems there.
use os_ax.Base.{◌+◌, ◌-◌, ◌^◌, ◌≡◌, refl, true, [], ◌∷◌, arith}
use os_ax.Base.Words.{u32, page_align_up}
use os_ax.Memory.Dma.{DmaPool, dma_start, dma_end, dma_init, dma_alloc, dma_free}
use os_ax.Memory.Dma.Tiling.{Tiles, InUse, IsValid}
use os_ax.Memory.Dma.Take.{Answer, dma_alloc_lem}
use os_ax.Memory.Dma.Give.{Given, dma_free_lem}

-- Two pages are in use at the start.
abbrev one_buffer : DmaPool
one_buffer = record {
  dma_free_list =
      record { address = 0x10000; size = 0x2000; in_use = 1 }
      ∷ record { address = 0x12000; size = 0x8E000; in_use = 0 }
      ∷ [];
  dma_total_size = 0x90000;
  dma_used_size = 0x2000;
}

one_buffer-IsValid : IsValid one_buffer
one_buffer-IsValid =
    Tiles.cons refl (omega arith) refl (Tiles.cons refl (omega arith) refl (Tiles.nil refl))

first_alloc :
    dma_alloc 8000 true
      (dma_init true (record { dma_free_list = []; dma_total_size = 0; dma_used_size = 0 }))
    ≡ (0x10000, one_buffer)
unfolding dma_alloc dma_init page_align_up
first_alloc = refl

first_free :
    (dma_free 0x10000 one_buffer).dma_free_list
    ≡ record { address = 0x10000; size = 0x90000; in_use = 0 } ∷ []
unfolding dma_free
first_free = refl

dma_alloc_lem_example : Answer 100 one_buffer (dma_alloc 100 true one_buffer)
dma_alloc_lem_example =
    dma_alloc_lem 100 true one_buffer one_buffer-IsValid (omega arith) (omega arith)

dma_free_lem_example :
    Given dma_end dma_start 0x10000 one_buffer.dma_free_list
      (dma_free 0x10000 one_buffer).dma_free_list
    × ((dma_free 0x10000 one_buffer).dma_used_size ≡ u32 (0x2000 + 2 ^ 32 - 0x2000))
dma_free_lem_example =
    dma_free_lem 0x10000 0x2000 one_buffer one_buffer-IsValid
      (InUse.here refl refl (λ e. absurd (omega arith)))
