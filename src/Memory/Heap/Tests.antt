-- ===== src/Memory/Heap/Tests.antt =====
-- kernel/memory/heap.c at a small heap, and its theorems there.
use os_ax.Base.{ℕ, ◌+◌, ◌-◌, ◌^◌, ◌≡◌, refl, none, some, List, [], ◌∷◌, ◌++◌, arith}
use os_ax.Base.Outcome.{done}
use os_ax.Memory.Heap.{Cells, Heap, PageSource, header, update, align8, kfree}
use os_ax.Memory.Heap.Requests.{kmalloc, heap_init}
use os_ax.Memory.Heap.Slots.{Slot, used_slot, free_slot, request, place, give_back}
use os_ax.Memory.Heap.Chain.{block_at}
use os_ax.Memory.Heap.Client.{
  IsHeap, Allocated, kmalloc_lem, kmalloc_out_of_memory, kfree_lem, kmalloc-heap_init,
}

-- No pages to be had.
abbrev empty_handed : PageSource
empty_handed = record {
  State = ℕ;
  alloc_pages = λ n st. (0, st);
  kmalloc_virtual = λ n st. (0, st);
}

-- Pages from a fixed address, once.
abbrev at_two_mb : PageSource
at_two_mb = record {
  State = ℕ;
  alloc_pages = λ n st. (0x200000, st + n);
  kmalloc_virtual = λ n st. (0, st);
}

abbrev slots : List Slot
slots = used_slot 40 ∷ free_slot 200 ∷ used_slot 8 ∷ []

abbrev cells : Cells
cells =
    update
      (update
        (update (λ a. none) 0x1000
          (block_at 0 0x1000 (used_slot 40) (free_slot 200 ∷ used_slot 8 ∷ [])))
        0x1040 (block_at 0x1000 0x1040 (free_slot 200) (used_slot 8 ∷ [])))
      0x1120 (block_at 0x1040 0x1120 (used_slot 8) [])

abbrev small : Heap
small = record {
  cells = cells;
  bytes = λ a. 0;
  heap_start = 0x1000;
  heap_size = 0x140;
  paging_enabled = 0;
}

small-IsHeap : IsHeap small slots
unfolding update
small-IsHeap = record {
  chain = (refl, (refl, (refl, tt)));
  fits = record { start = omega arith; sizes = omega arith; addresses = omega arith };
  starts = refl;
}

request-slots :
    request (align8 50) slots
    ≡ some (64, used_slot 40 ∷ used_slot 56 ∷ free_slot 120 ∷ used_slot 8 ∷ [])
unfolding request place align8
request-slots = refl

kmalloc_lem_example :
    Allocated empty_handed 10 50 0 small 64
      (used_slot 40 ∷ used_slot 56 ∷ free_slot 120 ∷ used_slot 8 ∷ [])
      (kmalloc empty_handed 10 50 0 small)
kmalloc_lem_example =
    kmalloc_lem empty_handed 10 50 0 small slots 64
      (used_slot 40 ∷ used_slot 56 ∷ free_slot 120 ∷ used_slot 8 ∷ []) small-IsHeap (omega arith)
      (omega arith) request-slots

request-large : request (align8 201) slots ≡ none
unfolding request align8
request-large = refl

kmalloc_out_of_memory_example :
    (st' : ℕ) × (kmalloc empty_handed 10 201 0 small ≡ done (0, st', small))
kmalloc_out_of_memory_example =
    kmalloc_out_of_memory empty_handed 10 201 0 small slots small-IsHeap (omega arith) (omega arith)
      request-large (λ n. refl) (λ n. refl)

kfree_lem_example :
    (h' : Heap) × (kfree small (0x1000 + 288 + header) ≡ done h')
    × IsHeap h' (give_back (used_slot 40 ∷ free_slot 200 ∷ []) (used_slot 8) [])
kfree_lem_example =
    kfree_lem small (used_slot 40 ∷ free_slot 200 ∷ []) (used_slot 8) [] small-IsHeap

kmalloc-heap_init_example :
    let (st', h') = heap_init at_two_mb 0 small in
    (h'' : Heap) × (kmalloc at_two_mb 2 100 st' h' ≡ done (0x200000 + header, st', h''))
    × IsHeap h'' (place 104 (2 ^ 24 - header) ++ [])
kmalloc-heap_init_example =
    kmalloc-heap_init at_two_mb 2 100 0 small (omega arith) (omega arith) (omega arith)
      (omega arith) (omega arith)
