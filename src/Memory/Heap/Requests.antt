-- ===== src/Memory/Heap/Requests.antt =====
-- The part of kernel/memory/heap.c that asks for pages: start-up, growth and the allocator.
use Prim.Native.Nat.{bit_and}
use os_ax.Base.{
  ℕ, zero, suc, ◌+◌, ◌-◌, ◌*◌, ◌/◌, ◌^◌, Option, none, some, ◌==◌, ltb, leb, if◌then◌else◌,
}
use os_ax.Base.Words.{u32, u64, page_size}
use os_ax.Base.Outcome.{Outcome, done, ◌>>=◌, read}
use os_ax.Memory.Heap.{
  Heap, header, PageSource, update, find_free_block, take_cells, align8, link_region, kfree,
}

-- `for (i = 0; i < num; i++) dest[i] = src[i]`, from `i` on.
unfoldable pub copy_bytes : ℕ → ℕ → ℕ → (ℕ → ℕ) → ℕ → ℕ
copy_bytes zero dest src bytes = bytes
copy_bytes (suc num) dest src bytes =
    copy_bytes num (dest + 1) (src + 1) (λ a. if a == dest then bytes src else bytes a)

module _ (pages : PageSource) where
  open pages use {State, alloc_pages, kmalloc_virtual}

  unfoldable pub heap_init : State → Heap → State × Heap
  unfolding update
  heap_init st h =
      let initial_size : ℕ = 16 * 1024 * 1024 in
      let (base, st') = alloc_pages ((initial_size + 4095) / 4096) st in
      if base == 0 then (st', h) else (
        st',
        record h {
          cells =
              update h.cells base
                (record { size = initial_size - header; is_free = 1; next = 0; prev = 0 });
          heap_start = base;
          heap_size = initial_size;
          paging_enabled = 0;
        },
      )

  -- `none` is the return of -1.
  unfoldable pub expand_heap : ℕ → ℕ → State → Heap → Outcome (Option Heap × State)
  expand_heap fuel additional_size st h =
      let pages_needed = u32 (u64 (additional_size + (page_size - 1)) / page_size) in
      let grown = u32 (pages_needed * page_size) in
      let (new_mem, st') =
        if h.paging_enabled == 0 then alloc_pages pages_needed st else kmalloc_virtual grown st in
      if new_mem == 0
      then done (none, st')
      else do h' ← link_region fuel h new_mem grown; done (some h', st')

  -- What `kmalloc` does with the block that it found.
  unfoldable pub take_block : ℕ → ℕ → State → Heap → Outcome (ℕ × State × Heap)
  take_block block size st h = do
    c ← take_cells h.cells block size
    done (u64 (block + header), st, record h { cells = c })

  unfoldable pub kmalloc : ℕ → ℕ → State → Heap → Outcome (ℕ × State × Heap)
  kmalloc fuel requested st h = if requested == 0 then done (0, st, h) else do
    let size = align8 requested
    block ← find_free_block fuel h size
    if block == 0
        then (do
          (grown, st') ← expand_heap fuel (u64 (size + header + 4096)) st h
          elim grown [
            | none ↦ done (0, st', h)
            | some h' ↦ (do
              block' ← find_free_block fuel h' size
              if block' == 0 then done (0, st', h') else take_block block' size st' h')
          ])
        else take_block block size st h

  unfoldable pub kmalloc_aligned : ℕ → ℕ → ℕ → State → Heap → Outcome (ℕ × State × Heap)
  kmalloc_aligned fuel size alignment st h = do
    (ptr, st', h') ← kmalloc fuel (u64 (size + alignment + header)) st h
    let aligned =
        bit_and (u64 (ptr + alignment + (2 ^ 64 - 1))) (2 ^ 64 - 1 - u64 (alignment + (2 ^ 64 - 1)))
    if ptr == 0
        then done (0, st', h')
        else if aligned == ptr
        then done (ptr, st', h')
        else done (ptr, st', h')

  unfoldable pub krealloc : ℕ → ℕ → ℕ → State → Heap → Outcome (ℕ × State × Heap)
  krealloc fuel ptr new_size st h =
      if ptr == 0
      then kmalloc fuel new_size st h
      else if new_size == 0
      then (do h' ← kfree h ptr; done (0, st, h'))
      else (do
        b ← read (h.cells (u64 (ptr + (2 ^ 64 - header))))
        if leb new_size b.size then done (ptr, st, h) else do
          (new_ptr, st', h') ← kmalloc fuel new_size st h
          if new_ptr == 0 then done (0, st', h') else do
            b' ← read (h'.cells (u64 (ptr + (2 ^ 64 - header))))
            let num = if ltb b'.size new_size then b'.size else new_size
            h'' ← kfree (record h' { bytes = copy_bytes num new_ptr ptr h'.bytes }) ptr
            done (new_ptr, st', h''))
