-- ===== src/Memory/Heap.antt =====
-- kernel/memory/heap.c and include/memory/heap.h: the kernel heap. Block headers are kept by
-- address in a store; a pointer is its address (0 is NULL). `bytes` is the memory behind the
-- headers, which only `krealloc` moves.
pub mod Requests
pub mod Slots
pub mod Chain
pub mod Split
pub mod Merge
pub mod Release
pub mod Find
pub mod Client
mod Tests
use Prim.Native.Nat.{bit_and}
use os_ax.Base.{
  ℕ, zero, suc, ◌+◌, ◌-◌, ◌*◌, ◌/◌, ◌%◌, ◌^◌, Bool, not, ◌&&◌, Option, none, some, ◌==◌, ltb, leb,
  if◌then◌else◌,
}
use os_ax.Base.Words.{u32, u64, page_size}
use os_ax.Base.Outcome.{Outcome, done, fault, out_of_fuel, ◌>>=◌, read}

-- `heap_block_t`
pub record Block : Type 0 where
  pub size : ℕ
  pub is_free : ℕ
  pub next : ℕ
  pub prev : ℕ

abbrev pub Cells : Type 0
Cells = ℕ → Option Block

-- The file's statics, with the memory that they point into.
pub record Heap : Type 0 where
  pub cells : Cells
  pub bytes : ℕ → ℕ
  pub heap_start : ℕ
  pub heap_size : ℕ
  pub paging_enabled : ℕ

-- `heap_stats_t`
pub record HeapStats : Type 0 where
  pub total_size : ℕ
  pub used_size : ℕ
  pub free_size : ℕ
  pub num_blocks : ℕ
  pub num_free_blocks : ℕ

-- `sizeof(heap_block_t)`: two words of 32 bits and two pointers.
abbrev pub header : ℕ
header = 24

abbrev pub min_block_size : ℕ
min_block_size = 32

-- What the heap takes its pages from: `alloc_pages` before paging is on, `kmalloc_virtual` after.
pub record PageSource : Type 1 where
  pub State : Type 0
  pub alloc_pages : ℕ → State → ℕ × State
  pub kmalloc_virtual : ℕ → State → ℕ × State

unfoldable pub update : Cells → ℕ → Block → Cells
update c p b a = if a == p then some b else c a

-- `p->prev = v`
unfoldable pub set_prev : Cells → ℕ → ℕ → Outcome Cells
set_prev c p v = do b ← read (c p); done (update c p (record b { prev = v }))

-- `if (p) p->prev = v;`
unfoldable pub set_prev_if : Cells → ℕ → ℕ → Outcome Cells
unfolding set_prev
set_prev_if c p v = if p == 0 then done c else set_prev c p v

-- The loop of `find_free_block`, from block `current`.
unfoldable pub find_from : ℕ → Cells → ℕ → ℕ → Outcome ℕ
find_from zero c current size = out_of_fuel
find_from (suc fuel) c current size = if current == 0 then done 0 else do
  b ← read (c current)
  if not (b.is_free == 0) && leb size b.size then done current else find_from fuel c b.next size

unfoldable pub find_free_block : ℕ → Heap → ℕ → Outcome ℕ
find_free_block fuel h size = find_from fuel h.cells h.heap_start size

-- `size_t` arithmetic is on 64 bits, and a size that is stored keeps its low 32.
unfoldable pub split_block : Cells → ℕ → ℕ → Outcome Cells
unfolding update set_prev_if
split_block c block size = do
  b ← read (c block)
  if leb (u64 (size + header + min_block_size)) b.size
      then (do
        let new_block = u64 (block + header + size)
        let c' = update c new_block (record {
          size = u32 (b.size + 2 ^ 65 - size - header);
          is_free = 1;
          next = b.next;
          prev = block;
        })
        c'' ← set_prev_if c' b.next new_block
        b' ← read (c'' block)
        done (update c'' block (record b' { next = new_block; size = u32 size })))
      else done c

-- The block found by `kmalloc`, split and marked as allocated.
unfoldable pub take_cells : Cells → ℕ → ℕ → Outcome Cells
unfolding split_block update
take_cells c block size = do
  c' ← split_block c block size
  b ← read (c' block)
  done (update c' block (record b { is_free = 0 }))

-- The first half of `coalesce_blocks`: take in the next block if it is free.
unfoldable pub merge_next : Cells → ℕ → Outcome Cells
unfolding update set_prev_if
merge_next c block = do
  b ← read (c block)
  if b.next == 0 then done c else do
    n ← read (c b.next)
    if n.is_free == 0 then done c else do
      let c' = update c block (record b { size = u32 (b.size + (header + n.size)); next = n.next })
      set_prev_if c' n.next block

-- The second half: let the previous block take this one in, if it is free.
unfoldable pub merge_prev : Cells → ℕ → Outcome Cells
unfolding update set_prev_if
merge_prev c block = do
  b ← read (c block)
  if b.prev == 0 then done c else do
    p ← read (c b.prev)
    if p.is_free == 0 then done c else do
      let c' = update c b.prev (record p { size = u32 (p.size + (header + b.size)); next = b.next })
      set_prev_if c' b.next b.prev

unfoldable pub coalesce_blocks : Cells → ℕ → Outcome Cells
coalesce_blocks c block = do c' ← merge_next c block; merge_prev c' block

-- `(size + 7) & ~7`
unfoldable pub align8 : ℕ → ℕ
align8 size = bit_and (u64 (size + 7)) (2 ^ 64 - 8)

-- `while (current->next) current = current->next;`
unfoldable pub last_block : ℕ → Cells → ℕ → Outcome ℕ
last_block zero c current = out_of_fuel
last_block (suc fuel) c current = do
  b ← read (c current)
  if b.next == 0 then done current else last_block fuel c b.next

-- The new block behind the last one, of `grown` bytes at `new_mem`.
unfoldable pub link_region : ℕ → Heap → ℕ → ℕ → Outcome Heap
unfolding last_block update
link_region fuel h new_mem grown = do
  let c =
      update h.cells new_mem
        (record { size = u32 (grown + 2 ^ 64 - header); is_free = 1; next = 0; prev = 0 })
  current ← last_block fuel c h.heap_start
  b ← read (c current)
  let c' = update c current (record b { next = new_mem })
  n ← read (c' new_mem)
  done (record h {
    cells = update c' new_mem (record n { prev = current });
    heap_size = u32 (h.heap_size + grown);
  })

-- The block marked as free and joined with its neighbours.
unfoldable pub release_cells : Cells → ℕ → Outcome Cells
release_cells c block = do
  b ← read (c block)
  coalesce_blocks (update c block (record b { is_free = 1 })) block

unfoldable pub kfree : Heap → ℕ → Outcome Heap
kfree h ptr =
    if ptr == 0
    then done h
    else do c ← release_cells h.cells (u64 (ptr + (2 ^ 64 - header))); done (record h { cells = c })

-- The loop of `heap_get_stats`.
unfoldable pub stats_from : ℕ → Cells → ℕ → HeapStats → Outcome HeapStats
stats_from zero c current s = out_of_fuel
stats_from (suc fuel) c current s = if current == 0 then done s else do
  b ← read (c current)
  let s' = record s {
    num_blocks = u32 (s.num_blocks + 1);
    total_size = u32 (s.total_size + (b.size + header));
  }
  stats_from fuel c b.next (
      if b.is_free == 0 then record s' { used_size = u32 (s'.used_size + b.size) } else record s' {
        num_free_blocks = u32 (s'.num_free_blocks + 1);
        free_size = u32 (s'.free_size + b.size);
      })

unfoldable pub heap_get_stats : ℕ → Heap → Outcome HeapStats
unfolding stats_from
heap_get_stats fuel h =
    stats_from fuel h.cells h.heap_start
      (record { total_size = 0; used_size = 0; free_size = 0; num_blocks = 0; num_free_blocks = 0 })

unfoldable pub heap_init_virtual : Heap → Heap
heap_init_virtual h = if h.heap_start == 0 then h else record h { paging_enabled = 1 }
