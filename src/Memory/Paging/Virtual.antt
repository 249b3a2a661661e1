-- ===== src/Memory/Paging/Virtual.antt =====
-- The kernel's virtual heap of kernel/memory/paging.c.
use Prim.Native.Nat.{bit_and}
use os_ax.Base.{
  ℕ, zero, suc, ◌+◌, ◌-◌, ◌*◌, ◌/◌, ◌%◌, ◌^◌, Bool, true, false, Option, none, some, List, [], ◌∷◌,
  ◌==◌, ltb, leb, if◌then◌else◌,
}
use os_ax.Base.Words.{u32}
use os_ax.Memory.Physical.{alloc_pages, free_page}
use os_ax.Memory.Paging.Tables.{Paging, page_writable, map_page, unmap_page, get_physical_address}

abbrev pub u64 : ℕ → ℕ
u64 x = x % 2 ^ 64

abbrev pub kernel_heap_start : ℕ
kernel_heap_start = 0x400000

abbrev pub kernel_heap_end : ℕ
kernel_heap_end = 0x40000000

abbrev pub max_free_regions : ℕ
max_free_regions = 64

pub record FreeRegion : Type 0 where
  pub start : ℕ
  pub size : ℕ

-- The statics of the virtual heap. The list is kept in order; of the pool only the number of nodes
-- used counts.
pub record VirtualHeap : Type 0 where
  pub paging : Paging
  pub kernel_heap_next : ℕ
  pub free_list : List FreeRegion
  pub free_region_pool_used : ℕ

unfoldable pub kernel_heap_init : VirtualHeap → VirtualHeap
kernel_heap_init h = record h {
  kernel_heap_next = kernel_heap_start;
  free_list = [];
  free_region_pool_used = 0;
}

-- `(size + PAGE_SIZE - 1) / PAGE_SIZE`
abbrev pub pages_for : ℕ → ℕ
pages_for size = u64 (size + 4095) / 4096

-- The first region that is large enough, and the list without what is taken from it.
unfoldable pub take_region : ℕ → List FreeRegion → Option (ℕ × List FreeRegion)
take_region total_size [] = none
take_region total_size (r ∷ rest) =
    let later : Option (ℕ × List FreeRegion) = elim (take_region total_size rest) [
      | none ↦ none
      | some (start, rest') ↦ some (start, r ∷ rest')
    ] in
    if leb total_size r.size
    then some (
      r.start,
      (if r.size == total_size
          then rest
          else (record { start = u64 (r.start + total_size); size = r.size - total_size } ∷ rest)),
    )
    else later

-- The loop that maps pages, from page `i` on.
unfoldable pub map_pages : ℕ → ℕ → ℕ → ℕ → Paging → Paging
map_pages zero i virtual_start physical s = s
map_pages (suc rounds) i virtual_start physical s =
    let virtual_addr = u64 (virtual_start + i * 4096) in
    let physical_addr = u64 (physical + i * 4096) in
    map_pages rounds (i + 1) virtual_start physical
      (map_page s.kernel_page_dir virtual_addr physical_addr page_writable s)

-- The pages of a range are taken and mapped; whether `alloc_pages` gave an address that is not NULL.
unfoldable pub back_range : ℕ → ℕ → Paging → Bool × Paging
unfolding map_pages
back_range virtual_start pages_needed s =
    let (physical, pmm) = alloc_pages (u32 pages_needed) s.pmm in
    if physical == 0
    then (false, record s { pmm = pmm })
    else (true, map_pages pages_needed 0 virtual_start physical (record s { pmm = pmm }))

unfoldable pub from_end : ℕ → ℕ → VirtualHeap → ℕ × VirtualHeap
unfolding back_range
from_end pages_needed total_size h =
    if ltb kernel_heap_end (u64 (h.kernel_heap_next + total_size))
    then (0, h)
    else let (backed, paging) = back_range h.kernel_heap_next pages_needed h.paging in
      if backed
      then (
        h.kernel_heap_next,
        record h { paging = paging; kernel_heap_next = u64 (h.kernel_heap_next + total_size) },
      )
      else (0, record h { paging = paging })

-- A range of `total_size` bytes, from the free list or from the end of the heap.
unfoldable pub take_range : ℕ → ℕ → VirtualHeap → ℕ × VirtualHeap
unfolding take_region back_range from_end
take_range pages_needed total_size h = elim (take_region total_size h.free_list) [
  | none ↦ from_end pages_needed total_size h
  | some (virtual_start, regions) ↦
      let (backed, paging) = back_range virtual_start pages_needed h.paging in
      (if backed then virtual_start else 0, record h { paging = paging; free_list = regions })
]

unfoldable pub kmalloc_virtual : ℕ → VirtualHeap → ℕ × VirtualHeap
unfolding take_range
kmalloc_virtual size h =
    let pages_needed = pages_for size in take_range pages_needed (u64 (pages_needed * 4096)) h

-- The physical pages of a range are given back, from page `i` on.
unfoldable pub free_range : ℕ → ℕ → ℕ → Paging → Paging
free_range zero i virtual_start s = s
free_range (suc rounds) i virtual_start s =
    let physical_addr = get_physical_address (u64 (virtual_start + i * 4096)) s in
    free_range rounds (i + 1) virtual_start (
      if physical_addr == 0
      then s
      else record s { pmm = free_page (bit_and physical_addr 0xFFFFFFFFFFFFF000) s.pmm })

-- The pages of a range are unmapped, from page `i` on.
unfoldable pub unmap_range : ℕ → ℕ → ℕ → Paging → Paging
unmap_range zero i virtual_start s = s
unmap_range (suc rounds) i virtual_start s =
    unmap_range rounds (i + 1) virtual_start (unmap_page (u64 (virtual_start + i * 4096)) s)

-- A range becomes a free region, while the pool has a node.
unfoldable pub add_region : ℕ → ℕ → VirtualHeap → VirtualHeap
add_region start size h = if leb max_free_regions h.free_region_pool_used then h else record h {
  free_list = record { start = start; size = size } ∷ h.free_list;
  free_region_pool_used = h.free_region_pool_used + 1;
}

unfoldable pub kfree_virtual : ℕ → ℕ → VirtualHeap → VirtualHeap
unfolding free_range unmap_range add_region
kfree_virtual ptr size h =
    let pages_freed = pages_for size in
    let paging = unmap_range pages_freed 0 ptr (free_range pages_freed 0 ptr h.paging) in
    if ptr == 0 then h else add_region ptr (u64 (pages_freed * 4096)) (record h { paging = paging })

-- `device_virtual_next` is the static of `physical_to_virtual`.
unfoldable pub physical_to_virtual : ℕ → ℕ → Paging → ℕ × ℕ × Paging
physical_to_virtual device_virtual_next physical_addr s = (
  device_virtual_next,
  u64 (device_virtual_next + 4096),
  map_page s.kernel_page_dir device_virtual_next physical_addr page_writable s,
)

abbrev pub used_virtual : VirtualHeap → ℕ
used_virtual h = u64 (h.kernel_heap_next + 2 ^ 64 - kernel_heap_start)
