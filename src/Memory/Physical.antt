-- ===== src/Memory/Physical.antt =====
-- kernel/memory/physical_mm.c: the bitmap of physical pages. The file's statics are the fields of
-- one record, a function that updates them returns the new record, and a pointer is its address
-- (0 is NULL).
pub mod View
pub mod Invariant
pub mod Alloc
pub mod Free
pub mod Init
mod Tests
use Prim.Native.Nat.{bit_and, bit_or}
use os_ax.Base.{
  ℕ, zero, suc, ◌+◌, ◌-◌, ◌*◌, ◌/◌, ◌%◌, ◌^◌, List, ◌==◌, ltb, leb, if◌then◌else◌, get_or, set,
}
use os_ax.Base.Words.{u32, not32, page_size, page_align_up}

pub record Pmm : Type 0 where
  pub bitmap : List ℕ
  pub bitmap_base : ℕ
  pub total_pages : ℕ
  pub used_pages : ℕ
  pub bitmap_size : ℕ
  pub memory_size_mb : ℕ
  pub memory_size_bytes : ℕ

-- `bitmap[i / 32] & (1u << (i % 32))`
unfoldable pub page_bit : Pmm → ℕ → ℕ
page_bit s i = bit_and (get_or s.bitmap (i / 32) 0) (2 ^ (i % 32))

-- `bitmap[i / 32] |= 1u << (i % 32); used_pages++;`
unfoldable pub set_page : Pmm → ℕ → Pmm
set_page s i = record s {
  bitmap = set s.bitmap (i / 32) (bit_or (get_or s.bitmap (i / 32) 0) (2 ^ (i % 32)));
  used_pages = u32 (s.used_pages + 1);
}

-- `bitmap[i / 32] &= ~(1u << (i % 32)); used_pages--;`
unfoldable pub clear_page : Pmm → ℕ → Pmm
clear_page s i = record s {
  bitmap = set s.bitmap (i / 32) (bit_and (get_or s.bitmap (i / 32) 0) (not32 (2 ^ (i % 32))));
  used_pages = u32 (s.used_pages + (2 ^ 32 - 1));
}

unfoldable pub mark_page_used : Pmm → ℕ → Pmm
mark_page_used s page_idx =
    if leb s.total_pages page_idx
    then s
    else if page_bit s page_idx == 0
    then set_page s page_idx
    else s

-- `for (i = first; i < first + rounds; i++) mark_page_used(i);`
unfoldable pub mark_range : ℕ → ℕ → Pmm → Pmm
mark_range zero i s = s
mark_range (suc rounds) i s = mark_range rounds (i + 1) (mark_page_used s i)

-- `for (i = first; i < first + rounds; i++) bitmap[i] = 0;`
unfoldable pub clear_words : ℕ → ℕ → List ℕ → List ℕ
clear_words zero i words = words
clear_words (suc rounds) i words = clear_words rounds (i + 1) (set words i 0)

-- The state before the reserved pages are marked. `bss_end` is the linker's `__bss_end`, and
-- `words` the memory behind it, with whatever it held.
unfoldable pub physical_mm_clear : ℕ → ℕ → List ℕ → Pmm
unfolding clear_words
physical_mm_clear bss_end mem_mb words =
    let total = u32 (mem_mb * 256) in
    let size = u32 (total + 31) / 32 in
    record {
      bitmap = clear_words size 0 words;
      bitmap_base = page_align_up bss_end;
      total_pages = total;
      used_pages = 0;
      bitmap_size = size;
      memory_size_mb = mem_mb;
      memory_size_bytes = u32 (mem_mb * 1024 * 1024);
    }

-- The pages below the end of the bitmap's storage.
unfoldable pub reserved_pages : Pmm → ℕ
reserved_pages s = page_align_up (u32 (s.bitmap_base + u32 (s.bitmap_size * 4))) / page_size

abbrev pub dma_start_page : ℕ
dma_start_page = 0x10000 / page_size

abbrev pub dma_end_page : ℕ
dma_end_page = 0xA0000 / page_size

unfoldable pub physical_mm_init : ℕ → ℕ → List ℕ → Pmm
unfolding physical_mm_clear reserved_pages mark_range
physical_mm_init bss_end mem_mb words =
    let cleared = physical_mm_clear bss_end mem_mb words in
    let marked = mark_range (reserved_pages cleared) 0 cleared in
    mark_range (dma_end_page - dma_start_page) dma_start_page marked

-- `alloc_page`'s loop, from page `i` with that many rounds left.
unfoldable pub alloc_page_from : ℕ → ℕ → Pmm → ℕ × Pmm
alloc_page_from zero i s = (0, s)
alloc_page_from (suc rounds) i s =
    let rest = alloc_page_from rounds (i + 1) s in
    if page_bit s i == 0 then (u32 (i * page_size), set_page s i) else rest

unfoldable pub alloc_page : Pmm → ℕ × Pmm
alloc_page s = alloc_page_from s.total_pages 0 s

-- The inner loop of `alloc_pages`: how many of the next pages are free, up to the first that is
-- not.
unfoldable pub consecutive_free : Pmm → ℕ → ℕ → ℕ
consecutive_free s zero page_idx = 0
consecutive_free s (suc rounds) page_idx =
    let rest = suc (consecutive_free s rounds (page_idx + 1)) in
    if page_bit s page_idx == 0 then rest else 0

-- The loop that marks the pages found.
unfoldable pub set_pages : ℕ → ℕ → Pmm → Pmm
set_pages zero page_idx s = s
set_pages (suc rounds) page_idx s = set_pages rounds (page_idx + 1) (set_page s page_idx)

-- The outer loop of `alloc_pages`.
unfoldable pub alloc_pages_from : ℕ → ℕ → ℕ → Pmm → ℕ × Pmm
alloc_pages_from count zero i s = (0, s)
alloc_pages_from count (suc rounds) i s =
    let rest = alloc_pages_from count rounds (i + 1) s in
    if consecutive_free s count i == count then (u32 (i * page_size), set_pages count i s) else rest

unfoldable pub alloc_pages : ℕ → Pmm → ℕ × Pmm
alloc_pages count s =
    if count == 0
    then (0, s)
    else if count == 1
    then alloc_page s
    else if ltb s.total_pages count
    then (0, s)
    else alloc_pages_from count (s.total_pages - count + 1) 0 s

unfoldable pub free_page : ℕ → Pmm → Pmm
free_page page s =
    let page_num = u32 (page / page_size) in
    if leb s.total_pages page_num
    then s
    else if page_bit s page_num == 0
    then s
    else clear_page s page_num

unfoldable pub get_total_memory : Pmm → ℕ
get_total_memory s = s.memory_size_bytes

unfoldable pub get_free_memory : Pmm → ℕ
get_free_memory s = u32 (u32 (s.total_pages + 2 ^ 32 - s.used_pages) * page_size)

unfoldable pub get_used_memory : Pmm → ℕ
get_used_memory s = u32 (s.used_pages * page_size)

unfoldable pub get_total_memory_mb : Pmm → ℕ
get_total_memory_mb s = s.memory_size_mb
