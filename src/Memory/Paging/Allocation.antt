-- ===== src/Memory/Paging/Allocation.antt =====
-- `kmalloc_virtual` of kernel/memory/paging.c as its callers see it.
use os_ax.Base.{ℕ, ◌+◌, ◌*◌, ◌%◌, ◌≤◌, ◌<◌, ◌≡◌, Bool, true, false}
use os_ax.Base.Words.{u32}
use os_ax.Memory.Physical.{Pmm, alloc_pages}
use os_ax.Memory.Physical.Alloc.{Takes}
use os_ax.Memory.Paging.Tables.{Paging}
use os_ax.Memory.Paging.Addresses.{IsValid}
use os_ax.Memory.Paging.Huge.{huge_end}
use os_ax.Memory.Paging.Virtual.{VirtualHeap, kernel_heap_end}
use os_ax.Memory.Paging.Ranges.{Ranged}
use os_ax.Memory.Paging.Regions.{Beside, Clear, Regions}

-- A range is backed by physical pages; or there are not enough and nothing is done; or the pages
-- taken are those from page 0 on, which has the address NULL, and nothing is mapped.
data Backed (va n : ℕ) (s : Paging) : Bool × Paging → Type 0 where
  unbacked : Backed va n s (false, s)
  null_taken : {t : Pmm} → Takes s.pmm 0 n t → Backed va n s (false, record s { pmm = t })
  backed : (pa : ℕ) {s' : Paging} → Ranged 0 n va pa s s' → Backed va n s (true, s')

-- The heap of virtual addresses is valid: its tables are, and the free regions are whole pages behind
-- the huge pages and below its end that do not meet.
pub record IsReady (h : VirtualHeap) : Type 0 where
  pub paging : IsValid h.paging
  pub next_aligned : h.kernel_heap_next % 4096 ≡ 0
  pub next_low : huge_end ≤ h.kernel_heap_next
  pub next_high : h.kernel_heap_next ≤ kernel_heap_end
  pub regions : Regions h.kernel_heap_next h.free_list

-- A range below the end of the heap that meets no free region: one that is handed out.
pub record Live (a m : ℕ) (h : VirtualHeap) : Type 0 where
  pub below : a + m ≤ h.kernel_heap_next
  pub clear : Clear a m h.free_list

-- A range of `n` pages at `p` is handed out.
pub record Allocated (n p : ℕ) (h h' : VirtualHeap) : Type 0 where
  pub ready : IsReady h'
  pub aligned : p % 4096 ≡ 0
  pub inside : (huge_end ≤ p) × (p + n * 4096 ≤ kernel_heap_end)
  pub live : Live p (n * 4096) h'
  pub physical : ℕ
  pub mapped : Ranged 0 n p physical h.paging h'.paging
  pub separate : (a m : ℕ) → Live a m h → Live a m h' × Beside a m p (n * 4096)

-- What an allocation of `n` pages gives: a range, or NULL, with the tables as they were; the pages
-- are as they were then, unless the first free run of `n` pages began with page 0, which has the
-- address NULL: that run is taken.
pub data Answer (n : ℕ) (h : VirtualHeap) : ℕ × VirtualHeap → Type 0 where
  allocated : {p : ℕ} {h' : VirtualHeap} → Allocated n p h h' → Answer n h (p, h')
  refused : {h' : VirtualHeap} → IsReady h' → h'.paging ≡ h.paging → Answer n h (0, h')
  lost :
      {h' : VirtualHeap} (t : Pmm)
      → IsReady h'
      → Takes h.paging.pmm 0 n t
      → h'.paging ≡ record h.paging { pmm = t }
      → Answer n h (0, h')

module _ (n : ℕ) (h : VirtualHeap) (ready : IsReady h) (some_page : 0 < n) where
  abbrev HasTables : Type 0
  HasTables =
      (alloc_pages (u32 n) h.paging.pmm).1.used_pages + 3 * n
      ≤ (alloc_pages (u32 n) h.paging.pmm).1.total_pages
