-- ===== src/Memory/Paging/Tables.antt =====
-- The page tables of kernel/memory/paging.c and include/memory/paging.h. A table is known by its
-- address; the bits of an entry are fields.
use Prim.Native.Nat.{bit_and, bit_or}
use os_ax.Base.{ℕ, ◌*◌, ◌/◌, ◌%◌, ◌^◌, ◌&&◌, ◌==◌, if◌then◌else◌}
use os_ax.Memory.Physical.{Pmm, alloc_page}

pub record PageTableEntry : Type 0 where
  pub present : ℕ
  pub rw_bit : ℕ
  pub user : ℕ
  pub pwt : ℕ
  pub pcd : ℕ
  pub accessed : ℕ
  pub dirty : ℕ
  pub pat : ℕ
  pub global : ℕ
  pub available1 : ℕ
  pub frame : ℕ
  pub available2 : ℕ
  pub nx : ℕ

-- The memory of the tables: an entry for each address of a table and each index.
abbrev pub PageTables : Type 0
PageTables = ℕ → ℕ → PageTableEntry

-- The statics that the tables are reached by, and the memory behind them.
pub record Paging : Type 0 where
  pub kernel_page_dir : ℕ
  pub current_directory : ℕ
  pub tables : PageTables
  pub pmm : Pmm

abbrev pub pml4_index : ℕ → ℕ
pml4_index addr = (addr / 2 ^ 39) % 512

abbrev pub pdp_index : ℕ → ℕ
pdp_index addr = (addr / 2 ^ 30) % 512

abbrev pub pd_index : ℕ → ℕ
pd_index addr = (addr / 2 ^ 21) % 512

abbrev pub pt_index : ℕ → ℕ
pt_index addr = (addr / 2 ^ 12) % 512

-- `frame << 12`, in 64 bits. A compiler that shifts in the 40 bits of the field gives the same for
-- addresses below 2 ^ 40.
abbrev pub frame_address : ℕ → ℕ
frame_address frame = (frame * 4096) % 2 ^ 64

-- `addr >> 12`, put into the 40 bits of the field.
abbrev pub frame_of : ℕ → ℕ
frame_of addr = (addr / 4096) % 2 ^ 40

-- `(flags & bit) ? 1 : 0`
abbrev pub flag : ℕ → ℕ → ℕ
flag flags mask = if bit_and flags mask == 0 then 0 else 1

abbrev pub page_writable : ℕ
page_writable = 2

abbrev pub page_user : ℕ
page_user = 4

abbrev pub zero_entry : PageTableEntry
zero_entry = record {
  present = 0;
  rw_bit = 0;
  user = 0;
  pwt = 0;
  pcd = 0;
  accessed = 0;
  dirty = 0;
  pat = 0;
  global = 0;
  available1 = 0;
  frame = 0;
  available2 = 0;
  nx = 0;
}

-- `memset(table, 0, sizeof(page_table_t))`
unfoldable pub clear_table : ℕ → PageTables → PageTables
clear_table table m a i = if a == table then zero_entry else m a i

unfoldable pub set_entry : ℕ → ℕ → PageTableEntry → PageTables → PageTables
set_entry table idx e m a i = if (a == table) && (i == idx) then e else m a i

-- The table that an entry points to.
abbrev pub next_table : Paging → ℕ → ℕ → ℕ
next_table s table idx = frame_address (s.tables table idx).frame

-- A page is cleared and the entry points to it.
unfoldable pub link_table : ℕ → ℕ → ℕ → ℕ → PageTables → PageTables
unfolding clear_table set_entry
link_table page table idx flags m =
    let cleared = clear_table page m in
    let e : PageTableEntry = record (cleared table idx) {
      present = 1;
      rw_bit = 1;
      user = flag flags page_user;
      frame = frame_of page;
    } in
    set_entry table idx e cleared

-- An entry that is not present gets a page of its own.
unfoldable pub ensure_entry : ℕ → ℕ → ℕ → Paging → Paging
unfolding link_table
ensure_entry table idx flags s =
    let page = (alloc_page s.pmm).0 in
    if (s.tables table idx).present == 0
    then record s { tables = link_table page table idx flags s.tables; pmm = (alloc_page s.pmm).1 }
    else s

-- The entry of the last level.
unfoldable pub set_mapping : ℕ → ℕ → ℕ → ℕ → Paging → Paging
unfolding set_entry
set_mapping pt idx physical_addr flags s = record s {
  tables =
      set_entry pt idx
        (record (s.tables pt idx) {
          present = 1;
          rw_bit = flag flags page_writable;
          user = flag flags page_user;
          frame = frame_of physical_addr;
        })
        s.tables;
}

unfoldable pub map_page : ℕ → ℕ → ℕ → ℕ → Paging → Paging
unfolding ensure_entry set_mapping
map_page pml4 virtual_addr physical_addr flags s =
    let s1 = ensure_entry pml4 (pml4_index virtual_addr) flags s in
    let pdp = next_table s1 pml4 (pml4_index virtual_addr) in
    let s2 = ensure_entry pdp (pdp_index virtual_addr) flags s1 in
    let pd = next_table s2 pdp (pdp_index virtual_addr) in
    let s3 = ensure_entry pd (pd_index virtual_addr) flags s2 in
    let pt = next_table s3 pd (pd_index virtual_addr) in
    set_mapping pt (pt_index virtual_addr) physical_addr flags s3

-- Its parameter `pml4` is not used.
unfoldable pub get_physical_address : ℕ → Paging → ℕ
get_physical_address virtual_addr s =
    let pml4 = s.kernel_page_dir in
    let pdp = next_table s pml4 (pml4_index virtual_addr) in
    let pd = next_table s pdp (pdp_index virtual_addr) in
    let pt = next_table s pd (pd_index virtual_addr) in
    if (s.tables pml4 (pml4_index virtual_addr)).present == 0
    then 0
    else if (s.tables pdp (pdp_index virtual_addr)).present == 0
    then 0
    else if (s.tables pd (pd_index virtual_addr)).present == 0
    then 0
    else if (s.tables pt (pt_index virtual_addr)).present == 0
    then 0
    else bit_or (next_table s pt (pt_index virtual_addr)) (bit_and virtual_addr 0xFFF)

unfoldable pub clear_mapping : ℕ → ℕ → Paging → Paging
unfolding set_entry
clear_mapping pt idx s = record s {
  tables = set_entry pt idx (record (s.tables pt idx) { present = 0 }) s.tables;
}

-- Its parameter `pml4` is not used.
unfoldable pub unmap_page : ℕ → Paging → Paging
unfolding clear_mapping
unmap_page virtual_addr s =
    let pml4 = s.kernel_page_dir in
    let pdp = next_table s pml4 (pml4_index virtual_addr) in
    let pd = next_table s pdp (pdp_index virtual_addr) in
    let pt = next_table s pd (pd_index virtual_addr) in
    if (s.tables pml4 (pml4_index virtual_addr)).present == 0
    then s
    else if (s.tables pdp (pdp_index virtual_addr)).present == 0
    then s
    else if (s.tables pd (pd_index virtual_addr)).present == 0
    then s
    else clear_mapping pt (pt_index virtual_addr) s
