-- ===== src/Memory/Paging/Walk.antt =====
-- The walk through the page tables of kernel/memory/paging.c, level by level.
use Prim.Native.Nat.{bit_and, bit_or}
use os_ax.Base.{
  ℕ, zero, suc, ◌+◌, ◌*◌, ◌/◌, ◌%◌, ◌^◌, ◌≡◌, ◌≢◌, refl, sym, inl, inr, Option, none, some, arith,
  ◌==◌, if◌then◌else◌, Bool-cases, ==_false→ne,
}
use os_ax.Memory.Paging.Tables.{
  PageTableEntry, PageTables, Paging, frame_address, next_table, ensure_entry, set_mapping,
  map_page, clear_mapping, unmap_page, get_physical_address,
}

-- The index into a table of a level, from 1 for the last one to 4 for the root.
abbrev pub index : ℕ → ℕ → ℕ
index level addr = (addr / 2 ^ (9 * level + 3)) % 512

-- On with the table that an entry points to, if there is one.
unfoldable pub through : PageTableEntry → (ℕ → Option ℕ) → Option ℕ
through e k = if e.present == 0 then none else k (frame_address e.frame)

-- The frame that an address is mapped to, from a table of a level on.
unfoldable pub lookup : ℕ → PageTables → ℕ → ℕ → Option ℕ
lookup zero m table addr = some table
lookup (suc level) m table addr =
    through (m table (index (suc level) addr)) (λ next. lookup level m next addr)

-- What `map_page` does from a table of level `n + 1` on.
unfoldable pub map_from : ℕ → ℕ → ℕ → ℕ → ℕ → Paging → Paging
map_from zero table virtual_addr physical_addr flags s =
    set_mapping table (index 1 virtual_addr) physical_addr flags s
map_from (suc n) table virtual_addr physical_addr flags s =
    let idx = index (suc (suc n)) virtual_addr in
    let s' = ensure_entry table idx flags s in
    map_from n (next_table s' table idx) virtual_addr physical_addr flags s'

pub map_page-map_from :
    (pml4 virtual_addr physical_addr flags : ℕ) (s : Paging)
    → map_page pml4 virtual_addr physical_addr flags s
      ≡ map_from 3 pml4 virtual_addr physical_addr flags s
unfolding map_page map_from
map_page-map_from pml4 virtual_addr physical_addr flags s = refl

-- What `unmap_page` does from a table of level `n + 1` on.
unfoldable pub unmap_from : ℕ → ℕ → ℕ → Paging → Paging
unmap_from zero table virtual_addr s = clear_mapping table (index 1 virtual_addr) s
unmap_from (suc n) table virtual_addr s =
    let idx = index (suc (suc n)) virtual_addr in
    let rest = unmap_from n (next_table s table idx) virtual_addr s in
    if (s.tables table idx).present == 0 then s else rest

pub unmap_page-unmap_from :
    (virtual_addr : ℕ) (s : Paging)
    → unmap_page virtual_addr s ≡ unmap_from 3 s.kernel_page_dir virtual_addr s
unfolding unmap_page unmap_from
unmap_page-unmap_from virtual_addr s = refl

-- The address behind a frame, or 0.
unfoldable pub address_in : ℕ → Option ℕ → ℕ
address_in virtual_addr none = 0
address_in virtual_addr (some frame) = bit_or frame (bit_and virtual_addr 0xFFF)

through-address_in :
    (virtual_addr : ℕ) (e : PageTableEntry) (k : ℕ → Option ℕ)
    → address_in virtual_addr (through e k)
      ≡ (if e.present == 0 then 0 else address_in virtual_addr (k (frame_address e.frame)))
unfolding through address_in
through-address_in virtual_addr e k = elim (Bool-cases (e.present == 0)) [
  | inl absent ↦ simp absent refl
  | inr there ↦ simp there refl
]

address_in-some :
    (virtual_addr frame : ℕ)
    → address_in virtual_addr (some frame) ≡ bit_or frame (bit_and virtual_addr 0xFFF)
unfolding address_in
address_in-some virtual_addr frame = refl

pub get_physical_address-lookup :
    (virtual_addr : ℕ) (s : Paging)
    → get_physical_address virtual_addr s
      ≡ address_in virtual_addr (lookup 4 s.tables s.kernel_page_dir virtual_addr)
unfolding get_physical_address lookup
get_physical_address-lookup virtual_addr s = sym (simp (through-address_in, address_in-some) refl)

-- Two continuations that agree where the entry leads to are as good.
pub through_ext :
    (e : PageTableEntry) (k k' : ℕ → Option ℕ)
    → (e.present ≢ 0 → k (frame_address e.frame) ≡ k' (frame_address e.frame))
    → through e k ≡ through e k'
unfolding through
through_ext e k k' same = elim (Bool-cases (e.present == 0)) [
  | inl absent ↦ simp absent refl
  | inr there ↦ simp there (same (==_false→ne e.present 0 there))
]

pub through_absent : (e : PageTableEntry) (k : ℕ → Option ℕ) → e.present ≡ 0 → through e k ≡ none
unfolding through
through_absent e k absent = simp absent refl

pub through_there :
    (e : PageTableEntry) (k : ℕ → Option ℕ)
    → e.present ≢ 0
    → through e k ≡ k (frame_address e.frame)
unfolding through
through_there e k there = ground arith
