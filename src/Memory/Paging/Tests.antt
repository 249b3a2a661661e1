-- ===== src/Memory/Paging/Tests.antt =====
-- kernel/memory/paging.c with the huge pages that `paging_init` makes, and its theorems there.
use os_ax.Base.{
  ℕ, suc, ◌+◌, ◌/◌, ◌≤◌, ◌<◌, ◌≡◌, ◌≢◌, refl, ap, ◌∙◌, [], ◌∷◌, arith, true, ◌==◌, if◌then◌else◌,
  ◌*◌, ◌%◌, ◌&&◌, ltb, inl, inr, Bool-cases, ==→eq,
}
use os_ax.Base.Bits.{bit}
use os_ax.Base.Count.{count}
use os_ax.Memory.Physical.{Pmm}
use os_ax.Memory.Physical.{alloc_pages, alloc_page, alloc_page_from, page_bit, set_page}
use os_ax.Memory.Paging.Virtual.{VirtualHeap, kmalloc_virtual}
use os_ax.Memory.Paging.Regions.{Regions}
use os_ax.Memory.Physical.View.{page_used}
use os_ax.Memory.Paging.Tables.{
  PageTableEntry, PageTables, Paging, zero_entry, frame_address, pd_index, map_page, unmap_page,
  get_physical_address,
}
use os_ax.Memory.Paging.Huge.{is_huge, masked}
use os_ax.Memory.Paging.Tree.{IsTree}
use os_ax.Memory.Paging.Addresses.{IsValid, page_of, map_page_lem, unmap_page_lem}

-- Forty pages, of which the first three and those from 5 to 7 are in use.
abbrev some_pages : Pmm
some_pages = record {
  bitmap = 0xE7 ∷ 0 ∷ [];
  bitmap_base = 0x2000;
  total_pages = 40;
  used_pages = 6;
  bitmap_size = 2;
  memory_size_mb = 0;
  memory_size_bytes = 0;
}

-- An entry that is present, and one of a huge page.
abbrev entry_to : ℕ → PageTableEntry
entry_to page = record zero_entry { present = 1; rw_bit = 1; frame = page }

abbrev huge_entry : ℕ → PageTableEntry
huge_entry i = record (entry_to (i * 512)) { pat = 1 }

-- What `paging_init` makes: page 5 is the root, page 6 the next level, and page 7 the directory with
-- sixteen huge pages.
abbrev huge_tables : PageTables
huge_tables a i =
    if a == 0x5000 && i == 0
    then entry_to 6
    else if a == 0x6000 && i == 0
    then entry_to 7
    else if a == 0x7000 && ltb i 16
    then huge_entry i
    else zero_entry

abbrev huge_pages : Paging
huge_pages = record {
  kernel_page_dir = 0x5000;
  current_directory = 0x5000;
  tables = huge_tables;
  pmm = some_pages;
}

abbrev table_level : ℕ → ℕ
table_level a = if a == 0x5000 then 4 else if a == 0x6000 then 3 else if a == 0x7000 then 2 else 0

data IsTable (a : ℕ) : Type 0 where
  root_table : a ≡ 0x5000 → IsTable a
  next_table : a ≡ 0x6000 → IsTable a
  directory : a ≡ 0x7000 → IsTable a

is_table : (a : ℕ) → 0 < table_level a → IsTable a
is_table a pos = elim (Bool-cases (a == 0x5000)) [
  | inl e ↦ root_table (==→eq a 0x5000 e)
  | inr n ↦ elim (Bool-cases (a == 0x6000)) [
    | inl e ↦ next_table (==→eq a 0x6000 e)
    | inr n' ↦ elim (Bool-cases (a == 0x7000)) [
      | inl e ↦ directory (==→eq a 0x7000 e)
      | inr n'' ↦ absurd (ground arith)
    ]
  ]
]

tables_used :
    (page_used some_pages 5 ≡ true)
    × (page_used some_pages 6 ≡ true)
    × (page_used some_pages 7 ≡ true)
unfolding page_used bit
tables_used = (refl, refl, refl)

table_used : (a : ℕ) → IsTable a → page_used some_pages (a / 4096) ≡ true
table_used a (root_table e) = ap (λ p. page_used some_pages (p / 4096)) e ∙ tables_used.0
table_used a (next_table e) = ap (λ p. page_used some_pages (p / 4096)) e ∙ tables_used.1
table_used a (directory e) = ap (λ p. page_used some_pages (p / 4096)) e ∙ tables_used.2

-- The entries that are present beside those of the huge pages.
data IsEntry (a i frame : ℕ) : Type 0 where
  to_next : a ≡ 0x5000 → i ≡ 0 → frame ≡ 6 → IsEntry a i frame
  to_directory : a ≡ 0x6000 → i ≡ 0 → frame ≡ 7 → IsEntry a i frame

is_entry :
    (a i : ℕ)
    → (masked 0x7000 huge_tables a i).present ≢ 0
    → IsEntry a i (masked 0x7000 huge_tables a i).frame
unfolding masked
is_entry a i there = elim (Bool-cases (is_huge 0x7000 a i)) [
  | inl huge ↦ absurd (there (rw huge refl))
  | inr small ↦ elim (Bool-cases (a == 0x5000 && i == 0)) [
    | inl first ↦ rw (small, first) (to_next (ground arith) (ground arith) refl)
    | inr not_first ↦ elim (Bool-cases (a == 0x6000 && i == 0)) [
      | inl second ↦ rw (small, not_first, second) (to_directory (ground arith) (ground arith) refl)
      | inr not_second ↦ absurd (there (rw (small, not_first, not_second) refl))
    ]
  ]
]

aligned_table : (a : ℕ) → IsTable a → a % 4096 ≡ 0
aligned_table a (root_table e) = omega arith
aligned_table a (next_table e) = omega arith
aligned_table a (directory e) = omega arith

entry_down :
    (a i n frame : ℕ)
    → table_level a ≡ suc (suc n)
    → IsEntry a i frame
    → table_level (frame_address frame) ≡ suc n
entry_down a i n frame deep (to_next ea ei ef) =
    ap (λ f. table_level (frame_address f)) ef ∙ omega (arith, ap table_level ea, deep)
entry_down a i n frame deep (to_directory ea ei ef) =
    ap (λ f. table_level (frame_address f)) ef ∙ omega (arith, ap table_level ea, deep)

entry_apart :
    (a i b j f g : ℕ)
    → IsEntry a i f
    → IsEntry b j g
    → frame_address f ≡ frame_address g
    → (a ≡ b) × (i ≡ j)
entry_apart a i b j f g (to_next ea ei ef) (to_next eb ej eg) same = (omega arith, omega arith)
entry_apart a i b j f g (to_next ea ei ef) (to_directory eb ej eg) same = absurd (omega arith)
entry_apart a i b j f g (to_directory ea ei ef) (to_next eb ej eg) same = absurd (omega arith)
entry_apart a i b j f g (to_directory ea ei ef) (to_directory eb ej eg) same =
    (omega arith, omega arith)

huge_pages-IsTree : IsTree (masked 0x7000 huge_tables) some_pages table_level
huge_pages-IsTree = record {
  aligned = λ a pos. aligned_table a (is_table a pos);
  in_use = λ a pos. table_used a (is_table a pos);
  down = λ a i n deep there. entry_down a i n _ deep (is_entry a i there);
  apart =
      λ a i b j da db ta tb same. entry_apart a i b j _ _ (is_entry a i ta) (is_entry b j tb) same;
}

huge_pages-IsValid : IsValid huge_pages
unfolding count page_used bit
huge_pages-IsValid = record {
  huge_dir = 0x7000;
  level = table_level;
  tree = huge_pages-IsTree;
  root = refl;
  huge_level = refl;
  pages = record { covered = omega arith; small = omega arith; counted = refl };
}

abbrev one_page : Paging
one_page = map_page 0x5000 0x2000000 0x9000 2 huge_pages

map_page_lem_example :
    IsValid one_page
    × ((va' : ℕ)
        → page_of va' ≡ page_of 0x2000000
        → get_physical_address va' one_page ≡ 0x9000 + va' % 4096)
    × ((va' : ℕ)
        → 16 ≤ pd_index va'
        → page_of va' ≢ page_of 0x2000000
        → get_physical_address va' one_page ≡ get_physical_address va' huge_pages)
    × (one_page.pmm.used_pages ≤ 9)
    × (one_page.pmm.total_pages ≡ 40)
map_page_lem_example =
    map_page_lem 0x2000000 0x9000 2 huge_pages huge_pages-IsValid (omega arith) (omega arith) refl
      (omega arith)

unmap_page_lem_example :
    IsValid (unmap_page 0x2000000 one_page)
    × ((va' : ℕ)
        → page_of va' ≡ page_of 0x2000000
        → get_physical_address va' (unmap_page 0x2000000 one_page) ≡ 0)
    × ((va' : ℕ)
        → 16 ≤ pd_index va'
        → page_of va' ≢ page_of 0x2000000
        → get_physical_address va' (unmap_page 0x2000000 one_page)
          ≡ get_physical_address va' one_page)
unmap_page_lem_example = unmap_page_lem 0x2000000 one_page map_page_lem_example.0 (omega arith)

-- The first page behind the huge pages is free, the second is handed out.
abbrev two_pages : VirtualHeap
two_pages = record {
  paging = huge_pages;
  kernel_heap_next = 0x2002000;
  free_list = record { start = 0x2000000; size = 0x1000 } ∷ [];
  free_region_pool_used = 1;
}

reuses_page : (kmalloc_virtual 100 two_pages).0 ≡ 0x2000000
unfolding kmalloc_virtual alloc_pages alloc_page alloc_page_from page_bit set_page map_page
reuses_page = refl
