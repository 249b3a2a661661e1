-- ===== src/Memory/Paging/Addresses.antt =====
-- Which physical address a virtual one stands for in the kernel's tables of kernel/memory/paging.c.
use Prim.Native.Nat.{bit_and, bit_or}
use os_ax.Base.{
  ℕ, zero, suc, refl, subst, none, ◌+◌, ◌*◌, ◌/◌, ◌%◌, ◌^◌, ◌≤◌, ◌<◌, ◌≡◌, ◌≢◌, sym, ap, ◌∙◌, arith,
  Option, some,
}
use os_ax.Base.Masks.{bit_and_low, bit_or_join}
use os_ax.Memory.Physical
use os_ax.Memory.Paging.Tables.{
  PageTables, Paging, frame_address, frame_of, pd_index, map_page, unmap_page, get_physical_address,
}
use os_ax.Memory.Paging.Walk.{
  index, through, through_ext, lookup, map_from, unmap_from, address_in, map_page-map_from,
  unmap_page-unmap_from, get_physical_address-lookup,
}
use os_ax.Memory.Paging.Tree.{IsTree}
use os_ax.Memory.Paging.Huge.{
  masked, without_huge, lookup-masked, without_huge-map_from, without_huge-unmap_from,
}
use os_ax.Memory.Paging.Mapping.{SameIndices, Mapped, map_from-Mapped, unmap_from-Mapped}

-- The tables form a tree of four levels below the kernel's directory, on pages in use, but for the
-- entries of the huge pages: the first sixteen of one page directory, as `paging_init` fills them.
pub record IsValid (s : Paging) : Type 0 where
  pub huge_dir : ℕ
  pub level : ℕ → ℕ
  pub tree : IsTree (masked huge_dir s.tables) s.pmm level
  pub root : level s.kernel_page_dir ≡ 4
  pub huge_level : level huge_dir ≡ 2
  pub pages : Physical.Invariant.IsValid s.pmm

-- The virtual page of an address: the 36 bits that the tables are indexed with.
abbrev pub page_of : ℕ → ℕ
page_of va = (va / 4096) % 2 ^ 36

same_page : (a b : ℕ) → page_of a ≢ page_of b → SameIndices 4 b a → ⊥
same_page a b differ same = differ (omega arith)

-- A frame with an offset.
address_in_frame :
    (va pa : ℕ)
    → pa % 4096 ≡ 0
    → pa < 2 ^ 40
    → address_in va (some (frame_address (frame_of pa))) ≡ pa + va % 4096
unfolding address_in
address_in_frame va pa aligned small =
    let frame : frame_address (frame_of pa) ≡ pa / 4096 * 2 ^ 12 = omega arith in
    ap (λ f. bit_or f (bit_and va 0xFFF)) frame
    ∙ ap (bit_or (pa / 4096 * 2 ^ 12)) (bit_and_low 12 va)
    ∙ bit_or_join 12 (pa / 4096) (va % 2 ^ 12) (omega arith)
    ∙ omega arith

SameIndices-page_of : (a b : ℕ) → page_of a ≡ page_of b → SameIndices 4 a b
SameIndices-page_of a b same = (omega arith, (omega arith, (omega arith, (omega arith, tt))))

-- A lookup reads only the indices of an address.
lookup-SameIndices :
    (n a b table : ℕ) (m : PageTables) → SameIndices n a b → lookup n m table a ≡ lookup n m table b
unfolding lookup
lookup-SameIndices zero a b table m same = refl
lookup-SameIndices (suc n) a b table m (same, rest) =
    ap (λ i. through (m table i) (λ next. lookup n m next a)) same
    ∙ through_ext (m table (index (suc n) b)) (λ next. lookup n m next a)
        (λ next. lookup n m next b)
        (λ there. lookup-SameIndices n a b (frame_address (m table (index (suc n) b)).frame) m rest)

module _ {va : ℕ} {target : Option ℕ} (s s' : Paging) (v : IsValid s) (level' : ℕ → ℕ)
    (m : Mapped 3 s.kernel_page_dir va target v.level level'
      (without_huge v.huge_dir s)
      (without_huge v.huge_dir s')) where
  deep' : level' v.huge_dir ≡ 2
  deep' = m.same_level v.huge_dir (omega (arith, v.huge_level)) ∙ v.huge_level

  root' : level' s'.kernel_page_dir ≡ 4
  root' = ap level' m.same_dir ∙ m.same_level s.kernel_page_dir (omega (arith, v.root)) ∙ v.root

  Mapped-IsValid : IsValid s'
  Mapped-IsValid = record {
    huge_dir = v.huge_dir;
    level = level';
    tree = m.tree;
    root = root';
    huge_level = deep';
    pages = m.valid;
  }

  -- What an address beside the huge pages stands for, by the tables without them.
  address_masked' :
      (va' : ℕ)
      → 16 ≤ pd_index va'
      → get_physical_address va' s'
        ≡ address_in va' (lookup 4 (masked v.huge_dir s'.tables) s.kernel_page_dir va')
  address_masked' va' beside =
      get_physical_address-lookup va' s'
      ∙ ap (address_in va') (
          lookup-masked v.huge_dir va' beside 3 s'.kernel_page_dir level' s'.tables m.tree deep'
            root')
      ∙ ap (λ root. address_in va' (lookup 4 (masked v.huge_dir s'.tables) root va')) m.same_dir

  Mapped-address :
      (va' : ℕ)
      → 16 ≤ pd_index va'
      → page_of va' ≡ page_of va
      → get_physical_address va' s' ≡ address_in va' target
  Mapped-address va' beside same =
      address_masked' va' beside
      ∙ ap (address_in va') (
          lookup-SameIndices 4 va' va s.kernel_page_dir (masked v.huge_dir s'.tables)
            (SameIndices-page_of va' va same)
          ∙ m.found)

  Mapped-others :
      (va' : ℕ)
      → 16 ≤ pd_index va'
      → page_of va' ≢ page_of va
      → get_physical_address va' s' ≡ get_physical_address va' s
  Mapped-others va' beside differ =
      address_masked' va' beside
      ∙ ap (address_in va') (m.others va' (same_page va' va differ))
      ∙ ap (address_in va') (
          sym (
            lookup-masked v.huge_dir va' beside 3 s.kernel_page_dir v.level s.tables v.tree
              v.huge_level v.root))
      ∙ sym (get_physical_address-lookup va' s)

page_beside : (a b : ℕ) → 16 ≤ pd_index b → page_of a ≡ page_of b → 16 ≤ pd_index a
page_beside a b beside same = omega arith

-- In a valid state, which may have the sixteen huge pages of paging_init, with three pages left,
-- mapping a page beside the huge pages, whose index into a page directory is 16 or more, in the
-- directory of the kernel to a physical page below 2 ^ 40 makes each address of the page stand for
-- that of the physical page, leaves what all other addresses beside the huge pages stand for,
-- takes three pages at most of as many as before, and gives a valid state.
pub map_page_lem :
    (va pa flags : ℕ) (s : Paging)
    → IsValid s
    → 16 ≤ pd_index va
    → s.pmm.used_pages + 3 ≤ s.pmm.total_pages
    → pa % 4096 ≡ 0
    → pa < 2 ^ 40
    → IsValid (map_page s.kernel_page_dir va pa flags s)
      × ((va' : ℕ)
          → page_of va' ≡ page_of va
          → get_physical_address va' (map_page s.kernel_page_dir va pa flags s) ≡ pa + va' % 4096)
      × ((va' : ℕ)
          → 16 ≤ pd_index va'
          → page_of va' ≢ page_of va
          → get_physical_address va' (map_page s.kernel_page_dir va pa flags s)
            ≡ get_physical_address va' s)
      × ((map_page s.kernel_page_dir va pa flags s).pmm.used_pages ≤ s.pmm.used_pages + 3)
      × ((map_page s.kernel_page_dir va pa flags s).pmm.total_pages ≡ s.pmm.total_pages)
map_page_lem va pa flags s v beside room aligned small =
    let dir = v.huge_dir in
    let root = s.kernel_page_dir in
    let t = without_huge dir s in
    let (level', plain) = map_from-Mapped va pa flags 3 root v.level t v.tree v.pages room v.root in
    let s' = map_from 3 root va pa flags s in
    let same =
      without_huge-map_from dir va beside pa flags 3 root v.level s t refl v.tree v.pages
        (omega arith) v.huge_level v.root in
    let m : Mapped 3 root va (some (frame_address (frame_of pa))) v.level level' t
        (without_huge dir (map_from 3 root va pa flags s)) =
      subst
        (λ (x : Paging). Mapped 3 root va (some (frame_address (frame_of pa))) v.level level' t x)
        (sym same) plain in
    rw (map_page-map_from root va pa flags s) (
      Mapped-IsValid s s' v level' m,
      (λ va' at.
          Mapped-address s s' v level' m va' (page_beside va' va beside at) at
          ∙ address_in_frame va' pa aligned small),
      (λ va' out differ. Mapped-others s s' v level' m va' out differ),
      m.few,
      m.same_total,
    )

-- In a valid state, which may have the sixteen huge pages of paging_init, after a page beside the
-- huge pages, whose index into a page directory is 16 or more, is unmapped each address of it
-- stands for nothing, all other addresses beside the huge pages stand for what they stood for, and
-- the state is valid.
pub unmap_page_lem :
    (va : ℕ) (s : Paging)
    → IsValid s
    → 16 ≤ pd_index va
    → IsValid (unmap_page va s)
      × ((va' : ℕ) → page_of va' ≡ page_of va → get_physical_address va' (unmap_page va s) ≡ 0)
      × ((va' : ℕ)
          → 16 ≤ pd_index va'
          → page_of va' ≢ page_of va
          → get_physical_address va' (unmap_page va s) ≡ get_physical_address va' s)
unfolding address_in
unmap_page_lem va s v beside =
    let dir = v.huge_dir in
    let root = s.kernel_page_dir in
    let t = without_huge dir s in
    let plain = unmap_from-Mapped va 3 root v.level t v.tree v.pages v.root in
    let s' = unmap_from 3 root va s in
    let same =
      without_huge-unmap_from dir va beside 3 root v.level s t refl v.tree v.huge_level v.root in
    let m : Mapped 3 root va none v.level v.level t (without_huge dir (unmap_from 3 root va s)) =
      subst (λ (x : Paging). Mapped 3 root va none v.level v.level t x) (sym same) plain in
    rw (unmap_page-unmap_from va s) (
      Mapped-IsValid s s' v v.level m,
      (λ va' at. Mapped-address s s' v v.level m va' (page_beside va' va beside at) at),
      λ va' out differ. Mapped-others s s' v v.level m va' out differ,
    )
