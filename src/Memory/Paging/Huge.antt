-- ===== src/Memory/Paging/Huge.antt =====
-- The huge pages that `paging_init` of kernel/memory/paging.c makes, and what `map_page` and
-- `unmap_page` do beside them. An address is beside them if its index into a page directory is not one
-- of the first sixteen.
use mathlib.Core.Path.{fun_ext}
use os_ax.Base.{
  ℕ, zero, suc, ◌+◌, ◌≤◌, ◌≡◌, refl, sym, ap, ◌∙◌, inl, inr, false, Bool, ◌&&◌, arith, ◌==◌, ltb,
  if◌then◌else◌, Bool-cases, ==→eq, ==_false→ne,
}
use os_ax.Memory.Physical.{Pmm, alloc_page}
use os_ax.Memory.Physical.Invariant
use os_ax.Memory.Paging.Tables.{
  PageTableEntry, PageTables, Paging, zero_entry, frame_address, frame_of, flag, page_user,
  page_writable, next_table, clear_table, set_entry, link_table, ensure_entry, set_mapping,
  clear_mapping, pd_index,
}
use os_ax.Memory.Paging.Walk.{index, lookup, map_from, unmap_from}
use os_ax.Memory.Paging.Tree.{IsTree}
use os_ax.Memory.Paging.Lookup.{lookup_step}
use os_ax.Memory.Paging.Ensure.{ensure_entry-Ensured}

-- The end of the huge pages of the first directory.
abbrev pub huge_end : ℕ
huge_end = 0x2000000

-- The entries of the huge pages: the first sixteen of a directory.
abbrev pub is_huge : ℕ → ℕ → ℕ → Bool
is_huge dir a i = (a == dir) && ltb i 16

-- The tables with the entries of the huge pages left out.
unfoldable pub masked : ℕ → PageTables → PageTables
masked dir m a i = if is_huge dir a i then zero_entry else m a i

abbrev pub without_huge : ℕ → Paging → Paging
without_huge dir s = record s { tables = masked dir s.tables }

pub masked_at : (dir a i : ℕ) (m : PageTables) → is_huge dir a i ≡ false → masked dir m a i ≡ m a i
unfolding masked
masked_at dir a i m e = rw e refl

masked-set_entry :
    (dir table idx : ℕ) (e : PageTableEntry) (m : PageTables)
    → is_huge dir table idx ≡ false
    → masked dir (set_entry table idx e m) ≡ set_entry table idx e (masked dir m)
unfolding masked set_entry
masked-set_entry dir table idx e m out = fun_ext λ a. fun_ext λ i.
    elim (Bool-cases ((a == table) && (i == idx))) [
      | inl here ↦
          let no_huge : is_huge dir a i ≡ false = ground (arith, out) in rw (here, no_huge) refl
      | inr other ↦ rw other refl
    ]

masked-clear_table :
    (dir page : ℕ) (m : PageTables)
    → masked dir (clear_table page m) ≡ clear_table page (masked dir m)
unfolding masked clear_table
masked-clear_table dir page m = fun_ext λ a. fun_ext λ i. elim (Bool-cases (is_huge dir a i)) [
  | inl huge ↦ elim (Bool-cases (a == page)) [
    | inl e ↦ rw (huge, e) refl
    | inr e ↦ rw (huge, e) refl
  ]
  | inr out ↦ rw out refl
]

-- The entry of a new table, and of a page.
abbrev table_entry : ℕ → ℕ → PageTableEntry → PageTableEntry
table_entry page flags e = record e {
  present = 1;
  rw_bit = 1;
  user = flag flags page_user;
  frame = frame_of page;
}

abbrev page_entry : ℕ → ℕ → PageTableEntry → PageTableEntry
page_entry physical_addr flags e = record e {
  present = 1;
  rw_bit = flag flags page_writable;
  user = flag flags page_user;
  frame = frame_of physical_addr;
}

masked-link_table :
    (dir page table idx flags : ℕ) (m : PageTables)
    → is_huge dir table idx ≡ false
    → masked dir (link_table page table idx flags m)
      ≡ link_table page table idx flags (masked dir m)
unfolding link_table
masked-link_table dir page table idx flags m out =
    let cleared = masked-clear_table dir page m in
    let e = clear_table page m table idx in
    let same_entry : e ≡ clear_table page (masked dir m) table idx =
      sym (masked_at dir table idx (clear_table page m) out) ∙ ap (λ t. t table idx) cleared in
    masked-set_entry dir table idx (table_entry page flags e) (clear_table page m) out
    ∙ ap (set_entry table idx (table_entry page flags e)) cleared
    ∙ ap (λ x. set_entry table idx (table_entry page flags x) (clear_table page (masked dir m)))
        same_entry

without_huge-ensure_entry :
    (dir table idx flags : ℕ) (s : Paging)
    → is_huge dir table idx ≡ false
    → without_huge dir (ensure_entry table idx flags s)
      ≡ ensure_entry table idx flags (without_huge dir s)
unfolding ensure_entry
without_huge-ensure_entry dir table idx flags s out =
    let page = (alloc_page s.pmm).0 in
    let same : (masked dir s.tables table idx).present == 0 ≡ ((s.tables table idx).present == 0) =
      ap (λ e. e.present == 0) (masked_at dir table idx s.tables out) in
    elim (Bool-cases ((s.tables table idx).present == 0)) [
      | inl absent ↦
          rw (same, absent)
            (ap (λ (t : PageTables). record s { tables = t; pmm = (alloc_page s.pmm).1 })
              (masked-link_table dir page table idx flags s.tables out))
      | inr there ↦ rw (same, there) refl
    ]

without_huge-set_mapping :
    (dir pt idx physical_addr flags : ℕ) (s : Paging)
    → is_huge dir pt idx ≡ false
    → without_huge dir (set_mapping pt idx physical_addr flags s)
      ≡ set_mapping pt idx physical_addr flags (without_huge dir s)
unfolding set_mapping
without_huge-set_mapping dir pt idx physical_addr flags s out =
    ap (λ (t : PageTables). record s { tables = t })
      (masked-set_entry dir pt idx (page_entry physical_addr flags (s.tables pt idx)) s.tables out
        ∙ ap (λ x. set_entry pt idx (page_entry physical_addr flags x) (masked dir s.tables))
            (sym (masked_at dir pt idx s.tables out)))

without_huge-clear_mapping :
    (dir pt idx : ℕ) (s : Paging)
    → is_huge dir pt idx ≡ false
    → without_huge dir (clear_mapping pt idx s) ≡ clear_mapping pt idx (without_huge dir s)
unfolding clear_mapping
without_huge-clear_mapping dir pt idx s out =
    ap (λ (t : PageTables). record s { tables = t })
      (masked-set_entry dir pt idx (record (s.tables pt idx) { present = 0 }) s.tables out
        ∙ ap
            (λ (x : PageTableEntry).
              set_entry pt idx (record x { present = 0 }) (masked dir s.tables))
            (sym (masked_at dir pt idx s.tables out)))

-- The directory with the huge pages is of level 2, and the address is beside them.
module _ (dir va : ℕ) (beside : 16 ≤ pd_index va) where
  not_huge :
      (n table : ℕ) (level : ℕ → ℕ)
      → level dir ≡ 2
      → level table ≡ suc n
      → is_huge dir table (index (suc n) va) ≡ false
  not_huge n table level deep at = elim (Bool-cases (table == dir)) [
    | inl same ↦
        let e : table ≡ dir = ==→eq table dir same in
        let second : n ≡ 1 = omega (arith, ap level e) in
        let high : ltb (index (suc n) va) 16 ≡ false =
          ap (λ k. ltb (index (suc k) va) 16) second ∙ ground arith in
        rw (same, high) refl
    | inr other ↦ rw other refl
  ]

  next_table-without_huge :
      (table idx : ℕ) (s t : Paging)
      → without_huge dir s ≡ t
      → is_huge dir table idx ≡ false
      → next_table s table idx ≡ next_table t table idx
  next_table-without_huge table idx s t same out =
      ap (λ e. frame_address e.frame) (sym (masked_at dir table idx s.tables out))
      ∙ ap (λ (x : Paging). next_table x table idx) same

  pub without_huge-map_from :
      (pa flags n table : ℕ) (level : ℕ → ℕ) (s t : Paging)
      → without_huge dir s ≡ t
      → IsTree t.tables t.pmm level
      → Invariant.IsValid t.pmm
      → t.pmm.used_pages + n ≤ t.pmm.total_pages
      → level dir ≡ 2
      → level table ≡ suc n
      → without_huge dir (map_from n table va pa flags s) ≡ map_from n table va pa flags t
  unfolding map_from
  without_huge-map_from pa flags zero table level s t same tree v room deep at =
      without_huge-set_mapping dir table (index 1 va) pa flags s (not_huge 0 table level deep at)
      ∙ ap (set_mapping table (index 1 va) pa flags) same
  without_huge-map_from pa flags (suc n) table level s t same tree v room deep at =
      let idx = index (suc (suc n)) va in
      let out = not_huge (suc n) table level deep at in
      let s1 = ensure_entry table idx flags s in
      let t1 = ensure_entry table idx flags t in
      let same1 : without_huge dir s1 ≡ t1 =
        without_huge-ensure_entry dir table idx flags s out
        ∙ ap (ensure_entry table idx flags) same in
      let (level', e) = ensure_entry-Ensured table idx flags n level t tree v (omega arith) at in
      let child_at = e.tree.down table idx n (e.same_level table (omega arith) ∙ at) e.there in
      ap (λ c. without_huge dir (map_from n c va pa flags s1))
        (next_table-without_huge table idx s1 t1 same1 out)
      ∙ without_huge-map_from pa flags n (next_table t1 table idx) level' s1 t1 same1 e.tree e.valid
          (omega (arith, e.few, e.same_total)) (e.same_level dir (omega arith) ∙ deep) child_at

  pub without_huge-unmap_from :
      (n table : ℕ) (level : ℕ → ℕ) (s t : Paging)
      → without_huge dir s ≡ t
      → IsTree t.tables t.pmm level
      → level dir ≡ 2
      → level table ≡ suc n
      → without_huge dir (unmap_from n table va s) ≡ unmap_from n table va t
  unfolding unmap_from
  without_huge-unmap_from zero table level s t same tree deep at =
      without_huge-clear_mapping dir table (index 1 va) s (not_huge 0 table level deep at)
      ∙ ap (clear_mapping table (index 1 va)) same
  without_huge-unmap_from (suc n) table level s t same tree deep at =
      let idx = index (suc (suc n)) va in
      let out = not_huge (suc n) table level deep at in
      let entry : s.tables table idx ≡ t.tables table idx =
        sym (masked_at dir table idx s.tables out) ∙ ap (λ (x : Paging). x.tables table idx) same in
      let test = ap (λ e. e.present == 0) entry in
      elim (Bool-cases ((t.tables table idx).present == 0)) [
        | inl absent ↦ rw (test, absent) same
        | inr here ↦
            let there = ==_false→ne (t.tables table idx).present 0 here in
            rw (test, here)
              (ap (λ c. without_huge dir (unmap_from n c va s))
                  (next_table-without_huge table idx s t same out)
                ∙ without_huge-unmap_from n (next_table t table idx) level s t same tree deep
                    (tree.down table idx n at there))
      ]

  pub lookup-masked :
      (n table : ℕ) (level : ℕ → ℕ) (m : PageTables) {pmm : Pmm}
      → IsTree (masked dir m) pmm level
      → level dir ≡ 2
      → level table ≡ suc n
      → lookup (suc n) m table va ≡ lookup (suc n) (masked dir m) table va
  unfolding lookup
  lookup-masked zero table level m tree deep at =
      lookup_step 0 (masked dir m) m table (index 1 va) va refl
        (sym (masked_at dir table (index 1 va) m (not_huge 0 table level deep at))) (λ there. refl)
  lookup-masked (suc n) table level m tree deep at =
      let idx = index (suc (suc n)) va in
      lookup_step (suc n) (masked dir m) m table idx va refl
        (sym (masked_at dir table idx m (not_huge (suc n) table level deep at)))
        (λ there.
          lookup-masked n (frame_address (masked dir m table idx).frame) level m tree deep
            (tree.down table idx n at there))
