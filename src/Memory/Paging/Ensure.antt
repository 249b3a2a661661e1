-- ===== src/Memory/Paging/Ensure.antt =====
-- What giving an entry a table of its own does to the tree of kernel/memory/paging.c.
use os_ax.Base.{
  ℕ, suc, ◌+◌, ◌≤◌, ◌<◌, ◌≡◌, ◌≢◌, refl, sym, ap, ◌∙◌, inl, inr, arith, ◌==◌, Bool-cases, ==→eq,
  ==_false→ne,
}
use os_ax.Memory.Physical.{Pmm, alloc_page}
use os_ax.Memory.Physical.Invariant.{IsValid}
use os_ax.Memory.Paging.Tables.{Paging, link_table, ensure_entry, next_table}
use os_ax.Memory.Paging.Pages.{TakesPage, alloc_page-TakesPage}
use os_ax.Memory.Paging.Link.{
  with_page, is_new, level_old, child, entry_else, new-IsTree, link_table_at, link_table_page,
}
use os_ax.Memory.Paging.Tree.{IsTree}

pub one_zero : ◌≡◌ {A = ℕ} 1 0 → ⊥
one_zero e = absurd (omega arith)

-- The entry leads to a table of level `n + 1` after it; all other entries of tables are as they
-- were, and so is everything when the entry was present before.
pub record Ensured (table idx n : ℕ) (level level' : ℕ → ℕ) (s s' : Paging) : Type 0 where
  pub tree : IsTree s'.tables s'.pmm level'
  pub same_level : (a : ℕ) → 0 < level a → level' a ≡ level a
  pub there : (s'.tables table idx).present ≢ 0
  pub others :
      (a j : ℕ) → 0 < level a → ((a ≡ table) × (j ≡ idx) → ⊥) → s'.tables a j ≡ s.tables a j
  pub old : (s.tables table idx).present ≢ 0 → s' ≡ s
  pub new :
      (s.tables table idx).present ≡ 0
      → (j : ℕ) → (s'.tables (next_table s' table idx) j).present ≡ 0
  pub valid : IsValid s'.pmm
  pub few : s'.pmm.used_pages ≤ s.pmm.used_pages + 1
  pub same_total : s'.pmm.total_pages ≡ s.pmm.total_pages
  pub same_dir : s'.kernel_page_dir ≡ s.kernel_page_dir

pub Ensured-old :
    {table idx n : ℕ} {level : ℕ → ℕ} {s : Paging}
    → IsTree s.tables s.pmm level
    → IsValid s.pmm
    → (s.tables table idx).present ≢ 0
    → Ensured table idx n level level s s
Ensured-old tree v there = record {
  tree = tree;
  same_level = λ a pos. refl;
  there = there;
  others = λ a j pos out. refl;
  old = λ h. refl;
  new = λ absent. absurd (there absent);
  valid = v;
  few = omega arith;
  same_total = refl;
  same_dir = refl;
}

-- An entry that was absent gets a table.
Ensured-new :
    (table idx flags n page : ℕ) (level : ℕ → ℕ) (s : Paging) (pmm : Pmm)
    → IsTree s.tables s.pmm level
    → level table ≡ suc (suc n)
    → (s.tables table idx).present ≡ 0
    → TakesPage s.pmm pmm page
    → Ensured table idx n level
        (with_page page n level)
        s
        (record s { tables = link_table page table idx flags s.tables; pmm = pmm })
Ensured-new table idx flags n page level s pmm tree at absent takes =
    let root_new = is_new table idx flags n page level s.tables s.pmm pmm tree at absent takes in
    let filled =
      link_table_at page table idx flags s.tables (link_table page table idx flags s.tables) refl in
    record {
      tree = new-IsTree table idx flags n page level s.tables s.pmm pmm tree at absent takes;
      same_level = λ a pos.
          level_old table idx flags n page level s.tables s.pmm pmm tree at absent takes a
            (root_new a pos);
      there = λ z. one_zero (sym filled.0 ∙ z);
      others = λ a j pos out.
          entry_else table idx flags n page level s.tables s.pmm pmm tree at absent takes a j pos
            out;
      old = λ there. absurd (there absent);
      new = λ absent' j.
          ap (λ t. (link_table page table idx flags s.tables t j).present)
            (child table idx flags n page level s.tables s.pmm pmm tree at absent takes)
          ∙ link_table_page page table idx flags s.tables j
              (λ same. root_new table (omega arith) (sym same));
      valid = takes.valid;
      few = omega (arith, takes.one_more);
      same_total = takes.same_total;
      same_dir = refl;
    }

-- With a page left, `ensure_entry` gives a tree in which the entry leads on.
pub ensure_entry-Ensured :
    (table idx flags n : ℕ) (level : ℕ → ℕ) (s : Paging)
    → IsTree s.tables s.pmm level
    → IsValid s.pmm
    → s.pmm.used_pages < s.pmm.total_pages
    → level table ≡ suc (suc n)
    → (level' : ℕ → ℕ) × Ensured table idx n level level' s (ensure_entry table idx flags s)
unfolding ensure_entry
ensure_entry-Ensured table idx flags n level s tree v room at =
    elim (Bool-cases ((s.tables table idx).present == 0)) [
      | inl absent ↦
          let page = (alloc_page s.pmm).0 in
          simp absent (
            with_page page n level,
            Ensured-new table idx flags n page level s (alloc_page s.pmm).1 tree at
                (==→eq (s.tables table idx).present 0 absent) (alloc_page-TakesPage v room),
          )
      | inr there ↦
          simp there (level, Ensured-old tree v (==_false→ne (s.tables table idx).present 0 there))
    ]
