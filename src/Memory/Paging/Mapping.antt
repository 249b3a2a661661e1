-- ===== src/Memory/Paging/Mapping.antt =====
-- What `map_page` of kernel/memory/paging.c does to the addresses that are mapped.
use os_ax.Base.{
  ℕ, zero, suc, ◌+◌, ◌≤◌, ◌<◌, ◌≡◌, ◌≢◌, refl, sym, ap, ◌∙◌, inl, inr, ◌&&◌, arith, ◌==◌, Option,
  none, some, Bool-cases, ==→eq, ==_false→ne, ==_refl,
}
use os_ax.Memory.Physical.Invariant.{IsValid}
use os_ax.Memory.Paging.Tables.{
  PageTableEntry, PageTables, Paging, frame_address, frame_of, set_entry, ensure_entry, next_table,
  set_mapping, clear_mapping,
}
use os_ax.Memory.Paging.Walk.{index, through, lookup, map_from, unmap_from}
use os_ax.Memory.Paging.Tree.{IsTree}
use os_ax.Memory.Paging.Link.{true-false}
use os_ax.Memory.Paging.Lookup.{
  both_true, lookup_step, lookup_there, lookup_absent, IsTree-leaves, ensure_entry-lookup,
}
use os_ax.Memory.Paging.Ensure.{Ensured, Ensured-old, ensure_entry-Ensured}

-- Two addresses that take the same way through `n` levels.
abbrev pub SameIndices : ℕ → ℕ → ℕ → Type 0
SameIndices zero a b = Unit {0}
SameIndices (suc n) a b = (index (suc n) a ≡ index (suc n) b) × SameIndices n a b

-- The page of one address, below a table of level `n + 1`, leads to `target` after it; all other addresses lead to where they led, from that table and from all others of its level.
pub record Mapped (n table va : ℕ) (target : Option ℕ) (level level' : ℕ → ℕ) (s s' : Paging)
    : Type 0 where
  pub tree : IsTree s'.tables s'.pmm level'
  pub same_level : (a : ℕ) → 0 < level a → level' a ≡ level a
  pub found : lookup (suc n) s'.tables table va ≡ target
  pub others :
      (va' : ℕ)
      → (SameIndices (suc n) va va' → ⊥)
      → lookup (suc n) s'.tables table va' ≡ lookup (suc n) s.tables table va'
  pub siblings :
      (b va' : ℕ)
      → level b ≡ suc n
      → b ≢ table
      → lookup (suc n) s'.tables b va' ≡ lookup (suc n) s.tables b va'
  pub above : (b j : ℕ) → suc n < level b → s'.tables b j ≡ s.tables b j
  pub valid : IsValid s'.pmm
  pub few : s'.pmm.used_pages ≤ s.pmm.used_pages + n
  pub same_total : s'.pmm.total_pages ≡ s.pmm.total_pages
  pub same_dir : s'.kernel_page_dir ≡ s.kernel_page_dir

set_entry_at :
    (table idx : ℕ) (e : PageTableEntry) (m : PageTables) → set_entry table idx e m table idx ≡ e
unfolding set_entry
set_entry_at table idx e m = simp ==_refl refl

set_entry_else :
    (table idx a j : ℕ) (e : PageTableEntry) (m : PageTables)
    → ((a ≡ table) × (j ≡ idx) → ⊥)
    → set_entry table idx e m a j ≡ m a j
unfolding set_entry
set_entry_else table idx a j e m out = elim (Bool-cases ((a == table) && (j == idx))) [
  | inl both ↦ absurd (out (ground arith))
  | inr no_match ↦ simp no_match refl
]

module _ (va : ℕ) (target : Option ℕ) where
  -- The entry of the last level.
  leaf-Mapped :
      (table : ℕ) (level : ℕ → ℕ) (e : PageTableEntry) (s : Paging)
      → IsTree s.tables s.pmm level
      → IsValid s.pmm
      → level table ≡ 1
      → through e some ≡ target
      → Mapped 0 table va target level level s
          (record s { tables = set_entry table (index 1 va) e s.tables })
  unfolding lookup
  leaf-Mapped table level e s tree v at leads =
      let idx = index 1 va in
      let m' = set_entry table idx e s.tables in
      let else_same : (a j : ℕ) → ((a ≡ table) × (j ≡ idx) → ⊥) → m' a j ≡ s.tables a j =
        λ a j out. set_entry_else table idx a j e s.tables out in
      record {
        tree =
            IsTree-leaves m' tree
              (λ a i deep. else_same a i (λ both. absurd (omega (arith, ap level both.0))));
        same_level = λ a pos. refl;
        found = ap (λ x. through x some) (set_entry_at table idx e s.tables) ∙ leads;
        others = λ va' differ.
            lookup_step 0 s.tables m' table (index 1 va') va' refl
              (else_same table (index 1 va') (λ both. differ (sym both.1, tt))) (λ there. refl);
        siblings = λ b va' depth apart.
            lookup_step 0 s.tables m' b (index 1 va') va' refl
              (else_same b (index 1 va') (λ both. apart both.0)) (λ there. refl);
        above = λ b j deep. else_same b j (λ both. absurd (omega (arith, ap level both.0)));
        valid = v;
        few = omega arith;
        same_total = refl;
        same_dir = refl;
      }

  -- From a table one level up, an address leads to where it led if it does below.
  lookup_elsewhere :
      (table n : ℕ) (level level' level'' : ℕ → ℕ) (s s1 s' : Paging)
      → IsTree s.tables s.pmm level
      → level table ≡ suc (suc n)
      → Ensured table (index (suc (suc n)) va) n level level' s s1
      → Mapped n (next_table s1 table (index (suc (suc n)) va)) va target level' level'' s1 s'
      → (b va' : ℕ) → level b ≡ suc (suc n)
      → (b ≡ table
          → index (suc (suc n)) va' ≡ index (suc (suc n)) va
          → lookup (suc n) s'.tables (next_table s1 table (index (suc (suc n)) va)) va'
            ≡ lookup (suc n) s1.tables (next_table s1 table (index (suc (suc n)) va)) va')
      → lookup (suc (suc n)) s'.tables b va' ≡ lookup (suc (suc n)) s.tables b va'
  lookup_elsewhere table n level level' level'' s s1 s' tree at e below b va' depth same =
      let idx = index (suc (suc n)) va in
      let j = index (suc (suc n)) va' in
      let depth' : level' b ≡ suc (suc n) = e.same_level b (omega arith) ∙ depth in
      let at' : level' table ≡ suc (suc n) = e.same_level table (omega arith) ∙ at in
      lookup_step (suc n) s1.tables s'.tables b j va' refl (below.above b j (omega arith)) (λ there.
        elim (Bool-cases ((b == table) && (j == idx))) [
          | inl both ↦
              let is_table : b ≡ table = ground arith in
              let is_idx : j ≡ idx = ground arith in
              let to_child : next_table s1 b j ≡ next_table s1 table idx =
                ap (λ t. next_table s1 t j) is_table ∙ ap (λ i. next_table s1 table i) is_idx in
              ap (λ t. lookup (suc n) s'.tables t va') to_child
              ∙ same is_table is_idx
              ∙ ap (λ t. lookup (suc n) s1.tables t va') (sym to_child)
          | inr out ↦
              below.siblings (next_table s1 b j) va' (e.tree.down b j n depth' there) (λ meet.
                true-false (
                  sym (
                    both_true b table j idx
                      (e.tree.apart b j table idx (omega arith) (omega arith) there e.there meet))
                  ∙ out))
        ])
      ∙ ensure_entry-lookup b va' tree at e depth

  -- One level up: the entry is given a table, and the rest is below that.
  map_step-Mapped :
      (table n : ℕ) (level level' level'' : ℕ → ℕ) (s s1 s' : Paging)
      → IsTree s.tables s.pmm level
      → level table ≡ suc (suc n)
      → Ensured table (index (suc (suc n)) va) n level level' s s1
      → Mapped n (next_table s1 table (index (suc (suc n)) va)) va target level' level'' s1 s'
      → Mapped (suc n) table va target level level'' s s'
  map_step-Mapped table n level level' level'' s s1 s' tree at e below =
      let idx = index (suc (suc n)) va in
      let child = next_table s1 table idx in
      let deep = λ (a k : ℕ) (h : level a ≡ suc k). e.same_level a (omega arith) ∙ h in
      let kept = λ (j : ℕ). below.above table j (omega (arith, deep table (suc n) at)) in
      record {
        tree = below.tree;
        same_level =
            λ a pos. below.same_level a (omega (arith, e.same_level a pos)) ∙ e.same_level a pos;
        found =
            lookup_there (suc n) s'.tables table idx va refl
              (λ z. e.there (ap (λ x. x.present) (sym (kept idx)) ∙ z))
            ∙ ap (λ x. lookup (suc n) s'.tables (frame_address x.frame) va) (kept idx)
            ∙ below.found;
        others = λ va' differ.
            lookup_elsewhere table n level level' level'' s s1 s' tree at e below table va' at
              (λ same_table same_idx. below.others va' (λ rest. differ (sym same_idx, rest)));
        siblings = λ b va' depth apart.
            lookup_elsewhere table n level level' level'' s s1 s' tree at e below b va' depth
              (λ same_table same_idx. absurd (apart same_table));
        above = λ b j high.
            below.above b j (omega (arith, e.same_level b (omega arith)))
            ∙ e.others b j (omega arith) (λ both. absurd (omega (arith, ap level both.0)));
        valid = below.valid;
        few = omega (arith, below.few, e.few);
        same_total = below.same_total ∙ e.same_total;
        same_dir = below.same_dir ∙ e.same_dir;
      }

-- `map_page` from a table of level `n + 1` on, while `n` pages are left.
pub map_from-Mapped :
    (va pa flags n table : ℕ) (level : ℕ → ℕ) (s : Paging)
    → IsTree s.tables s.pmm level
    → IsValid s.pmm
    → s.pmm.used_pages + n ≤ s.pmm.total_pages
    → level table ≡ suc n
    → (level' : ℕ → ℕ) × Mapped n table va
        (some (frame_address (frame_of pa)))
        level
        level'
        s
        (map_from n table va pa flags s)
unfolding map_from set_mapping through
map_from-Mapped va pa flags zero table level s tree v room at =
    (level, leaf-Mapped va _ table level _ s tree v at refl)
map_from-Mapped va pa flags (suc n) table level s tree v room at =
    let idx = index (suc (suc n)) va in
    let s1 = ensure_entry table idx flags s in
    let (level', e) = ensure_entry-Ensured table idx flags n level s tree v (omega arith) at in
    let child_at = e.tree.down table idx n (e.same_level table (omega arith) ∙ at) e.there in
    let (level'', below) =
      map_from-Mapped va pa flags n (next_table s1 table idx) level' s1 e.tree e.valid
        (omega (arith, e.few, e.same_total)) child_at in
    (level'', map_step-Mapped va _ table n level level' level'' s s1 _ tree at e below)

-- What changes nothing unmaps an address that leads nowhere.
none-Mapped :
    (va n table : ℕ) (level : ℕ → ℕ) (s : Paging)
    → IsTree s.tables s.pmm level
    → IsValid s.pmm
    → lookup (suc n) s.tables table va ≡ none
    → Mapped n table va none level level s s
none-Mapped va n table level s tree v nowhere = record {
  tree = tree;
  same_level = λ a pos. refl;
  found = nowhere;
  others = λ va' differ. refl;
  siblings = λ b va' depth apart. refl;
  above = λ b j deep. refl;
  valid = v;
  few = omega arith;
  same_total = refl;
  same_dir = refl;
}

-- `unmap_page` from a table of level `n + 1` on.
pub unmap_from-Mapped :
    (va n table : ℕ) (level : ℕ → ℕ) (s : Paging)
    → IsTree s.tables s.pmm level
    → IsValid s.pmm
    → level table ≡ suc n
    → Mapped n table va none level level s (unmap_from n table va s)
unfolding unmap_from clear_mapping through
unmap_from-Mapped va zero table level s tree v at =
    leaf-Mapped va none table level _ s tree v at refl
unmap_from-Mapped va (suc n) table level s tree v at =
    let idx = index (suc (suc n)) va in
    elim (Bool-cases ((s.tables table idx).present == 0)) [
      | inl absent ↦
          let nowhere =
            lookup_absent (suc n) s.tables table idx va refl
              (==→eq (s.tables table idx).present 0 absent) in
          simp absent (none-Mapped va (suc n) table level s tree v nowhere)
      | inr here ↦
          let there = ==_false→ne (s.tables table idx).present 0 here in
          let below =
            unmap_from-Mapped va n (next_table s table idx) level s tree v
              (tree.down table idx n at there) in
          simp here (
            map_step-Mapped va none table n level level level s s _ tree at
              (Ensured-old tree v there) below)
    ]
