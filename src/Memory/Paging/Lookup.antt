-- ===== src/Memory/Paging/Lookup.antt =====
-- Lookups in the tables of kernel/memory/paging.c when entries change.
use os_ax.Base.{
  ℕ, suc, ◌<◌, ◌≡◌, ◌≢◌, refl, sym, ap, ◌∙◌, inl, inr, true, ◌&&◌, arith, ◌==◌, none, Bool-cases,
  ==→eq, ==_false→ne,
}
use os_ax.Memory.Physical.{Pmm}
use os_ax.Memory.Paging.Tables.{PageTables, Paging, frame_address, next_table}
use os_ax.Memory.Paging.Walk.{index, through, through_ext, through_absent, through_there, lookup}
use os_ax.Memory.Paging.Tree.{IsTree, lookup_frame}
use os_ax.Memory.Paging.Link.{true-false}
use os_ax.Memory.Paging.Ensure.{Ensured}

-- A table without entries leads nowhere.
lookup_empty :
    (n : ℕ) (m : PageTables) (table va : ℕ)
    → ((j : ℕ) → (m table j).present ≡ 0)
    → lookup (suc n) m table va ≡ none
unfolding lookup
lookup_empty n m table va empty =
    through_absent (m table (index (suc n) va)) (λ next. lookup n m next va)
      (empty (index (suc n) va))

-- A step of a lookup through an entry that two memories share.
pub lookup_step :
    (n : ℕ) (m m' : PageTables) (b j va : ℕ)
    → index (suc n) va ≡ j
    → m' b j ≡ m b j
    → ((m b j).present ≢ 0
        → lookup n m' (frame_address (m b j).frame) va
          ≡ lookup n m (frame_address (m b j).frame) va)
    → lookup (suc n) m' b va ≡ lookup (suc n) m b va
unfolding lookup
lookup_step n m m' b j va at same rest =
    ap (λ i. through (m' b i) (λ next. lookup n m' next va)) at
    ∙ ap (λ e. through e (λ next. lookup n m' next va)) same
    ∙ through_ext (m b j) (λ next. lookup n m' next va) (λ next. lookup n m next va) rest
    ∙ ap (λ i. through (m b i) (λ next. lookup n m next va)) (sym at)

pub lookup_there :
    (n : ℕ) (m : PageTables) (b j va : ℕ)
    → index (suc n) va ≡ j
    → (m b j).present ≢ 0
    → lookup (suc n) m b va ≡ lookup n m (frame_address (m b j).frame) va
unfolding lookup
lookup_there n m b j va at there =
    ap (λ i. through (m b i) (λ next. lookup n m next va)) at
    ∙ through_there (m b j) (λ next. lookup n m next va) there

pub lookup_absent :
    (n : ℕ) (m : PageTables) (b j va : ℕ)
    → index (suc n) va ≡ j
    → (m b j).present ≡ 0
    → lookup (suc n) m b va ≡ none
unfolding lookup
lookup_absent n m b j va at absent =
    ap (λ i. through (m b i) (λ next. lookup n m next va)) at
    ∙ through_absent (m b j) (λ next. lookup n m next va) absent

-- A tree whose tables of levels above 1 are kept is a tree.
pub IsTree-leaves :
    {m : PageTables} {pmm : Pmm} {level : ℕ → ℕ} (m' : PageTables)
    → IsTree m pmm level
    → ((a i : ℕ) → 1 < level a → m' a i ≡ m a i)
    → IsTree m' pmm level
IsTree-leaves {m} {pmm} {level} m' tree same = record {
  aligned = tree.aligned;
  in_use = tree.in_use;
  down = λ a i n deep there.
      let e = same a i (omega arith) in
      ap (λ x. level (frame_address x.frame)) e
      ∙ tree.down a i n deep (λ z. there (ap (λ x. x.present) e ∙ z));
  apart = λ a i b j da db ta tb eq.
      let ea = same a i da in
      let eb = same b j db in
      tree.apart a i b j da db (λ z. ta (ap (λ x. x.present) ea ∙ z))
        (λ z. tb (ap (λ x. x.present) eb ∙ z))
        (sym (ap (λ x. frame_address x.frame) ea) ∙ eq ∙ ap (λ x. frame_address x.frame) eb);
}

pub both_true : (a b i j : ℕ) → (a ≡ b) × (i ≡ j) → ((a == b) && (i == j)) ≡ true
both_true a b i j e = ground arith

lookup_at_entry :
    {table idx n b : ℕ} {level level' : ℕ → ℕ} {s s' : Paging} (va : ℕ)
    → index (suc (suc n)) va ≡ idx
    → Ensured table idx n level level' s s'
    → b ≡ table
    → lookup (suc (suc n)) s'.tables b va ≡ lookup (suc (suc n)) s.tables b va
lookup_at_entry {table} {idx} {n} {b} {level} {level'} {s} {s'} va at e is_table =
    elim (Bool-cases ((s.tables table idx).present == 0)) [
      | inl absent ↦
          let none_before : (s.tables table idx).present ≡ 0 =
            ==→eq (s.tables table idx).present 0 absent in
          ap (λ t. lookup (suc (suc n)) s'.tables t va) is_table
          ∙ lookup_there (suc n) s'.tables table idx va at e.there
          ∙ lookup_empty n s'.tables (next_table s' table idx) va (e.new none_before)
          ∙ sym (lookup_absent (suc n) s.tables table idx va at none_before)
          ∙ ap (λ t. lookup (suc (suc n)) s.tables t va) (sym is_table)
      | inr there ↦
          ap (λ x. lookup (suc (suc n)) x.tables b va)
            (e.old (==_false→ne (s.tables table idx).present 0 there))
    ]

-- The new table is empty, so giving an entry a table maps nothing and unmaps nothing.
pub ensure_entry-lookup :
    {table idx n : ℕ} {level level' : ℕ → ℕ} {s s' : Paging} (b va : ℕ)
    → IsTree s.tables s.pmm level
    → level table ≡ suc (suc n)
    → Ensured table idx n level level' s s'
    → level b ≡ suc (suc n)
    → lookup (suc (suc n)) s'.tables b va ≡ lookup (suc (suc n)) s.tables b va
ensure_entry-lookup {table} {idx} {n} {level} {level'} {s} {s'} b va tree at e depth =
    let j = index (suc (suc n)) va in
    elim (Bool-cases ((b == table) && (j == idx))) [
      | inl both ↦
          let is_table : b ≡ table = ground arith in
          let is_idx : j ≡ idx = ground arith in lookup_at_entry va is_idx e is_table
      | inr out ↦
          lookup_step (suc n) s.tables s'.tables b j va refl
            (e.others b j (omega arith)
              (λ both. true-false (sym (both_true b table j idx both) ∙ out)))
            (λ there.
              lookup_frame n (frame_address (s.tables b j).frame) va tree
                (tree.down b j n depth there)
                (λ a i pos low. e.others a i pos (λ both. absurd (omega (arith, ap level both.0)))))
    ]
