-- ===== src/Memory/Paging/Link.antt =====
-- The tree of kernel/memory/paging.c with a new table.
use os_ax.Base.{
  ℕ, suc, ◌-◌, ◌/◌, ◌<◌, ◌≡◌, ◌≢◌, refl, sym, ap, ◌∙◌, inl, inr, true, false, ◌&&◌, arith, ◌==◌,
  if◌then◌else◌, Bool-cases, ne→==_false, ==_refl,
}
use native.Mathlib.Decide.{ℕ_discrete}
use os_ax.Memory.Physical.{Pmm}
use os_ax.Memory.Physical.View.{page_used}
use os_ax.Memory.Paging.Tables.{
  PageTables, frame_address, frame_of, clear_table, set_entry, link_table,
}
use os_ax.Memory.Paging.Pages.{TakesPage}
use os_ax.Memory.Paging.Tree.{IsTree}

-- The levels with a new table.
abbrev pub with_page : ℕ → ℕ → (ℕ → ℕ) → ℕ → ℕ
with_page page n level a = if a == page then suc n else level a

module _ (page table idx flags : ℕ) (m : PageTables) where
  pub link_table_at :
      (m' : PageTables)
      → m' ≡ link_table page table idx flags m
      → ((m' table idx).present ≡ 1) × ((m' table idx).frame ≡ frame_of page)
  unfolding link_table set_entry
  link_table_at m' e = rw e (simp ==_refl (refl, refl))

  pub link_table_page :
      (j : ℕ) → page ≢ table → (link_table page table idx flags m page j).present ≡ 0
  unfolding link_table set_entry clear_table
  link_table_page j ne = simp (ne→==_false page table ne, ==_refl) refl

  pub link_table_else :
      (a j : ℕ)
      → a ≢ page
      → ((a ≡ table) × (j ≡ idx) → ⊥)
      → link_table page table idx flags m a j ≡ m a j
  unfolding link_table set_entry clear_table
  link_table_else a j ne other = elim (Bool-cases ((a == table) && (j == idx))) [
    | inl both ↦ absurd (other (ground arith))
    | inr out ↦ simp (out, ne→==_false a page ne) refl
  ]

pub true-false : true ≡ false → ⊥
true-false e = cc

module _ (table idx flags n page : ℕ) (level : ℕ → ℕ) (m : PageTables) (old_pmm pmm : Pmm)
    (tree : IsTree m old_pmm level) (at : level table ≡ suc (suc n))
    (absent : (m table idx).present ≡ 0) (takes : TakesPage old_pmm pmm page) where
  abbrev pub linked : PageTables
  linked = link_table page table idx flags m

  -- A table is in use, so the page is none.
  pub is_new : (a : ℕ) → 0 < level a → a ≢ page
  is_new a pos same =
      let e : a / 4096 ≡ takes.number = omega (arith, takes.at, same) in
      true-false (sym (tree.in_use a pos) ∙ ap (page_used old_pmm) e ∙ takes.was_free)

  pub level_page : with_page page n level page ≡ suc n
  level_page = simp ==_refl refl

  pub level_old : (a : ℕ) → a ≢ page → with_page page n level a ≡ level a
  level_old a ne = simp (ne→==_false a page ne) refl

  pub child : frame_address (linked table idx).frame ≡ page
  child =
      ap frame_address (link_table_at page table idx flags m linked refl).1
      ∙ omega (arith, takes.at, takes.small)

  pub entry_else : (a j : ℕ) → 0 < level a → ((a ≡ table) × (j ≡ idx) → ⊥) → linked a j ≡ m a j
  entry_else a j pos out = link_table_else page table idx flags m a j (is_new a pos) out

  -- An entry of a table that is present is the new one or an old one.
  data Entry (a i : ℕ) : Type 0 where
    linked_entry : a ≡ table → i ≡ idx → Entry a i
    old_entry : a ≢ page → (m a i).present ≢ 0 → linked a i ≡ m a i → Entry a i

  entry : (a i : ℕ) → 0 < with_page page n level a → (linked a i).present ≢ 0 → Entry a i
  entry a i pos there = elim (ℕ_discrete a page) [
    | yes e ↦ absurd (
        there (
          ap (λ b. (linked b i).present) e
          ∙ link_table_page page table idx flags m i
              (λ same. is_new table (omega arith) (sym same))))
    | no ne ↦ elim (Bool-cases ((a == table) && (i == idx))) [
      | inl both ↦ linked_entry (ground arith) (ground arith)
      | inr out ↦
          let same : linked a i ≡ m a i =
            entry_else a i (omega (arith, level_old a ne))
              (λ both. true-false (sym (ground arith) ∙ out)) in
          old_entry ne (λ z. there (ap (λ e. e.present) same ∙ z)) same
    ]
  ]

  leads : (a i : ℕ) → 1 < level a → (m a i).present ≢ 0 → 0 < level (frame_address (m a i).frame)
  leads a i deep there =
      let e : level a ≡ suc (suc (level a - 2)) = omega arith in
      omega (arith, tree.down a i (level a - 2) e there)

  -- An old entry does not lead to the page.
  apart_new :
      (a i : ℕ)
      → 1 < level a
      → (m a i).present ≢ 0
      → frame_address (linked table idx).frame ≢ frame_address (m a i).frame
  apart_new a i deep there same =
      is_new (frame_address (m a i).frame) (leads a i deep there) (sym same ∙ child)

  same_frame :
      (a i : ℕ)
      → linked a i ≡ m a i
      → frame_address (linked a i).frame ≡ frame_address (m a i).frame
  same_frame a i e = ap (λ x. frame_address x.frame) e

  down_of :
      (a i k : ℕ)
      → with_page page n level a ≡ suc (suc k)
      → Entry a i
      → with_page page n level (frame_address (linked a i).frame) ≡ suc k
  down_of a i k deep (linked_entry is_table is_idx) =
      let same : frame_address (linked a i).frame ≡ page =
        ap (λ b. frame_address (linked b i).frame) is_table
        ∙ ap (λ j. frame_address (linked table j).frame) is_idx
        ∙ child in
      let depth : suc n ≡ suc k = omega (
        arith,
        ap (with_page page n level) is_table,
        level_old table (is_new table (omega arith)),
        at,
        deep,
      ) in
      ap (with_page page n level) same ∙ level_page ∙ depth
  down_of a i k deep (old_entry ne there same) =
      let below = tree.down a i k (sym (level_old a ne) ∙ deep) there in
      ap (with_page page n level) (same_frame a i same)
      ∙ level_old (frame_address (m a i).frame)
          (is_new (frame_address (m a i).frame) (omega (arith, below)))
      ∙ below

  apart_of :
      (a i b j : ℕ)
      → 1 < with_page page n level a
      → 1 < with_page page n level b
      → frame_address (linked a i).frame ≡ frame_address (linked b j).frame
      → Entry a i
      → Entry b j
      → (a ≡ b) × (i ≡ j)
  apart_of a i b j da db same (linked_entry ta ia) (linked_entry tb jb) = (ta ∙ sym tb, ia ∙ sym jb)
  apart_of a i b j da db same (linked_entry ta ia) (old_entry ne there old) = absurd (
      apart_new b j (omega (arith, level_old b ne)) there (
        ap (λ j. frame_address (linked table j).frame) (sym ia)
        ∙ ap (λ b. frame_address (linked b i).frame) (sym ta)
        ∙ same
        ∙ same_frame b j old))
  apart_of a i b j da db same (old_entry ne there old) (linked_entry tb jb) = absurd (
      apart_new a i (omega (arith, level_old a ne)) there (
        ap (λ i. frame_address (linked table i).frame) (sym jb)
        ∙ ap (λ b. frame_address (linked b j).frame) (sym tb)
        ∙ sym same
        ∙ same_frame a i old))
  apart_of a i b j da db same (old_entry na tha olda) (old_entry nb thb oldb) =
      tree.apart a i b j (omega (arith, level_old a na)) (omega (arith, level_old b nb)) tha thb
        (sym (same_frame a i olda) ∙ same ∙ same_frame b j oldb)

  pub new-IsTree : IsTree linked pmm (with_page page n level)
  new-IsTree = record {
    aligned = λ a pos. elim (ℕ_discrete a page) [
      | yes e ↦ omega (arith, takes.at, e)
      | no ne ↦ tree.aligned a (omega (arith, level_old a ne))
    ];
    in_use = λ a pos. elim (ℕ_discrete a page) [
      | yes e ↦
          let same : a / 4096 ≡ takes.number = omega (arith, takes.at, e) in
          ap (page_used pmm) same ∙ takes.now_used
      | no ne ↦ takes.kept (a / 4096) (tree.in_use a (omega (arith, level_old a ne)))
    ];
    down = λ a i k deep there. down_of a i k deep (entry a i (omega arith) there);
    apart = λ a i b j da db ta tb same.
        apart_of a i b j da db same (entry a i (omega arith) ta) (entry b j (omega arith) tb);
  }
