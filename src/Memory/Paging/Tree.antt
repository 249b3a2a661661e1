-- ===== src/Memory/Paging/Tree.antt =====
-- When the tables of kernel/memory/paging.c form a tree.
use os_ax.Base.{ℕ, zero, suc, ◌/◌, ◌%◌, ◌≤◌, ◌<◌, ◌≡◌, ◌≢◌, ap, ◌∙◌, true, arith}
use os_ax.Memory.Physical.{Pmm}
use os_ax.Memory.Physical.View.{page_used}
use os_ax.Memory.Paging.Tables.{PageTables, frame_address}
use os_ax.Memory.Paging.Walk.{index, through, through_ext, lookup}

-- `level` is 0 for a page that is no table, 1 for a table of the last level, 4 for the root. Tables
-- are pages in use, and no two entries lead to the same table.
pub record IsTree (m : PageTables) (pmm : Pmm) (level : ℕ → ℕ) : Type 0 where
  pub aligned : (a : ℕ) → 0 < level a → a % 4096 ≡ 0
  pub in_use : (a : ℕ) → 0 < level a → page_used pmm (a / 4096) ≡ true
  pub down :
      (a i n : ℕ)
      → level a ≡ suc (suc n)
      → (m a i).present ≢ 0
      → level (frame_address (m a i).frame) ≡ suc n
  pub apart :
      (a i b j : ℕ)
      → 1 < level a
      → 1 < level b
      → (m a i).present ≢ 0
      → (m b j).present ≢ 0
      → frame_address (m a i).frame ≡ frame_address (m b j).frame
      → (a ≡ b) × (i ≡ j)

-- A lookup from a table reads only tables of its level and those below.
pub lookup_frame :
    {m m' : PageTables} {pmm : Pmm} {level : ℕ → ℕ} (n b addr : ℕ)
    → IsTree m pmm level
    → level b ≡ suc n
    → ((a i : ℕ) → 0 < level a → level a ≤ suc n → m' a i ≡ m a i)
    → lookup (suc n) m' b addr ≡ lookup (suc n) m b addr
unfolding lookup
lookup_frame {m} {m'} zero b addr tree at same =
    ap (λ e. through e (λ next. lookup 0 m' next addr))
      (same b (index 1 addr) (omega arith) (omega arith))
lookup_frame {m} {m'} (suc n) b addr tree at same =
    let i = index (suc (suc n)) addr in
    ap (λ e. through e (λ next. lookup (suc n) m' next addr)) (same b i (omega arith) (omega arith))
    ∙ through_ext (m b i) (λ next. lookup (suc n) m' next addr) (λ next. lookup (suc n) m next addr)
        (λ there.
          lookup_frame n (frame_address (m b i).frame) addr tree (tree.down b i n at there)
            (λ a j pos below. same a j pos (omega arith)))
