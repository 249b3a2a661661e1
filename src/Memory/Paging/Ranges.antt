-- ===== src/Memory/Paging/Ranges.antt =====
-- The loop of `kmalloc_virtual` of kernel/memory/paging.c that maps the pages of a range.
use os_ax.Base.{ℕ, zero, suc, ◌+◌, ◌*◌, ◌%◌, ◌^◌, ◌≤◌, ◌<◌, ◌≡◌, ◌≢◌, refl, ap, ◌∙◌, arith}
use native.Mathlib.Decide.{ℕ_discrete}
use os_ax.Memory.Paging.Tables.{Paging, page_writable, pd_index, map_page, get_physical_address}
use os_ax.Memory.Paging.Virtual.{u64, map_pages}
use os_ax.Memory.Paging.Huge.{huge_end}
use os_ax.Memory.Paging.Addresses.{IsValid, page_of, map_page_lem}

-- Each page `k` of `[i, i + n)` of the range stands for page `k` of the physical range, and what
-- lies outside, and beside the huge pages, stands for what it stood for.
pub record Ranged (i n va pa : ℕ) (s s' : Paging) : Type 0 where
  pub valid : IsValid s'
  pub mapped : (k : ℕ) → i ≤ k → k < i + n → get_physical_address (va + k * 4096) s' ≡ pa + k * 4096
  pub others :
      (va' : ℕ)
      → 16 ≤ pd_index va'
      → ((k : ℕ) → i ≤ k → k < i + n → page_of va' ≢ page_of (va + k * 4096))
      → get_physical_address va' s' ≡ get_physical_address va' s

module _ (va pa : ℕ) (va_aligned : va % 4096 ≡ 0) (pa_aligned : pa % 4096 ≡ 0) where
  apart_pages :
      (i k : ℕ)
      → i < k
      → va + (k + 1) * 4096 ≤ 2 ^ 48
      → page_of (va + i * 4096) ≢ page_of (va + k * 4096)
  apart_pages i k lt room same = absurd (omega arith)

  pub map_pages-Ranged :
      (n i : ℕ) (s : Paging)
      → IsValid s
      → s.pmm.used_pages + 3 * n ≤ s.pmm.total_pages
      → huge_end ≤ va
      → va + (i + n) * 4096 ≤ 2 ^ 30
      → pa + (i + n) * 4096 ≤ 2 ^ 40
      → Ranged i n va pa s (map_pages n i va pa s)
  unfolding map_pages
  map_pages-Ranged zero i s v room over high low = record {
    valid = v;
    mapped = λ k lo hi. absurd (omega arith);
    others = λ va' beside out. refl;
  }
  map_pages-Ranged (suc n) i s v room over high low =
      let v_page : u64 (va + i * 4096) ≡ va + i * 4096 = omega arith in
      let p_page : u64 (pa + i * 4096) ≡ pa + i * 4096 = omega arith in
      let s1 = map_page s.kernel_page_dir (va + i * 4096) (pa + i * 4096) page_writable s in
      let m =
        map_page_lem (va + i * 4096) (pa + i * 4096) page_writable s v (omega arith) (omega arith)
          (omega arith) (omega arith) in
      let rest =
        map_pages-Ranged n (i + 1) s1 m.0 (omega (arith, m.3, m.4)) over (omega arith)
          (omega arith) in
      rw (v_page, p_page)
        (record {
          valid = rest.valid;
          mapped = λ k lo hi. elim (ℕ_discrete k i) [
            | yes is_i ↦
                ap (λ j. get_physical_address (va + j * 4096) (map_pages n (i + 1) va pa s1)) is_i
                ∙ rest.others (va + i * 4096) (omega arith)
                    (λ j above below. apart_pages i j (omega arith) (omega arith))
                ∙ m.1 (va + i * 4096) refl
                ∙ omega (arith, is_i)
            | no later ↦ rest.mapped k (omega arith) (omega arith)
          ];
          others = λ va' beside out.
              rest.others va' beside (λ k lo hi. out k (omega arith) (omega arith))
              ∙ m.2 va' beside (out i (omega arith) (omega arith));
        })
