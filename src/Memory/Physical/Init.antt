-- ===== src/Memory/Physical/Init.antt =====
-- `physical_mm_init` of kernel/memory/physical_mm.c.
use os_ax.Base.{
  ℕ, zero, suc, ◌+◌, ◌*◌, ◌/◌, ◌%◌, ◌^◌, ◌≤◌, ◌<◌, ◌≡◌, refl, sym, ap, ◌∙◌, Bool, true, false, inl,
  inr, List, arith, ◌==◌, ltb, leb, ◌&&◌, ◌||◌, if◌then◌else◌, Bool-cases, not-leb→lt, length,
  get_or, set, length-set, get_or-set, get_or_beyond,
}
use os_ax.Base.Bits.{bit-zero}
use os_ax.Base.Count.{count}
use os_ax.Base.Words.{u32, page_align_up, page_align_up_lem}
use os_ax.Memory.Physical.{
  Pmm, page_bit, mark_page_used, mark_range, clear_words, physical_mm_clear, reserved_pages,
  physical_mm_init, dma_start_page, dma_end_page,
}
use os_ax.Memory.Physical.View.{page_used, page_bit-page_used, page_used-set_page}
use os_ax.Memory.Physical.Invariant.{IsValid, inside, set_page-IsValid, total_pages-set_page}

-- `t` is `s` with the pages of `[i, i + n)` that exist in use as well.
pub record Marked (s : Pmm) (i n : ℕ) (t : Pmm) : Type 0 where
  pub view :
      (j : ℕ)
      → j < s.total_pages
      → page_used t j ≡ (if leb i j && ltb j (i + n) then true else page_used s j)
  pub same_total : t.total_pages ≡ s.total_pages
  pub valid : IsValid t

mark_page_used_lem : {s : Pmm} (i : ℕ) → IsValid s → Marked s i 1 (mark_page_used s i)
unfolding mark_page_used
mark_page_used_lem {s} i v = elim (Bool-cases (leb s.total_pages i)) [
  | inl beyond ↦ rw beyond (record { view = λ j h. ground arith; same_total = refl; valid = v })
  | inr below ↦ rw below (elim (Bool-cases (page_bit s i == 0)) [
    | inl free ↦ rw free (record {
      view =
          λ j h. rw (page_used-set_page s i j (inside i v (not-leb→lt _ _ below))) (ground arith);
      same_total = total_pages-set_page s i;
      valid = set_page-IsValid i v (not-leb→lt _ _ below) (ground (arith, page_bit-page_used s i));
    })
    | inr used ↦ rw used (record {
      view = λ j h. ground (arith, page_bit-page_used s i, same j);
      same_total = refl;
      valid = v;
    })
  ])
]
  where
    same : (j : ℕ) → i ≡ j → page_used s i ≡ page_used s j
    same j e = ap (page_used s) e

mark_range_lem : (n i : ℕ) (s : Pmm) → IsValid s → Marked s i n (mark_range n i s)
unfolding mark_range
mark_range_lem zero i s v = record { view = λ j h. ground arith; same_total = refl; valid = v }
mark_range_lem (suc n) i s v =
    let one = mark_page_used_lem i v in
    let rest = mark_range_lem n (i + 1) (mark_page_used s i) one.valid in
    record {
      view = λ j h. ground (arith, rest.view j, one.view j, one.same_total);
      same_total = rest.same_total ∙ one.same_total;
      valid = rest.valid;
    }

-- Clearing the words `[i, i + n)`.
length-clear_words : (n i : ℕ) (words : List ℕ) → length (clear_words n i words) ≡ length words
unfolding clear_words
length-clear_words zero i words = refl
length-clear_words (suc n) i words =
    length-clear_words n (i + 1) (set words i 0) ∙ length-set words i 0

get_or-clear_words :
    (n i : ℕ) (words : List ℕ) (j : ℕ)
    → i + n ≤ length words
    → get_or (clear_words n i words) j 0
      ≡ (if leb i j && ltb j (i + n) then 0 else get_or words j 0)
unfolding clear_words
get_or-clear_words zero i words j h = ground arith
get_or-clear_words (suc n) i words j h = ground (
  arith,
  get_or-clear_words n (i + 1) (set words i 0) j,
  length-set words i 0,
  get_or-set words i j 0 0,
)

count_none : (p : ℕ → Bool) (n : ℕ) → ((j : ℕ) → p j ≡ false) → count p n ≡ 0
unfolding count
count_none p zero h = refl
count_none p (suc n) h = ground (arith, h n, count_none p n h)

-- What `physical_mm_init` needs: at most 4 GB, the bitmap's memory, and room for it below 4 GB.
pub record Bootable (bss_end mem_mb : ℕ) (words : List ℕ) : Type 0 where
  pub memory : mem_mb ≤ 4096
  pub storage : length words ≡ mem_mb * 8
  pub room : bss_end + mem_mb * 32 + 8192 < 2 ^ 32

module _ {bss_end mem_mb : ℕ} {words : List ℕ} (boot : Bootable bss_end mem_mb words) where
  abbrev cleared : Pmm
  cleared = physical_mm_clear bss_end mem_mb words

  total_pages-cleared : cleared.total_pages ≡ mem_mb * 256
  unfolding physical_mm_clear
  total_pages-cleared = omega (arith, boot.memory)

  word-cleared : (k : ℕ) → get_or cleared.bitmap k 0 ≡ 0
  unfolding physical_mm_clear
  word-cleared k =
      let size : u32 (u32 (mem_mb * 256) + 31) / 32 ≡ length words =
        omega (arith, boot.memory, boot.storage) in
      rw size (ground (arith, get_or-clear_words (length words) 0 words k, get_or_beyond words k 0))

  cleared-free : (j : ℕ) → page_used cleared j ≡ false
  unfolding page_used
  cleared-free j = rw word-cleared (bit-zero (j % 32))

  length-cleared : length cleared.bitmap ≡ mem_mb * 8
  unfolding physical_mm_clear
  length-cleared = length-clear_words (u32 (u32 (mem_mb * 256) + 31) / 32) 0 words ∙ boot.storage

  used-cleared : cleared.used_pages ≡ 0
  unfolding physical_mm_clear
  used-cleared = refl

  cleared-IsValid : IsValid cleared
  cleared-IsValid = record {
    covered = omega (arith, total_pages-cleared, length-cleared);
    small = omega (arith, total_pages-cleared, boot.memory);
    counted = used-cleared ∙ sym (count_none (page_used cleared) cleared.total_pages cleared-free);
  }

  -- The pages under the kernel image, which ends at `bss_end`, and the bitmap behind it.
  pub reserved_pages_lem :
      reserved_pages cleared ≡ ((bss_end + 4095) / 4096 * 4096 + mem_mb * 32 + 4095) / 4096
  unfolding physical_mm_clear reserved_pages
  reserved_pages_lem =
      let base = page_align_up_lem bss_end (omega (arith, boot.room)) in
      let end : u32 (page_align_up bss_end + u32 (u32 (u32 (mem_mb * 256) + 31) / 32 * 4))
          ≡ (bss_end + 4095) / 4096 * 4096 + mem_mb * 32 =
        omega (arith, base, boot.room, boot.memory) in
      rw
        (
          end,
          page_align_up_lem ((bss_end + 4095) / 4096 * 4096 + mem_mb * 32)
              (omega (arith, boot.room)),
        )
        (omega arith)

  -- `physical_mm_init` leaves in use exactly the pages up to the end of the bitmap and those of
  -- the DMA region, as far as they exist, whatever the bitmap's memory held.
  pub physical_mm_init_lem :
      IsValid (physical_mm_init bss_end mem_mb words)
      × ((j : ℕ)
          → j < mem_mb * 256
          → page_used (physical_mm_init bss_end mem_mb words) j ≡ (
              ltb j (((bss_end + 4095) / 4096 * 4096 + mem_mb * 32 + 4095) / 4096)
              || leb dma_start_page j && ltb j dma_end_page))
  unfolding physical_mm_init
  physical_mm_init_lem =
      let low = mark_range_lem (reserved_pages cleared) 0 cleared cleared-IsValid in
      let marked = mark_range (reserved_pages cleared) 0 cleared in
      let all = mark_range_lem 144 dma_start_page marked low.valid in
      (
        all.valid,
        λ j h. ground (
          arith,
          all.view j,
          low.view j,
          low.same_total,
          total_pages-cleared,
          reserved_pages_lem,
          cleared-free j,
        ),
      )
