-- ===== src/Memory/Physical/View.antt =====
-- The bitmap of kernel/memory/physical_mm.c as a set of used pages, and what one write of a word
-- does to it.
use Prim.Native.Nat.{bit_and, bit_or}
use os_ax.Base.{
  ℕ, ◌/◌, ◌%◌, ◌^◌, ◌<◌, ◌≡◌, ap, Bool, true, false, not, inl, inr, arith, ◌==◌, if◌then◌else◌,
  Bool-cases, length, get_or, get_or-set, ==→eq,
}
use os_ax.Base.Bits.{bit, bit-bit_and, bit-bit_or, bit-pow, bit-complement, bit_and-pow, pow-lt}
use os_ax.Base.Words.{not32}
use os_ax.Memory.Physical.{Pmm, page_bit, set_page, clear_page}

-- Page `i` is in use.
unfoldable pub page_used : Pmm → ℕ → Bool
page_used s i = bit (get_or s.bitmap (i / 32) 0) (i % 32)

-- The code's test of a page reads that bit.
pub page_bit-page_used : (s : Pmm) (i : ℕ) → (page_bit s i == 0) ≡ not (page_used s i)
unfolding page_bit page_used
page_bit-page_used s i = bit_and-pow (get_or s.bitmap (i / 32) 0) (i % 32)

bit-set : (w b c : ℕ) → bit (bit_or w (2 ^ b)) c ≡ (if b == c then true else bit w c)
bit-set w b c = ground (arith, bit-bit_or w (2 ^ b) c, bit-pow b c)

bit-clear :
    (w b c : ℕ)
    → b < 32
    → c < 32
    → bit (bit_and w (not32 (2 ^ b))) c ≡ (if b == c then false else bit w c)
bit-clear w b c hb hc = ground (
  arith,
  bit-bit_and w (not32 (2 ^ b)) c,
  bit-complement 32 (2 ^ b) c (pow-lt b 32 hb),
  bit-pow b c,
)

-- The two parts of an index determine it.
same_index : (i j : ℕ) → i / 32 ≡ j / 32 → (i % 32 == j % 32) ≡ (i == j)
same_index i j h = ground arith

module _ (s : Pmm) (i j : ℕ) (inside : i / 32 < length s.bitmap) where
  pub page_used-set_page : page_used (set_page s i) j ≡ (if i == j then true else page_used s j)
  unfolding page_used set_page
  page_used-set_page =
      let word = bit_or (get_or s.bitmap (i / 32) 0) (2 ^ (i % 32)) in
      rw (get_or-set s.bitmap (i / 32) (j / 32) word 0 inside)
        (elim (Bool-cases (i / 32 == j / 32)) [
          | inl e ↦ ground (
            arith,
            bit-set (get_or s.bitmap (i / 32) 0) (i % 32) (j % 32),
            same_index i j (==→eq _ _ e),
            ap (λ k. get_or s.bitmap k 0) (==→eq _ _ e),
          )
          | inr n ↦ rw n (ground arith)
        ])

  pub page_used-clear_page :
      page_used (clear_page s i) j ≡ (if i == j then false else page_used s j)
  unfolding page_used clear_page
  page_used-clear_page =
      let word = bit_and (get_or s.bitmap (i / 32) 0) (not32 (2 ^ (i % 32))) in
      rw (get_or-set s.bitmap (i / 32) (j / 32) word 0 inside)
        (elim (Bool-cases (i / 32 == j / 32)) [
          | inl e ↦ ground (
            arith,
            bit-clear (get_or s.bitmap (i / 32) 0) (i % 32) (j % 32) (omega arith) (omega arith),
            same_index i j (==→eq _ _ e),
            ap (λ k. get_or s.bitmap k 0) (==→eq _ _ e),
          )
          | inr n ↦ rw n (ground arith)
        ])
