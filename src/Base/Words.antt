-- ===== src/Base/Words.antt =====
-- Unsigned machine words: a word of `w` bits is a number, and an operation that may wrap is
-- followed by `% 2 ^ w`.
use Prim.Native.Nat.{ℕ, ◌+◌, ◌-◌, ◌*◌, ◌/◌, ◌%◌, ◌^◌, ◌≤◌, ◌<◌, bit_and}
use mathlib.Core.Path.{◌≡◌}
use native.Mathlib.Omega.{arith}
use os_ax.Base.Bits.{bit_and-mask}

abbrev pub u8 : ℕ → ℕ
u8 x = x % 2 ^ 8

abbrev pub u16 : ℕ → ℕ
u16 x = x % 2 ^ 16

abbrev pub u32 : ℕ → ℕ
u32 x = x % 2 ^ 32

abbrev pub u64 : ℕ → ℕ
u64 x = x % 2 ^ 64

-- `~x` on 32 bits.
abbrev pub not32 : ℕ → ℕ
not32 x = 2 ^ 32 - 1 - x

abbrev pub page_size : ℕ
page_size = 4096

-- `(x + PAGE_SIZE - 1) & ~(PAGE_SIZE - 1)` on 32 bits.
unfoldable pub page_align_up : ℕ → ℕ
page_align_up x = bit_and (u32 (x + (page_size - 1))) (not32 (page_size - 1))

-- Without wrap it is the next multiple of the page size.
pub page_align_up_lem : (x : ℕ) → x + 4095 < 2 ^ 32 → page_align_up x ≡ (x + 4095) / 4096 * 4096
unfolding page_align_up
page_align_up_lem x h = rw (bit_and-mask 12 20 (u32 (x + 4095)) (omega arith)) (omega arith)

pub page_align_up_bounds :
    (x : ℕ)
    → x + 4095 < 2 ^ 32
    → (x ≤ page_align_up x) × (page_align_up x ≤ x + 4095) × (page_align_up x % 4096 ≡ 0)
page_align_up_bounds x h = rw (page_align_up_lem x h) (omega arith, omega arith, omega arith)
