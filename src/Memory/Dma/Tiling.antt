-- ===== src/Memory/Dma/Tiling.antt =====
-- When the blocks of kernel/memory/dma.c fill its region without a gap.
use os_ax.Base.{ℕ, ◌+◌, ◌%◌, ◌≤◌, ◌<◌, ◌≡◌, ◌≢◌, ◌⊎◌, List, [], ◌∷◌, arith}
use os_ax.Memory.Dma.{DmaBlock, DmaPool, dma_start, dma_end}

-- From `at` the blocks, of whole pages, lead to `stop`.
pub data Tiles (stop : ℕ) : ℕ → List DmaBlock → Type 0 where
  nil : {at : ℕ} → at ≡ stop → Tiles stop at []
  cons :
      {at : ℕ} {b : DmaBlock} {next : List DmaBlock}
      → b.address ≡ at
      → 0 < b.size
      → b.size % 4096 ≡ 0
      → Tiles stop (at + b.size) next
      → Tiles stop at (b ∷ next)

-- The list has a block in use with this address and size.
pub data InUse (a n : ℕ) : List DmaBlock → Type 0 where
  here :
      {b : DmaBlock} {next : List DmaBlock}
      → b.address ≡ a
      → b.size ≡ n
      → b.in_use ≢ 0
      → InUse a n (b ∷ next)
  there : {b : DmaBlock} {next : List DmaBlock} → InUse a n next → InUse a n (b ∷ next)

-- The list has a free block of this size.
pub data HasFree (n : ℕ) : List DmaBlock → Type 0 where
  here : {b : DmaBlock} {next : List DmaBlock} → b.size ≡ n → b.in_use ≡ 0 → HasFree n (b ∷ next)
  there : {b : DmaBlock} {next : List DmaBlock} → HasFree n next → HasFree n (b ∷ next)

pub Tiles-le : {stop at : ℕ} {bs : List DmaBlock} → Tiles stop at bs → at ≤ stop
Tiles-le (Tiles.nil e) = omega arith
Tiles-le (Tiles.cons a p w rest) = omega (arith, Tiles-le rest)

pub Tiles-InUse :
    {stop at a n : ℕ} {bs : List DmaBlock}
    → Tiles stop at bs
    → InUse a n bs
    → (at ≤ a) × (a + n ≤ stop) × (0 < n)
Tiles-InUse (Tiles.nil e) i = elim i [ ]
Tiles-InUse (Tiles.cons e p w rest) (InUse.here f g h) = omega (arith, Tiles-le rest)
Tiles-InUse (Tiles.cons e p w rest) (InUse.there i) = omega (arith, Tiles-InUse rest i)

-- The blocks of the pool fill the region.
abbrev pub IsValid : DmaPool → Type 0
IsValid s = Tiles dma_end dma_start s.dma_free_list

-- Two ranges do not meet.
abbrev pub Beside : ℕ → ℕ → ℕ → ℕ → Type 0
Beside a n b m = (a + n ≤ b) ⊎ (b + m ≤ a)
