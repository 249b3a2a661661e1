-- ===== src/Memory/Dma.antt =====
-- kernel/memory/dma.c: the pool of buffers below 1 MB. The blocks stand in a list in the order of
-- `next`; what `kmalloc` answers for a node is an argument.
pub mod Tiling
pub mod Take
pub mod Give
mod Tests
use os_ax.Base.{
  ℕ, ◌+◌, ◌-◌, ◌*◌, ◌%◌, ◌^◌, Bool, true, false, not, ◌&&◌, ◌||◌, Option, none, some, List, [], ◌∷◌,
  ◌==◌, ltb, leb, if◌then◌else◌,
}
use os_ax.Base.Words.{u32, page_align_up}

abbrev pub dma_start : ℕ
dma_start = 0x10000

abbrev pub dma_end : ℕ
dma_end = 0xA0000

abbrev pub dma_size : ℕ
dma_size = dma_end - dma_start

pub record DmaBlock : Type 0 where
  pub address : ℕ
  pub size : ℕ
  pub in_use : ℕ

-- `sizeof(dma_block_t)`
abbrev pub node_size : ℕ
node_size = 24

pub record DmaPool : Type 0 where
  pub dma_free_list : List DmaBlock
  pub dma_total_size : ℕ
  pub dma_used_size : ℕ

unfoldable pub dma_init : Bool → DmaPool → DmaPool
dma_init node s =
    if node
    then record {
      dma_free_list = record { address = dma_start; size = dma_size; in_use = 0 } ∷ [];
      dma_total_size = dma_size;
      dma_used_size = 0;
    }
    else record s { dma_free_list = [] }

abbrev pub is_free : DmaBlock → Bool
is_free b = b.in_use == 0

-- A free block that is large enough: its front, if the rest is worth a block of its own and there is
-- a node for it, or all of it.
unfoldable pub take_from : ℕ → Bool → DmaBlock → List DmaBlock → List DmaBlock
take_from size node b next =
    if ltb (size + node_size + 0x1000) b.size && node
    then (record b { size = size; in_use = 1 }
        ∷ record { address = u32 (b.address + size); size = b.size - size; in_use = 0 }
        ∷ next)
    else record b { in_use = 1 } ∷ next

-- The address and the list after it, or `none`.
unfoldable pub alloc_block : ℕ → Bool → List DmaBlock → Option (ℕ × List DmaBlock)
unfolding take_from
alloc_block size node [] = none
alloc_block size node (b ∷ next) =
    let later : Option (ℕ × List DmaBlock) = elim (alloc_block size node next) [
      | none ↦ none
      | some (address, next') ↦ some (address, b ∷ next')
    ] in
    if is_free b && leb size b.size then some (b.address, take_from size node b next) else later

-- `node` tells whether `kmalloc` has a node, should one be asked for.
unfoldable pub dma_alloc : ℕ → Bool → DmaPool → ℕ × DmaPool
unfolding alloc_block
dma_alloc size node s =
    let size' = page_align_up size in
    if size == 0 then (0, s) else elim (alloc_block size' node s.dma_free_list) [
      | none ↦ (0, s)
      | some (address, blocks) ↦ (
        address,
        record s { dma_free_list = blocks; dma_used_size = u32 (s.dma_used_size + size') },
      )
    ]

-- A block is given back, and joined with the next one if that is free.
unfoldable pub give_back : DmaBlock → List DmaBlock → List DmaBlock
give_back b [] = record b { in_use = 0 } ∷ []
give_back b (c ∷ next) =
    if is_free c
    then record b { size = u32 (b.size + c.size); in_use = 0 } ∷ next
    else record b { in_use = 0 } ∷ c ∷ next

-- The size of the block in use at an address, and the list after it is given back, or `none`.
unfoldable pub release_block : ℕ → List DmaBlock → Option (ℕ × List DmaBlock)
unfolding give_back
release_block addr [] = none
release_block addr (b ∷ next) =
    let later : Option (ℕ × List DmaBlock) = elim (release_block addr next) [
      | none ↦ none
      | some (size, next') ↦ some (size, b ∷ next')
    ] in
    if (b.address == addr) && not (is_free b) then some (b.size, give_back b next) else later

unfoldable pub dma_free : ℕ → DmaPool → DmaPool
unfolding release_block
dma_free ptr s =
    let addr = u32 ptr in
    if ptr == 0
    then s
    else if ltb addr dma_start || leb dma_end addr
    then s
    else elim (release_block addr s.dma_free_list) [
      | none ↦ s
      | some (size, blocks) ↦ record s {
        dma_free_list = blocks;
        dma_used_size = u32 (s.dma_used_size + 2 ^ 32 - size);
      }
    ]

abbrev pub dma_unused : DmaPool → ℕ
dma_unused s = u32 (s.dma_total_size + 2 ^ 32 - s.dma_used_size)
