-- ===== src/Memory/Dma/Take.antt =====
-- `dma_alloc` of kernel/memory/dma.c.
use os_ax.Base.{
  ℕ, ◌+◌, ◌-◌, ◌%◌, ◌^◌, ◌≤◌, ◌<◌, ◌≡◌, refl, subst, inl, inr, Bool, ◌&&◌, Option, none, some, List,
  [], ◌∷◌, arith, ltb, leb, Bool-cases, ne→==_false,
}
use os_ax.Base.Words.{u32, page_align_up, page_align_up_bounds}
use os_ax.Memory.Dma.{
  DmaBlock, DmaPool, node_size, dma_start, dma_end, is_free, take_from, alloc_block, dma_alloc,
}
use os_ax.Memory.Dma.Tiling.{Tiles, InUse, HasFree, Tiles-le, Tiles-InUse, IsValid, Beside}

-- A block of at least `size` bytes is taken, and no block that is in use changes.
record Taken (stop at size : ℕ) (bs : List DmaBlock) (p : ℕ) (bs' : List DmaBlock) : Type 0 where
  length : ℕ
  enough : size ≤ length
  tiles : Tiles stop at bs'
  used : InUse p length bs'
  kept : (a n : ℕ) → InUse a n bs → InUse a n bs' × Beside a n p length

data Search (stop at size : ℕ) (bs : List DmaBlock) : Option (ℕ × List DmaBlock) → Type 0 where
  nothing : ((n : ℕ) → HasFree n bs → n < size) → Search stop at size bs none
  taken :
      {p : ℕ} {bs' : List DmaBlock}
      → Taken stop at size bs p bs'
      → Search stop at size bs (some (p, bs'))

module _ {stop at size : ℕ} {b : DmaBlock} {next : List DmaBlock} (below : stop < 2 ^ 32)
    (some_bytes : 0 < size) (whole : size % 4096 ≡ 0) (at_start : b.address ≡ at)
    (b_some : 0 < b.size) (b_whole : b.size % 4096 ≡ 0) (rest : Tiles stop (at + b.size) next) where
  take_front :
      b.in_use ≡ 0
      → size < b.size
      → Taken stop at size (b ∷ next) b.address (
          record b { size = size; in_use = 1 }
          ∷ record { address = u32 (b.address + size); size = b.size - size; in_use = 0 }
          ∷ next)
  take_front free larger = record {
    length = size;
    enough = omega arith;
    tiles = Tiles.cons at_start some_bytes whole (
        Tiles.cons (omega (arith, Tiles-le rest)) (omega arith) (omega arith)
          (subst (λ k. Tiles stop k next) behind rest));
    used = InUse.here refl refl (λ e. absurd (omega arith));
    kept = kept;
  }
    where
      behind : at + b.size ≡ at + size + (b.size - size)
      behind = omega arith

      kept :
          (a n : ℕ)
          → InUse a n (b ∷ next)
          → InUse a n (
              record b { size = size; in_use = 1 }
              ∷ record { address = u32 (b.address + size); size = b.size - size; in_use = 0 }
              ∷ next)
            × Beside a n b.address size
      kept a n (InUse.here e f used) = absurd (used free)
      kept a n (InUse.there i) =
          (InUse.there (InUse.there i), inr (omega (arith, Tiles-InUse rest i)))

  take_whole :
      b.in_use ≡ 0
      → size ≤ b.size
      → Taken stop at size (b ∷ next) b.address (record b { in_use = 1 } ∷ next)
  take_whole free fits = record {
    length = b.size;
    enough = fits;
    tiles = Tiles.cons at_start b_some b_whole rest;
    used = InUse.here refl refl (λ e. absurd (omega arith));
    kept = kept;
  }
    where
      kept :
          (a n : ℕ)
          → InUse a n (b ∷ next)
          → InUse a n (record b { in_use = 1 } ∷ next) × Beside a n b.address b.size
      kept a n (InUse.here e f used) = absurd (used free)
      kept a n (InUse.there i) = (InUse.there i, inr (omega (arith, Tiles-InUse rest i)))

  take_later :
      {p : ℕ} {next' : List DmaBlock}
      → Taken stop (at + b.size) size next p next'
      → Taken stop at size (b ∷ next) p (b ∷ next')
  take_later {p} {next'} t = record {
    length = t.length;
    enough = t.enough;
    tiles = Tiles.cons at_start b_some b_whole t.tiles;
    used = InUse.there t.used;
    kept = kept;
  }
    where
      kept : (a n : ℕ) → InUse a n (b ∷ next) → InUse a n (b ∷ next') × Beside a n p t.length
      kept a n (InUse.here e f used) =
          (InUse.here e f used, inl (omega (arith, Tiles-InUse t.tiles t.used)))
      kept a n (InUse.there i) = (InUse.there (t.kept a n i).0, (t.kept a n i).1)

  later-Search :
      (x : Option (ℕ × List DmaBlock))
      → ((n : ℕ) → b.in_use ≡ 0 → b.size < size)
      → Search stop (at + b.size) size next x
      → Search stop at size
          (b ∷ next)
          (elim x [ none ↦ none | some (p, next') ↦ some (p, b ∷ next') ])
  later-Search none small (nothing all) = nothing smaller
    where
      smaller : (n : ℕ) → HasFree n (b ∷ next) → n < size
      smaller n (HasFree.here e free) = omega (arith, small n free)
      smaller n (HasFree.there i) = all n i
  later-Search (some (p, next')) small (taken t) = taken (take_later t)

alloc_block-Search :
    (stop at size : ℕ) (node : Bool) (bs : List DmaBlock)
    → stop < 2 ^ 32
    → 0 < size
    → size % 4096 ≡ 0
    → Tiles stop at bs
    → Search stop at size bs (alloc_block size node bs)
unfolding alloc_block take_from
alloc_block-Search stop at size node [] below pos whole (Tiles.nil e) = nothing none_free
  where
    none_free : (n : ℕ) → HasFree n [] → n < size
    none_free n i = elim i [ ]
alloc_block-Search stop at size node (b ∷ next) below pos whole (Tiles.cons e p w rest) =
    let later = alloc_block-Search stop (at + b.size) size node next below pos whole rest in
    elim (Bool-cases (is_free b && leb size b.size)) [
      | inl fits ↦ rw fits (elim (Bool-cases (ltb (size + node_size + 0x1000) b.size && node)) [
        | inl split ↦
            rw split (taken (take_front below pos whole e p w rest (ground arith) (ground arith)))
        | inr all ↦
            rw all (taken (take_whole below pos whole e p w rest (ground arith) (ground arith)))
      ])
      | inr other ↦ rw other (
          later-Search below pos whole e p w rest (alloc_block size node next)
            (λ n free. ground arith) later)
    ]

-- A buffer of `n` bytes at `p` is handed out.
pub record Allocated (size p n : ℕ) (s s' : DmaPool) : Type 0 where
  pub valid : IsValid s'
  pub enough : size ≤ n
  pub used : InUse p n s'.dma_free_list
  pub inside : (dma_start ≤ p) × (p + n ≤ dma_end)
  pub kept : (a m : ℕ) → InUse a m s.dma_free_list → InUse a m s'.dma_free_list × Beside a m p n

-- What a request for `size` bytes gives.
pub data Answer (size : ℕ) (s : DmaPool) : ℕ × DmaPool → Type 0 where
  allocated : (n : ℕ) {p : ℕ} {s' : DmaPool} → Allocated size p n s s' → Answer size s (p, s')
  refused : ((n : ℕ) → HasFree n s.dma_free_list → n < size + 4095) → Answer size s (0, s)

answer :
    (size : ℕ) (s : DmaPool) (x : Option (ℕ × List DmaBlock))
    → size + 4095 < 2 ^ 32
    → Search dma_end dma_start (page_align_up size) s.dma_free_list x
    → Answer size s (elim x [
      | none ↦ (0, s)
      | some (address, blocks) ↦ (
        address,
        record s {
          dma_free_list = blocks;
          dma_used_size = u32 (s.dma_used_size + page_align_up size);
        },
      )
    ])
answer size s none small (nothing all) =
    refused λ n free. omega (arith, all n free, page_align_up_bounds size small)
answer size s (some (p, bs')) small (taken t) = allocated t.length (record {
  valid = t.tiles;
  enough = omega (arith, t.enough, page_align_up_bounds size small);
  used = t.used;
  inside = ((Tiles-InUse t.tiles t.used).0, (Tiles-InUse t.tiles t.used).1);
  kept = t.kept;
})

-- While the blocks of whole pages fill the region of the pool, `dma_alloc` of at least one byte,
-- which rounding does not wrap, gives a buffer of that size inside the region that meets no block in
-- use; all of those stay, and the blocks fill the region again. Or it gives NULL and changes nothing,
-- and then each free block has less than `size` + 4095 bytes.
pub dma_alloc_lem :
    (size : ℕ) (node : Bool) (s : DmaPool)
    → IsValid s
    → 0 < size
    → size + 4095 < 2 ^ 32
    → Answer size s (dma_alloc size node s)
unfolding dma_alloc
dma_alloc_lem size node s v pos small =
    let up = page_align_up_bounds size small in
    rw (ne→==_false size 0 (omega arith)) (
      answer size s (alloc_block (page_align_up size) node s.dma_free_list) small (
        alloc_block-Search dma_end dma_start (page_align_up size) node s.dma_free_list (omega arith)
          (omega (arith, up)) up.2 v))
