-- ===== src/Memory/Dma/Give.antt =====
-- `dma_free` of kernel/memory/dma.c.
use os_ax.Base.{
  ℕ, ◌+◌, ◌-◌, ◌%◌, ◌^◌, ◌≤◌, ◌<◌, ◌≡◌, ◌≢◌, refl, subst, sym, ap, ◌∙◌, inl, inr, true, false, not,
  ◌&&◌, ◌||◌, some, List, [], ◌∷◌, arith, ◌==◌, ltb, leb, Bool-cases, ==→eq, ne→==_false,
}
use os_ax.Base.Words.{u32}
use os_ax.Memory.Dma.{
  DmaBlock, DmaPool, dma_start, dma_end, is_free, give_back, release_block, dma_free,
}
use os_ax.Memory.Dma.Tiling.{Tiles, InUse, Tiles-le, Tiles-InUse, IsValid}

-- The block at an address is no longer in use, and the others are as they were.
pub record Given (stop at a : ℕ) (bs bs' : List DmaBlock) : Type 0 where
  pub tiles : Tiles stop at bs'
  pub gone : (n : ℕ) → InUse a n bs' → ⊥
  pub kept : (c m : ℕ) → c ≢ a → InUse c m bs → InUse c m bs'
  pub old : (c m : ℕ) → InUse c m bs' → InUse c m bs

module _ {stop at : ℕ} {b : DmaBlock} (below : stop < 2 ^ 32) (at_start : b.address ≡ at)
    (b_some : 0 < b.size) (b_whole : b.size % 4096 ≡ 0) where
  -- The block stays as it is, but for its mark.
  stay :
      (next : List DmaBlock)
      → Tiles stop (at + b.size) next
      → Given stop at b.address (b ∷ next) (record b { in_use = 0 } ∷ next)
  stay next rest = record {
    tiles = Tiles.cons at_start b_some b_whole rest;
    gone = gone;
    kept = kept;
    old = old;
  }
    where
      gone : (n : ℕ) → InUse b.address n (record b { in_use = 0 } ∷ next) → ⊥
      gone n (InUse.here e f used) = used refl
      gone n (InUse.there i) = absurd (omega (arith, Tiles-InUse rest i))

      kept :
          (c m : ℕ)
          → c ≢ b.address
          → InUse c m (b ∷ next)
          → InUse c m (record b { in_use = 0 } ∷ next)
      kept c m other (InUse.here e f used) = absurd (other (sym e))
      kept c m other (InUse.there i) = InUse.there i

      old : (c m : ℕ) → InUse c m (record b { in_use = 0 } ∷ next) → InUse c m (b ∷ next)
      old c m (InUse.here e f used) = absurd (used refl)
      old c m (InUse.there i) = InUse.there i

  -- The block takes in a free block behind it.
  join :
      (c : DmaBlock) (next : List DmaBlock)
      → c.in_use ≡ 0
      → Tiles stop (at + b.size) (c ∷ next)
      → Given stop at b.address
          (b ∷ c ∷ next)
          (record b { size = u32 (b.size + c.size); in_use = 0 } ∷ next)
  join c next free (Tiles.cons e p w rest) = record {
    tiles =
        Tiles.cons at_start (omega (arith, sum)) (omega (arith, sum))
          (subst (λ k. Tiles stop k next) behind rest);
    gone = gone;
    kept = kept;
    old = old;
  }
    where
      sum : u32 (b.size + c.size) ≡ b.size + c.size
      sum = omega (arith, Tiles-le rest)

      behind : at + b.size + c.size ≡ at + u32 (b.size + c.size)
      behind = omega (arith, sum)

      gone :
          (n : ℕ)
          → InUse b.address n (record b { size = u32 (b.size + c.size); in_use = 0 } ∷ next)
          → ⊥
      gone n (InUse.here e f used) = used refl
      gone n (InUse.there i) = absurd (omega (arith, Tiles-InUse rest i))

      kept :
          (a m : ℕ)
          → a ≢ b.address
          → InUse a m (b ∷ c ∷ next)
          → InUse a m (record b { size = u32 (b.size + c.size); in_use = 0 } ∷ next)
      kept a m other (InUse.here e f used) = absurd (other (sym e))
      kept a m other (InUse.there (InUse.here e f used)) = absurd (used free)
      kept a m other (InUse.there (InUse.there i)) = InUse.there i

      old :
          (a m : ℕ)
          → InUse a m (record b { size = u32 (b.size + c.size); in_use = 0 } ∷ next)
          → InUse a m (b ∷ c ∷ next)
      old a m (InUse.here e f used) = absurd (used refl)
      old a m (InUse.there i) = InUse.there (InUse.there i)

  give_back-Given :
      (next : List DmaBlock)
      → Tiles stop (at + b.size) next
      → Given stop at b.address (b ∷ next) (give_back b next)
  unfolding give_back
  give_back-Given [] rest = stay [] rest
  give_back-Given (c ∷ next) rest = elim (Bool-cases (is_free c)) [
    | inl joins ↦ rw joins (join c next (==→eq c.in_use 0 joins) rest)
    | inr used ↦ rw used (stay (c ∷ next) rest)
  ]

-- A block in front of the one that is given back stays.
Given-later :
    {stop at a : ℕ} {b : DmaBlock} {next next' : List DmaBlock}
    → b.address ≡ at
    → 0 < b.size
    → b.size % 4096 ≡ 0
    → at + b.size ≤ a
    → Given stop (at + b.size) a next next'
    → Given stop at a (b ∷ next) (b ∷ next')
Given-later {stop} {at} {a} {b} {next} {next'} e p w behind g = record {
  tiles = Tiles.cons e p w g.tiles;
  gone = gone;
  kept = kept;
  old = old;
}
  where
    gone : (n : ℕ) → InUse a n (b ∷ next') → ⊥
    gone n (InUse.here f g used) = absurd (omega arith)
    gone n (InUse.there i) = g.gone n i

    kept : (c m : ℕ) → c ≢ a → InUse c m (b ∷ next) → InUse c m (b ∷ next')
    kept c m other (InUse.here f h used) = InUse.here f h used
    kept c m other (InUse.there i) = InUse.there (g.kept c m other i)

    old : (c m : ℕ) → InUse c m (b ∷ next') → InUse c m (b ∷ next)
    old c m (InUse.here f h used) = InUse.here f h used
    old c m (InUse.there i) = InUse.there (g.old c m i)

not_here :
    {at a : ℕ} (b : DmaBlock)
    → b.address ≡ at
    → at + b.size ≤ a
    → 0 < b.size
    → ((b.address == a) && not (is_free b)) ≡ false
not_here b e behind p = ground arith

is_here :
    {a : ℕ} (b : DmaBlock)
    → b.address ≡ a
    → b.in_use ≢ 0
    → ((b.address == a) && not (is_free b)) ≡ true
is_here b e used = ground arith

release_block-Given :
    (stop at a n : ℕ) (bs : List DmaBlock)
    → stop < 2 ^ 32
    → Tiles stop at bs
    → InUse a n bs
    → (bs' : List DmaBlock) × (release_block a bs ≡ some (n, bs')) × Given stop at a bs bs'
unfolding release_block
release_block-Given stop at a n [] below tiles i = elim i [ ]
release_block-Given stop at a n (b ∷ next) below (Tiles.cons e p w rest) (InUse.here f g used) = (
  give_back b next,
  rw (is_here b f used) (ap (λ k. some (k, give_back b next)) g),
  subst (λ k. Given stop at k (b ∷ next) (give_back b next)) f
      (give_back-Given below e p w next rest),
)
release_block-Given stop at a n (b ∷ next) below (Tiles.cons e p w rest) (InUse.there i) =
    let (next', found, given) = release_block-Given stop (at + b.size) a n next below rest i in
    let low = Tiles-InUse rest i in
    (b ∷ next', rw (not_here b e low.0 p, found) refl, Given-later e p w low.0 given)

-- While the blocks of whole pages fill the region of the pool, `dma_free` of the address of a block
-- in use leaves no block in use there, leaves all others that are in use and no more, takes the
-- block's size off the count of used bytes, and the blocks fill the region again.
pub dma_free_lem :
    (ptr n : ℕ) (s : DmaPool)
    → IsValid s
    → InUse ptr n s.dma_free_list
    → Given dma_end dma_start ptr s.dma_free_list (dma_free ptr s).dma_free_list
      × ((dma_free ptr s).dma_used_size ≡ u32 (s.dma_used_size + 2 ^ 32 - n))
unfolding dma_free
dma_free_lem ptr n s v i =
    let (blocks, found, given) =
      release_block-Given dma_end dma_start ptr n s.dma_free_list (omega arith) v i in
    let low = Tiles-InUse v i in
    let same : u32 ptr ≡ ptr = omega arith in
    let not_null = ne→==_false ptr 0 (omega arith) in
    let in_range : (ltb (u32 ptr) dma_start || leb dma_end (u32 ptr)) ≡ false =
      rw same (ground arith) in
    let found_there : release_block (u32 ptr) s.dma_free_list ≡ some (n, blocks) =
      ap (λ k. release_block k s.dma_free_list) same ∙ found in
    rw (not_null, in_range, found_there) (given, refl)
