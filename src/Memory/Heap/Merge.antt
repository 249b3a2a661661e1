-- ===== src/Memory/Heap/Merge.antt =====
-- `coalesce_blocks` of kernel/memory/heap.c: a freed block and its neighbours.
use os_ax.Base.{
  ℕ, ◌+◌, ◌<◌, ◌≡◌, refl, ◌∙◌, inl, inr, List, [], ◌∷◌, arith, Bool-cases, ne→==_false,
}
use os_ax.Base.Words.{u32}
use os_ax.Base.Outcome.{done}
use os_ax.Memory.Heap.{Block, Cells, header, update, set_prev_if, merge_next, merge_prev}
use os_ax.Memory.Heap.Slots.{Slot, free_slot, join_next, join_prev}
use os_ax.Memory.Heap.Chain.{
  Chain, Fits, SameBelow, Rewritten, head_at, end_of, block_at, update_self, update_ne, Chain-frame,
  relink, set_prev_if-relink, relink_ne, relink-Chain,
}

-- A block at `a` that takes in the one behind it, whose end is `q`.
absorb :
    (c : Cells) (prev old a size : ℕ) (xs : List Slot)
    → 0 < a
    → Chain c old (end_of a (free_slot size)) xs
    → let q = end_of a (free_slot size) in
      let b : Block = record { size = size; is_free = 1; next = head_at q xs; prev = prev } in
      Rewritten c prev a (free_slot size ∷ xs) (set_prev_if (update c a b) (head_at q xs) a)
absorb c prev old a size xs pos h =
    let q = end_of a (free_slot size) in
    let b : Block = record { size = size; is_free = 1; next = head_at q xs; prev = prev } in
    let c' = update c a b in
    let behind : Chain c' old q xs =
      Chain-frame c c' old q xs (λ k lo. update_ne c a b k (omega arith)) h in
    record {
      cells = relink c' a q xs;
      returns = set_prev_if-relink c' old a q xs (omega arith) behind;
      chain = (
        relink_ne c' old a q xs a (omega arith) ∙ update_self c a b,
        relink-Chain c' old a q xs behind,
      );
      below = λ k lt. relink_ne c' old a q xs k (omega arith) ∙ update_ne c a b k (omega arith);
    }

unchanged :
    (c : Cells) (prev a : ℕ) (xs : List Slot) → Chain c prev a xs → Rewritten c prev a xs (done c)
unchanged c prev a xs h = record { cells = c; returns = refl; chain = h; below = λ k lt. refl }

module _ (c : Cells) (prev a size : ℕ) where
  pub merge_next_lem :
      (xs : List Slot)
      → Fits a (free_slot size ∷ xs)
      → Chain c prev a (free_slot size ∷ xs)
      → Rewritten c prev a (join_next size xs) (merge_next c a)
  unfolding merge_next join_next
  merge_next_lem [] fits h = rw h.0 (unchanged c prev a (free_slot size ∷ []) h)
  merge_next_lem (n ∷ xs) fits h =
      let q = end_of a (free_slot size) in
      let whole = size + (header + n.size) in
      let q_eq : end_of q n ≡ end_of a (free_slot whole) = omega arith in
      let fit : u32 whole ≡ whole = omega (arith, fits.sizes) in
      rw (h.0, ne→==_false q 0 (omega arith), h.1.0)
        (elim (Bool-cases n.free) [
          | inl free ↦
              rw (free, fit, q_eq) (absorb c prev q a whole xs fits.start (rw q_eq at h.1.1))
          | inr used ↦ simp used (unchanged c prev a (free_slot size ∷ n ∷ xs) h)
        ])

module _ (c : Cells) (prev a : ℕ) (p s : Slot) (xs : List Slot) where
  -- `a` is the address of the block in front, `p`.
  pub merge_prev_lem :
      Fits a (p ∷ s ∷ xs)
      → Chain c prev a (p ∷ s ∷ xs)
      → Rewritten c prev a (join_prev p (s ∷ xs)) (merge_prev c (end_of a p))
  unfolding merge_prev join_prev
  merge_prev_lem fits h =
      let q = end_of a p in
      let whole = p.size + (header + s.size) in
      let q_eq : end_of q s ≡ end_of a (free_slot whole) = omega arith in
      let fit : u32 whole ≡ whole = omega (arith, fits.sizes) in
      rw (h.1.0, ne→==_false a 0 (omega (arith, fits.start)), h.0)
        (elim (Bool-cases p.free) [
          | inl free ↦
              rw (free, fit, q_eq) (absorb c prev q a whole xs fits.start (rw q_eq at h.1.1))
          | inr used ↦ simp used (unchanged c prev a (p ∷ s ∷ xs) h)
        ])

-- The first block of all has nothing in front of it.
pub merge_prev_first :
    (c : Cells) (a : ℕ) (xs : List Slot)
    → (s : Slot) → Chain c 0 a (s ∷ xs)
    → merge_prev c a ≡ done c
unfolding merge_prev
merge_prev_first c a xs s h = rw h.0

-- A freed slot stays in front of what it joins.
pub join_next-cons :
    (size : ℕ) (xs : List Slot) → (t : Slot) × (ts : List Slot) × (join_next size xs ≡ t ∷ ts)
unfolding join_next
join_next-cons size [] = (free_slot size, [], refl)
join_next-cons size (n ∷ xs) = elim (Bool-cases n.free) [
  | inl free ↦ (free_slot (size + (header + n.size)), xs, simp free)
  | inr used ↦ (free_slot size, n ∷ xs, simp used)
]

-- Marking the block as free.
module _ (c : Cells) (prev a : ℕ) (s : Slot) (xs : List Slot) where
  abbrev pub marked : Cells
  marked = update c a (block_at prev a (free_slot s.size) xs)

  pub marked-Chain : Chain c prev a (s ∷ xs) → Chain marked prev a (free_slot s.size ∷ xs)
  marked-Chain h = (
    update_self c a (block_at prev a (free_slot s.size) xs),
    Chain-frame c marked a (end_of a s) xs
        (λ k lo. update_ne c a (block_at prev a (free_slot s.size) xs) k (omega arith)) h.1,
  )

  pub marked-below : SameBelow a c marked
  marked-below k lt = update_ne c a (block_at prev a (free_slot s.size) xs) k (omega arith)
