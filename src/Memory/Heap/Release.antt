-- ===== src/Memory/Heap/Release.antt =====
-- `kfree` of kernel/memory/heap.c on the store of headers.
use os_ax.Base.{ℕ, ◌+◌, ◌≡◌, refl, ◌∙◌, List, [], ◌∷◌, ◌++◌, arith, some}
use os_ax.Base.Outcome.{◌>>=◌}
use os_ax.Memory.Heap.{Cells, merge_next, merge_prev, coalesce_blocks, release_cells}
use os_ax.Memory.Heap.Slots.{
  Slot, extent, free_slot, join_next, join_prev, give_back, extent-join_next,
}
use os_ax.Memory.Heap.Chain.{Chain, Fits, Rewritten, Rewritten-cons, head_at, end_of, block_at}
use os_ax.Memory.Heap.Merge.{
  merge_next_lem, merge_prev_lem, merge_prev_first, join_next-cons, marked, marked-Chain,
  marked-below,
}

pub Fits-of_extent : (a : ℕ) (xs ys : List Slot) → extent ys ≡ extent xs → Fits a xs → Fits a ys
Fits-of_extent a xs ys e f = omega arith

Fits-behind : (a : ℕ) (p : Slot) (xs : List Slot) → Fits a (p ∷ xs) → Fits (end_of a p) xs
Fits-behind a p xs f = omega arith

-- The store is marked, and then the two halves of `coalesce_blocks` run.
release_cells_steps :
    (c : Cells) (prev a : ℕ) (s : Slot) (xs : List Slot)
    → Chain c prev a (s ∷ xs)
    → release_cells c a ≡ (merge_next (marked c prev a s xs) a >>= λ c'. merge_prev c' a)
unfolding release_cells coalesce_blocks
release_cells_steps c prev a s xs h = rw h.0

release_first :
    (c : Cells) (a : ℕ) (s : Slot) (xs : List Slot)
    → Fits a (s ∷ xs)
    → Chain c 0 a (s ∷ xs)
    → Rewritten c 0 a (join_next s.size xs) (release_cells c a)
release_first c a s xs fits h =
    let w =
      merge_next_lem (marked c 0 a s xs) 0 a s.size xs
        (Fits-of_extent a (s ∷ xs) (free_slot s.size ∷ xs) refl fits) (marked-Chain c 0 a s xs h) in
    let (t, ts, e) = join_next-cons s.size xs in
    let first = merge_prev_first w.cells a ts t (rw e at w.chain) in
    record {
      cells = w.cells;
      returns = rw (release_cells_steps c 0 a s xs h, w.returns) first;
      chain = w.chain;
      below = λ k lt. w.below k lt ∙ marked-below c 0 a s xs k lt;
    }

module _ (c : Cells) (prev a : ℕ) (p s : Slot) (xs : List Slot) where
  -- The freed slot, joined with what is behind it, is `t`; what is in front of it comes next.
  join_front :
      (t : Slot) (ts : List Slot)
      → extent (t ∷ ts) ≡ extent (s ∷ xs)
      → Fits a (p ∷ s ∷ xs)
      → Chain c prev a (p ∷ s ∷ xs)
      → Rewritten
          (marked c a (end_of a p) s xs)
          a
          (end_of a p)
          (t ∷ ts)
          (merge_next (marked c a (end_of a p) s xs) (end_of a p))
      → Rewritten c prev a (join_prev p (t ∷ ts)) (release_cells c (end_of a p))
  join_front t ts size fits h w =
      let m = marked c a (end_of a p) s xs in
      let m_at : m a ≡ some (block_at prev a p (t ∷ ts)) =
        marked-below c a (end_of a p) s xs a (omega arith) ∙ h.0 in
      let two : Rewritten m prev a (p ∷ t ∷ ts) (merge_next m (end_of a p)) =
        Rewritten-cons m prev a p (t ∷ ts) (t ∷ ts) (merge_next m (end_of a p)) m_at refl w in
      let fits' : Fits a (p ∷ t ∷ ts) =
        Fits-of_extent a (p ∷ s ∷ xs) (p ∷ t ∷ ts) (omega (arith, size)) fits in
      let v = merge_prev_lem two.cells prev a p t ts fits' two.chain in
      record {
        cells = v.cells;
        returns = rw (release_cells_steps c a (end_of a p) s xs h.1, two.returns) v.returns;
        chain = v.chain;
        below = λ k lt.
            v.below k lt ∙ two.below k lt ∙ marked-below c a (end_of a p) s xs k (omega arith);
      }

  release_second :
      Fits a (p ∷ s ∷ xs)
      → Chain c prev a (p ∷ s ∷ xs)
      → Rewritten c prev a (join_prev p (join_next s.size xs)) (release_cells c (end_of a p))
  release_second fits h =
      let w =
        merge_next_lem (marked c a (end_of a p) s xs) a (end_of a p) s.size xs
          (Fits-of_extent (end_of a p) (s ∷ xs) (free_slot s.size ∷ xs) refl
            (Fits-behind a p (s ∷ xs) fits))
          (marked-Chain c a (end_of a p) s xs h.1) in
      let (t, ts, e) = join_next-cons s.size xs in
      let size = extent-join_next s.size xs in
      rw e (join_front t ts (rw e at size) fits h (rw e at w))

pub head_at-give_back :
    (k : ℕ) (ys : List Slot) (s : Slot) (xs : List Slot) → head_at k (give_back ys s xs) ≡ k
unfolding give_back join_prev
head_at-give_back k [] s xs = let (t, ts, e) = join_next-cons s.size xs in rw e
head_at-give_back k (p ∷ []) s xs = let (t, ts, e) = join_next-cons s.size xs in rw e (ground arith)
head_at-give_back k (p ∷ q ∷ ys) s xs = refl

-- The slot behind `ys` released, in a chain with a slot in front of it.
release_behind :
    (c : Cells) (prev a : ℕ) (p : Slot) (ys : List Slot) (s : Slot) (xs : List Slot)
    → Fits a (p ∷ ys ++ s ∷ xs)
    → Chain c prev a (p ∷ ys ++ s ∷ xs)
    → Rewritten c prev a (give_back (p ∷ ys) s xs) (release_cells c (a + extent (p ∷ ys)))
unfolding give_back
release_behind c prev a p [] s xs fits h =
    let e : a + extent (p ∷ []) ≡ end_of a p = omega arith in
    rw e (release_second c prev a p s xs fits h)
release_behind c prev a p (q ∷ ys) s xs fits h =
    let b = end_of a p in
    let e : a + extent (p ∷ q ∷ ys) ≡ b + extent (q ∷ ys) = omega arith in
    rw e (
      Rewritten-cons c prev a p (q ∷ ys ++ s ∷ xs) (give_back (q ∷ ys) s xs)
        (release_cells c (b + extent (q ∷ ys))) h.0 (head_at-give_back b (q ∷ ys) s xs)
        (release_behind c a b q ys s xs (Fits-behind a p (q ∷ ys ++ s ∷ xs) fits) h.1))

-- The slot behind `ys` released, in the chain of a whole region.
pub release_cells_lem :
    (c : Cells) (a : ℕ) (ys : List Slot) (s : Slot) (xs : List Slot)
    → Fits a (ys ++ s ∷ xs)
    → Chain c 0 a (ys ++ s ∷ xs)
    → Rewritten c 0 a (give_back ys s xs) (release_cells c (a + extent ys))
unfolding give_back
release_cells_lem c a [] s xs fits h =
    let e : a + 0 ≡ a = omega arith in rw e (release_first c a s xs fits h)
release_cells_lem c a (p ∷ ys) s xs fits h = release_behind c 0 a p ys s xs fits h
