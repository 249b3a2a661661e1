-- ===== src/Memory/Heap/Split.antt =====
-- `split_block` of kernel/memory/heap.c, and the marking of the block that `kmalloc` takes.
use os_ax.Base.{
  ℕ, ◌+◌, ◌-◌, ◌^◌, ◌≤◌, ◌≡◌, ◌∙◌, ◌≢◌, true, false, inl, inr, some, List, ◌∷◌, ◌++◌, arith, leb,
  leb→le, Bool-cases,
}
use os_ax.Base.Words.{u32, u64}
use os_ax.Memory.Heap.{Block, Cells, header, min_block_size, update, take_cells}
use os_ax.Memory.Heap.Slots.{Slot, used_slot, free_slot, place}
use os_ax.Memory.Heap.Chain.{
  flag, Chain, Fits, Rewritten, head_at, end_of, block_at, update_self, update_ne, Chain-frame,
  relink, set_prev_if-relink, relink_ne, relink-Chain,
}

module _ (c : Cells) (prev a n : ℕ) (s : Slot) (xs : List Slot) where
  -- The first block keeps its size.
  take_whole :
      leb (n + header + min_block_size) s.size ≡ false
      → Fits a (s ∷ xs)
      → n ≤ s.size
      → Chain c prev a (s ∷ xs)
      → Rewritten c prev a (used_slot s.size ∷ xs) (take_cells c a n)
  unfolding take_cells
  take_whole small fits le h =
      let same : u64 (n + header + min_block_size) ≡ n + header + min_block_size =
        omega (arith, fits.sizes) in
      let b = block_at prev a (used_slot s.size) xs in
      record {
        cells = update c a b;
        returns = rw (h.0, same, small) (rw h.0);
        chain = (
          update_self c a b,
          Chain-frame c (update c a b) a (end_of a s) xs (λ k lo. update_ne c a b k (omega arith))
              h.1,
        );
        below = λ k lt. update_ne c a b k (omega arith);
      }

  -- The first block is cut in two.
  take_split :
      leb (n + header + min_block_size) s.size ≡ true
      → Fits a (s ∷ xs)
      → Chain c prev a (s ∷ xs)
      → Rewritten c prev a (used_slot n ∷ free_slot (s.size - n - header) ∷ xs) (take_cells c a n)
  unfolding take_cells
  take_split large fits h =
      let le = leb→le _ _ large in
      let new = end_of a (used_slot n) in
      let q = end_of a s in
      let cut = free_slot (s.size - n - header) in
      let nb : Block = record {
        size = s.size - n - header;
        is_free = 1;
        next = head_at q xs;
        prev = a;
      } in
      let c1 = update c new nb in
      let behind : Chain c1 a q xs =
        Chain-frame c c1 a q xs (λ k lo. update_ne c new nb k (omega arith)) h.1 in
      let c2 = relink c1 new q xs in
      let same : u64 (n + header + min_block_size) ≡ n + header + min_block_size =
        omega (arith, fits.sizes) in
      let new_eq : u64 (a + header + n) ≡ new = omega (arith, fits.addresses) in
      let cut_eq : u32 (s.size + 2 ^ 65 - n - header) ≡ s.size - n - header =
        omega (arith, fits.sizes) in
      let n_eq : u32 n ≡ n = omega (arith, fits.sizes) in
      let q_eq : end_of new cut ≡ q = omega arith in
      let at_a : c2 a ≡ some (block_at prev a s xs) =
        relink_ne c1 a new q xs a (omega arith) ∙ update_ne c new nb a (omega arith) ∙ h.0 in
      let b1 : Block = record { size = n; is_free = flag s.free; next = new; prev = prev } in
      let b2 : Block = record { size = n; is_free = 0; next = new; prev = prev } in
      let c3 = update c2 a b1 in
      let outside = λ (k : ℕ) (ne : k ≢ a). update_ne c3 a b2 k ne ∙ update_ne c2 a b1 k ne in
      record {
        cells = update c3 a b2;
        returns =
            rw (h.0, same, large, new_eq, cut_eq, n_eq)
              (rw (set_prev_if-relink c1 a new q xs (omega arith) behind)
                (rw at_a (rw update_self)));
        chain = (
          update_self c3 a b2,
          (
            outside new (omega arith)
                ∙ relink_ne c1 a new q xs new (omega arith)
                ∙ rw q_eq (update_self c new nb),
            rw q_eq (
                Chain-frame c2 (update c3 a b2) new q xs (λ k lo. outside k (omega arith))
                  (relink-Chain c1 a new q xs behind)),
          ),
        );
        below = λ k lt.
            outside k (omega arith)
            ∙ relink_ne c1 a new q xs k (omega arith)
            ∙ update_ne c new nb k (omega arith);
      }

  -- The first block taken for `n` bytes.
  pub take_cells_lem :
      Fits a (s ∷ xs)
      → n ≤ s.size
      → Chain c prev a (s ∷ xs)
      → Rewritten c prev a (place n s.size ++ xs) (take_cells c a n)
  unfolding place
  take_cells_lem fits le h = elim (Bool-cases (leb (n + header + min_block_size) s.size)) [
    | inl large ↦ rw large (take_split large fits h)
    | inr small ↦ rw small (take_whole small fits le h)
  ]
