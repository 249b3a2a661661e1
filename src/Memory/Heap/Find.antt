-- ===== src/Memory/Heap/Find.antt =====
-- The first fit of kernel/memory/heap.c: the walk that looks for a block, and the block taken.
use os_ax.Base.{
  ℕ, zero, suc, ◌+◌, ◌≤◌, ◌<◌, ◌≡◌, refl, sym, ap, ◌∙◌, true, not, ◌&&◌, inl, inr, Option, none,
  some, List, [], ◌∷◌, ◌++◌, arith, ◌==◌, leb, Bool-cases, ne→==_false, length,
}
use os_ax.Base.Outcome.{done}
use os_ax.Memory.Heap.{Cells, header, min_block_size, find_from, take_cells}
use os_ax.Memory.Heap.Slots.{Slot, extent, place, behind, request}
use os_ax.Memory.Heap.Chain.{flag, Chain, Fits, Rewritten, Rewritten-cons, head_at, end_of}
use os_ax.Memory.Heap.Split.{take_cells_lem}

-- The address of what a request found, NULL if it found nothing.
abbrev pub found : ℕ → Option (ℕ × List Slot) → ℕ
found a none = 0
found a (some (off, ys)) = a + off

found-behind :
    (a : ℕ) (s : Slot) (o : Option (ℕ × List Slot)) → found a (behind s o) ≡ found (end_of a s) o
found-behind a s none = refl
found-behind a s (some (off, ys)) = omega arith

-- A block is taken if it is marked as free and is large enough.
fits_test : (s : Slot) (n : ℕ) → (not (flag s.free == 0) && leb n s.size) ≡ (s.free && leb n s.size)
fits_test s n = ground arith

-- The walk comes to the slot that first fit asks for; one round for each slot is enough.
pub find_from_lem :
    (fuel : ℕ) (c : Cells) (prev a n : ℕ) (xs : List Slot)
    → length xs < fuel
    → 0 < a
    → Chain c prev a xs
    → find_from fuel c (head_at a xs) n ≡ done (found a (request n xs))
unfolding find_from request
find_from_lem zero c prev a n xs lt pos h = elim lt [ ]
find_from_lem (suc fuel) c prev a n [] lt pos h = refl
find_from_lem (suc fuel) c prev a n (s ∷ xs) lt pos h =
    rw (ne→==_false a 0 (omega arith), h.0, fits_test s n)
      (elim (Bool-cases (s.free && leb n s.size)) [
        | inl yes_fits ↦ simp yes_fits (ap done (omega arith))
        | inr no_fits ↦ simp no_fits (
            find_from_lem fuel c a (end_of a s) n xs (omega arith) (omega arith) h.1
            ∙ ap done (sym (found-behind a s (request n xs))))
      ])

-- What `behind` gives comes from something found.
behind-some :
    (s : Slot) (o : Option (ℕ × List Slot)) (off : ℕ) (ys : List Slot)
    → behind s o ≡ some (off, ys)
    → (off' : ℕ) × (zs : List Slot) × (o ≡ some (off', zs))
      × (off ≡ header + s.size + off')
      × (ys ≡ s ∷ zs)
behind-some s none off ys e = cc
behind-some s (some (off', zs)) off ys e = (off', zs, refl, ground arith, ground arith)

head_at-place : (k n size : ℕ) (xs : List Slot) → head_at k (place n size ++ xs) ≡ k
unfolding place
head_at-place k n size xs = elim (Bool-cases (leb (n + header + min_block_size) size)) [
  | inl e ↦ rw e
  | inr e ↦ rw e
]

-- A request neither empties a region nor moves its start.
pub head_at-request :
    (k n : ℕ) (xs : List Slot) (off : ℕ) (ys : List Slot)
    → request n xs ≡ some (off, ys)
    → head_at k ys ≡ head_at k xs
unfolding request
head_at-request k n [] off ys e = cc
head_at-request k n (s ∷ xs) off ys e = elim (Bool-cases (s.free && leb n s.size)) [
  | inl fits ↦
      let here : place n s.size ++ xs ≡ ys = cc (simp fits at e) in
      rw (← here) (head_at-place k n s.size xs)
  | inr none_here ↦
      let (off', zs, o, d, y) = behind-some s (request n xs) off ys (simp none_here at e) in rw y
]

-- The header found lies inside the region.
pub request-off :
    (n : ℕ) (xs : List Slot) (off : ℕ) (ys : List Slot)
    → request n xs ≡ some (off, ys)
    → off + header + n ≤ extent xs
unfolding request
request-off n [] off ys e = cc
request-off n (s ∷ xs) off ys e = elim (Bool-cases (s.free && leb n s.size)) [
  | inl fits ↦ let here : 0 ≡ off = cc (simp fits at e) in omega (arith, fit_size s n fits)
  | inr none_here ↦
      let (off', zs, o, d, y) = behind-some s (request n xs) off ys (simp none_here at e) in
      omega (arith, request-off n xs off' zs o)
]
  where
    fit_size : (s : Slot) (n : ℕ) → (s.free && leb n s.size) ≡ true → n ≤ s.size
    fit_size s n h = ground arith

-- The block found is taken.
pub take_request :
    (c : Cells) (prev a n : ℕ) (xs : List Slot) (off : ℕ) (ys : List Slot)
    → request n xs ≡ some (off, ys)
    → Fits a xs
    → Chain c prev a xs
    → Rewritten c prev a ys (take_cells c (a + off) n)
unfolding request
take_request c prev a n [] off ys e fits h = cc
take_request c prev a n (s ∷ xs) off ys e fits h = elim (Bool-cases (s.free && leb n s.size)) [
  | inl fit ↦
      let here : place n s.size ++ xs ≡ ys = cc (simp fit at e) in
      let zero_off : 0 ≡ off = cc (simp fit at e) in
      let at_a : a + off ≡ a = omega arith in
      rw (at_a, ← here) (take_cells_lem c prev a n s xs fits (ground arith) h)
  | inr none_here ↦
      let (off', zs, o, d, y) = behind-some s (request n xs) off ys (simp none_here at e) in
      let at_a : a + off ≡ end_of a s + off' = omega arith in
      rw (at_a, y)
        (Rewritten-cons c prev a s xs zs (take_cells c (end_of a s + off') n) h.0
          (head_at-request (end_of a s) n xs off' zs o)
          (take_request c a (end_of a s) n xs off' zs o (omega arith) h.1))
]
