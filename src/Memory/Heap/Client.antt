-- ===== src/Memory/Heap/Client.antt =====
-- The kernel heap of kernel/memory/heap.c against its sequence of slots: what `kmalloc`, `kfree`
-- and `heap_get_stats` do to a heap of one region.
use os_ax.Base.{
  ℕ, ◌+◌, ◌-◌, ◌*◌, ◌/◌, ◌^◌, ◌<◌, ◌≡◌, refl, sym, ap, ◌∙◌, ◌≢◌, none, some, List, [], ◌∷◌, ◌++◌,
  arith, true, ◌≤◌, leb, ◌==◌, ne→==_false, length, Bool-cases, inl, inr,
}
use os_ax.Base.Bits.{bit_and-mask}
use os_ax.Base.Words.{u32, u64, page_size}
use os_ax.Base.Outcome.{Outcome, done}
use os_ax.Memory.Heap.{Heap, PageSource, header, align8, find_from, find_free_block, kfree}
use os_ax.Memory.Heap.Requests.{kmalloc, take_block, expand_heap, heap_init}
use os_ax.Memory.Heap.Slots.{
  Slot, extent, free_slot, give_back, place, request, extent-give_back, extent-request,
  extent-append,
}
use os_ax.Memory.Heap.Chain.{Chain, Fits, head_at, update_self}
use os_ax.Memory.Heap.Find.{find_from_lem, found, take_request, head_at-request, request-off}
use os_ax.Memory.Heap.Release.{release_cells_lem, Fits-of_extent, head_at-give_back}

-- The heap is the region of the slots `xs`.
pub record IsHeap (h : Heap) (xs : List Slot) : Type 0 where
  pub chain : Chain h.cells 0 h.heap_start xs
  pub fits : Fits h.heap_start xs
  pub starts : head_at h.heap_start xs ≡ h.heap_start

-- Sizes are rounded up to a multiple of eight, as long as they do not wrap.
pub align8_lem : (size : ℕ) → size + 7 < 2 ^ 64 → align8 size ≡ (size + 7) / 8 * 8
unfolding align8
align8_lem size h = rw (bit_and-mask 3 61 (u64 (size + 7)) (omega arith)) (omega arith)

-- The walk of `find_free_block` on a whole heap.
find_free_block_lem :
    (fuel : ℕ) (h : Heap) (n : ℕ) (xs : List Slot)
    → IsHeap h xs
    → length xs < fuel
    → find_free_block fuel h n ≡ done (found h.heap_start (request n xs))
unfolding find_free_block
find_free_block_lem fuel h n xs is enough =
    ap (λ a. find_from fuel h.cells a n) (sym is.starts)
    ∙ find_from_lem fuel h.cells 0 h.heap_start n xs enough is.fits.start is.chain

module _ (pages : PageSource) (fuel requested : ℕ) (st : pages.State) (h : Heap) where
  -- What `kmalloc` returns when the region has room.
  pub record Allocated (off : ℕ) (ys : List Slot) (r : Outcome (ℕ × pages.State × Heap))
      : Type 0 where
    pub heap : Heap
    pub returns : r ≡ done (h.heap_start + off + header, st, heap)
    pub is : IsHeap heap ys

  -- `kmalloc` takes the first slot that is large enough for the rounded size, and returns the
  -- address behind its header; it asks for no pages, and the heap is the region after the request.
  pub kmalloc_lem :
      (xs : List Slot) (off : ℕ) (ys : List Slot)
      → IsHeap h xs
      → length xs < fuel
      → requested ≢ 0
      → request (align8 requested) xs ≡ some (off, ys)
      → Allocated off ys (kmalloc pages fuel requested st h)
  unfolding kmalloc take_block
  kmalloc_lem xs off ys is enough positive e =
      let n = align8 requested in
      let at = find_free_block_lem fuel h n xs is enough in
      let block = h.heap_start + off in
      let here : find_free_block fuel h n ≡ done block = rw e at at in
      let w = take_request h.cells 0 h.heap_start n xs off ys e is.fits is.chain in
      let bound = request-off n xs off ys e in
      let addr : u64 (block + header) ≡ block + header = omega (arith, bound, is.fits.addresses) in
      record {
        heap = record h { cells = w.cells };
        returns =
            rw (ne→==_false requested 0 positive, here, ne→==_false block 0 (omega arith))
              (rw (w.returns, addr));
        is = record {
          chain = w.chain;
          fits = Fits-of_extent h.heap_start xs ys (extent-request n xs off ys e) is.fits;
          starts = head_at-request h.heap_start n xs off ys e ∙ is.starts;
        };
      }

  expand_heap_fails :
      (size : ℕ)
      → ((n : ℕ) → (pages.alloc_pages n st).0 ≡ 0)
      → ((n : ℕ) → (pages.kmalloc_virtual n st).0 ≡ 0)
      → (st' : pages.State) × (expand_heap pages fuel size st h ≡ done (none, st'))
  unfolding expand_heap
  expand_heap_fails size no_pages no_virtual =
      let n = u32 (u64 (size + (page_size - 1)) / page_size) in
      elim (Bool-cases (h.paging_enabled == 0)) [
        | inl physical ↦
            ((pages.alloc_pages n st).1, rw physical (rw (ap (λ p. p == 0) (no_pages n))))
        | inr virtual ↦ (
          (pages.kmalloc_virtual (u32 (n * page_size)) st).1,
          rw virtual (rw (ap (λ p. p == 0) (no_virtual (u32 (n * page_size))))),
        )
      ]

  -- When no slot is large enough and there are no pages either, `kmalloc` returns NULL and the heap
  -- is as it was.
  pub kmalloc_out_of_memory :
      (xs : List Slot)
      → IsHeap h xs
      → length xs < fuel
      → requested ≢ 0
      → request (align8 requested) xs ≡ none
      → ((n : ℕ) → (pages.alloc_pages n st).0 ≡ 0)
      → ((n : ℕ) → (pages.kmalloc_virtual n st).0 ≡ 0)
      → (st' : pages.State) × (kmalloc pages fuel requested st h ≡ done (0, st', h))
  unfolding kmalloc
  kmalloc_out_of_memory xs is enough positive e no_pages no_virtual =
      let n = align8 requested in
      let at = find_free_block_lem fuel h n xs is enough in
      let nothing : find_free_block fuel h n ≡ done 0 = rw e at at in
      let (st', grown) = expand_heap_fails (u64 (n + header + 4096)) no_pages no_virtual in
      (st', rw (ne→==_false requested 0 positive, nothing) (rw grown))

heap_init-IsHeap :
    (pages : PageSource) (st : pages.State) (h : Heap)
    → (pages.alloc_pages 4096 st).0 ≢ 0
    → (pages.alloc_pages 4096 st).0 + 2 ^ 24 < 2 ^ 64
    → IsHeap (heap_init pages st h).1 (free_slot (2 ^ 24 - header) ∷ [])
      × ((heap_init pages st h).1.heap_start ≡ (pages.alloc_pages 4096 st).0)
unfolding heap_init
heap_init-IsHeap pages st h granted room =
    let base = (pages.alloc_pages 4096 st).0 in
    rw (ne→==_false base 0 granted) (
      record {
        chain = (update_self h.cells base _, tt);
        fits = record { start = omega arith; sizes = omega arith; addresses = omega arith };
        starts = refl;
      },
      refl,
    )

-- The first request of a heap of one slot.
request-free_slot :
    (n size : ℕ) → n ≤ size → request n (free_slot size ∷ []) ≡ some (0, place n size ++ [])
unfolding request
request-free_slot n size fits = let test : leb n size ≡ true = ground arith in rw test refl

-- After `heap_init` on 4096 pages that were granted, with as much address space, the first `kmalloc`,
-- of at least one byte and at most 16 MB less a header, returns the address behind the header at the
-- start of the pages, and leaves a heap of that slot and, where it is worth a header, a free slot with
-- the rest of the 16 MB.
pub kmalloc-heap_init :
    (pages : PageSource) (fuel requested : ℕ) (st : pages.State) (h : Heap)
    → (pages.alloc_pages 4096 st).0 ≢ 0
    → (pages.alloc_pages 4096 st).0 + 2 ^ 24 < 2 ^ 64
    → 1 < fuel
    → requested ≢ 0
    → requested ≤ 2 ^ 24 - header
    → let (st', h') = heap_init pages st h in
      (h'' : Heap) × (kmalloc pages fuel requested st' h'
        ≡ done ((pages.alloc_pages 4096 st).0 + header, st', h''))
      × IsHeap h'' (place ((requested + 7) / 8 * 8) (2 ^ 24 - header) ++ [])
kmalloc-heap_init pages fuel requested st h granted room enough positive fits =
    let (is, starts) = heap_init-IsHeap pages st h granted room in
    let rounded = align8_lem requested (omega arith) in
    let n = (requested + 7) / 8 * 8 in
    let first : request (align8 requested) (free_slot (2 ^ 24 - header) ∷ [])
        ≡ some (0, place n (2 ^ 24 - header) ++ []) =
      ap (λ k. request k (free_slot (2 ^ 24 - header) ∷ [])) rounded
      ∙ request-free_slot n (2 ^ 24 - header) (omega arith) in
    let (st', h') = heap_init pages st h in
    let got =
      kmalloc_lem pages fuel requested st' h' (free_slot (2 ^ 24 - header) ∷ []) 0
        (place n (2 ^ 24 - header) ++ []) is enough positive first in
    let at_start : h'.heap_start + 0 + header ≡ (pages.alloc_pages 4096 st).0 + header =
      omega (arith, starts) in
    (got.heap, got.returns ∙ ap (λ a. done (a, st', got.heap)) at_start, got.is)

-- `kfree` gives back the slot in front of which the address stands: it joins its free neighbours,
-- and the rest of the region is as it was.
pub kfree_lem :
    (h : Heap) (ys : List Slot) (s : Slot) (xs : List Slot)
    → IsHeap h (ys ++ s ∷ xs)
    → (h' : Heap) × (kfree h (h.heap_start + extent ys + header) ≡ done h')
      × IsHeap h' (give_back ys s xs)
unfolding kfree
kfree_lem h ys s xs is =
    let a = h.heap_start + extent ys in
    let size = extent-append ys (s ∷ xs) in
    let below : u64 (a + header + (2 ^ 64 - header)) ≡ a = omega (arith, size, is.fits.addresses) in
    let w = release_cells_lem h.cells h.heap_start ys s xs is.fits is.chain in
    (
      record h { cells = w.cells },
      rw (ne→==_false (a + header) 0 (omega arith), below) (rw w.returns),
      record {
        chain = w.chain;
        fits =
            Fits-of_extent h.heap_start (ys ++ s ∷ xs) (give_back ys s xs)
              (extent-give_back ys s xs) is.fits;
        starts = head_at-give_back h.heap_start ys s xs;
      },
    )
