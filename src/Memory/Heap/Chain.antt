-- ===== src/Memory/Heap/Chain.antt =====
-- When the headers of kernel/memory/heap.c stand for a sequence of slots: they lie one behind the
-- other, and `next` and `prev` link each to its neighbours.
use os_ax.Base.{
  ℕ, ◌+◌, ◌^◌, ◌≤◌, ◌<◌, ◌≡◌, refl, ◌∙◌, ◌≢◌, Bool, true, false, some, List, [], ◌∷◌, arith,
  ==_refl, ne→==_false,
}
use os_ax.Base.Outcome.{Outcome, done}
use os_ax.Memory.Heap.{Block, Cells, header, update, set_prev_if}
use os_ax.Memory.Heap.Slots.{Slot, extent}

abbrev pub flag : Bool → ℕ
flag true = 1
flag false = 0

-- Where a sequence that begins at `a` has its first header: NULL if it is empty.
abbrev pub head_at : ℕ → List Slot → ℕ
head_at a [] = 0
head_at a (s ∷ xs) = a

abbrev pub end_of : ℕ → Slot → ℕ
end_of a s = a + (header + s.size)

-- The header of slot `s` at `a`, with `xs` behind it.
abbrev pub block_at : ℕ → ℕ → Slot → List Slot → Block
block_at prev a s xs = record {
  size = s.size;
  is_free = flag s.free;
  next = head_at (end_of a s) xs;
  prev = prev;
}

abbrev pub Chain : Cells → ℕ → ℕ → List Slot → Type 0
Chain c prev a [] = Unit
Chain c prev a (s ∷ xs) = (c a ≡ some (block_at prev a s xs)) × Chain c a (end_of a s) xs

-- Neither sizes nor addresses wrap.
pub record Fits (a : ℕ) (xs : List Slot) : Type 0 where
  pub start : 0 < a
  pub sizes : extent xs < 2 ^ 32
  pub addresses : a + extent xs < 2 ^ 64

-- `d` agrees with `c` below `a`.
abbrev pub SameBelow : ℕ → Cells → Cells → Type 0
SameBelow a c d = (k : ℕ) → k < a → d k ≡ c k

pub update_self : (c : Cells) (p : ℕ) (b : Block) → update c p b p ≡ some b
unfolding update
update_self c p b = rw ==_refl

pub update_ne : (c : Cells) (p : ℕ) (b : Block) (a : ℕ) → a ≢ p → update c p b a ≡ c a
unfolding update
update_ne c p b a h = rw (ne→==_false a p h)

-- A chain depends only on the store from its start on.
pub Chain-frame :
    (c d : Cells) (prev a : ℕ) (xs : List Slot)
    → ((k : ℕ) → a ≤ k → d k ≡ c k)
    → Chain c prev a xs
    → Chain d prev a xs
Chain-frame c d prev a [] same h = tt
Chain-frame c d prev a (s ∷ xs) same h = (
  same a (omega arith) ∙ h.0,
  Chain-frame c d a (end_of a s) xs (λ k lo. same k (omega arith)) h.1,
)

-- The store after `prev` of the first block, if there is one, was set to `v`.
unfoldable pub relink : Cells → ℕ → ℕ → List Slot → Cells
unfolding update
relink c v a [] = c
relink c v a (s ∷ xs) = update c a (block_at v a s xs)

module _ (c : Cells) (prev v a : ℕ) where
  pub set_prev_if-relink :
      (xs : List Slot)
      → 0 < a
      → Chain c prev a xs
      → set_prev_if c (head_at a xs) v ≡ done (relink c v a xs)
  unfolding set_prev_if relink
  set_prev_if-relink [] pos h = refl
  set_prev_if-relink (s ∷ xs) pos h = rw (ne→==_false a 0 (omega arith), h.0)

  pub relink_ne : (xs : List Slot) (k : ℕ) → k ≢ a → relink c v a xs k ≡ c k
  unfolding relink
  relink_ne [] k ne = refl
  relink_ne (s ∷ xs) k ne = update_ne c a (block_at v a s xs) k ne

  pub relink-Chain : (xs : List Slot) → Chain c prev a xs → Chain (relink c v a xs) v a xs
  unfolding relink
  relink-Chain [] h = tt
  relink-Chain (s ∷ xs) h = (
    update_self c a (block_at v a s xs),
    Chain-frame c (update c a (block_at v a s xs)) a (end_of a s) xs
        (λ k lo. update_ne c a (block_at v a s xs) k (omega arith)) h.1,
  )

-- What a rewrite of the chain that begins at `a` comes to: the chain of `ys`, and nothing below
-- `a` is touched.
pub record Rewritten (c : Cells) (prev a : ℕ) (ys : List Slot) (r : Outcome Cells) : Type 0 where
  pub cells : Cells
  pub returns : r ≡ done cells
  pub chain : Chain cells prev a ys
  pub below : SameBelow a c cells

-- A block in front stays as it was, as long as what is behind it is not emptied or filled.
pub Rewritten-cons :
    (c : Cells) (prev a : ℕ) (p : Slot) (xs ys : List Slot) (r : Outcome Cells)
    → c a ≡ some (block_at prev a p xs)
    → head_at (end_of a p) ys ≡ head_at (end_of a p) xs
    → Rewritten c a (end_of a p) ys r
    → Rewritten c prev a (p ∷ ys) r
Rewritten-cons c prev a p xs ys r at same w = record {
  cells = w.cells;
  returns = w.returns;
  chain = (w.below a (omega arith) ∙ at ∙ rw same, w.chain);
  below = λ k lt. w.below k (omega arith);
}
