-- ===== src/Memory/Heap/Slots.antt =====
-- What the kernel heap promises, without pointers: a region is a sequence of slots, each behind a
-- header. A request takes the first slot that is large enough; a slot given back joins its free
-- neighbours.
use os_ax.Base.{
  ℕ, ◌+◌, ◌-◌, ◌≡◌, refl, Bool, true, false, ◌&&◌, Option, none, some, List, [], ◌∷◌, ◌++◌, arith,
  leb, leb→le, if◌then◌else◌, Bool-cases, inl, inr,
}
use os_ax.Memory.Heap.{header, min_block_size}

pub record Slot : Type 0 where
  pub size : ℕ
  pub free : Bool

abbrev pub used_slot : ℕ → Slot
used_slot n = record { size = n; free = false }

abbrev pub free_slot : ℕ → Slot
free_slot n = record { size = n; free = true }

-- Bytes from the first header to the end of the last slot.
abbrev pub extent : List Slot → ℕ
extent [] = 0
extent (s ∷ xs) = header + s.size + extent xs

-- A slot of at least `n` bytes, taken: the rest is split off if it is worth a header.
unfoldable pub place : ℕ → ℕ → List Slot
place n size =
    if leb (n + header + min_block_size) size
    then used_slot n ∷ free_slot (size - n - header) ∷ []
    else used_slot size ∷ []

-- What is found behind a slot.
abbrev pub behind : Slot → Option (ℕ × List Slot) → Option (ℕ × List Slot)
behind s none = none
behind s (some (off, ys)) = some (header + s.size + off, s ∷ ys)

-- First fit, with the offset of the slot's header.
unfoldable pub request : ℕ → List Slot → Option (ℕ × List Slot)
request n [] = none
request n (s ∷ xs) =
    if s.free && leb n s.size then some (0, place n s.size ++ xs) else behind s (request n xs)

-- A free slot with the free slot behind it, if there is one.
unfoldable pub join_next : ℕ → List Slot → List Slot
join_next size [] = free_slot size ∷ []
join_next size (n ∷ xs) =
    if n.free then free_slot (size + (header + n.size)) ∷ xs else free_slot size ∷ n ∷ xs

-- A slot in front of a list that begins with a slot just freed.
unfoldable pub join_prev : Slot → List Slot → List Slot
join_prev p [] = p ∷ []
join_prev p (s ∷ xs) = if p.free then free_slot (p.size + (header + s.size)) ∷ xs else p ∷ s ∷ xs

-- The slot behind `ys` given back.
unfoldable pub give_back : List Slot → Slot → List Slot → List Slot
unfolding join_next join_prev
give_back [] s xs = join_next s.size xs
give_back (p ∷ []) s xs = join_prev p (join_next s.size xs)
give_back (p ∷ q ∷ ys) s xs = p ∷ give_back (q ∷ ys) s xs

extent-place :
    (n size : ℕ) (xs : List Slot) → extent (place n size ++ xs) ≡ header + size + extent xs
unfolding place
extent-place n size xs = elim (Bool-cases (leb (n + header + min_block_size) size)) [
  | inl e ↦ rw e (omega (arith, leb→le _ _ e))
  | inr e ↦ rw e
]

extent-behind :
    (s : Slot) (o : Option (ℕ × List Slot)) (k : ℕ)
    → ((off : ℕ) (zs : List Slot) → o ≡ some (off, zs) → extent zs ≡ k)
    → (off : ℕ) (ys : List Slot) → behind s o ≡ some (off, ys)
    → extent ys ≡ header + s.size + k
extent-behind s none k h off ys e = cc
extent-behind s (some (off', zs)) k h off ys e = ground (arith, h off' zs refl)

-- A request neither loses nor makes up memory.
pub extent-request :
    (n : ℕ) (xs : List Slot) (off : ℕ) (ys : List Slot)
    → request n xs ≡ some (off, ys)
    → extent ys ≡ extent xs
unfolding request
extent-request n [] off ys e = cc
extent-request n (s ∷ xs) off ys e = elim (Bool-cases (s.free && leb n s.size)) [
  | inl fits ↦
      let here : place n s.size ++ xs ≡ ys = cc (rw fits at e) in
      rw (← here) (extent-place n s.size xs)
  | inr not ↦ extent-behind s (request n xs) (extent xs) (extent-request n xs) off ys (rw not at e)
]

pub extent-join_next :
    (size : ℕ) (xs : List Slot) → extent (join_next size xs) ≡ header + size + extent xs
unfolding join_next
extent-join_next size [] = refl
extent-join_next size (n ∷ xs) = ground arith

extent-join_prev :
    (p : Slot) (xs : List Slot) → extent (join_prev p xs) ≡ header + p.size + extent xs
unfolding join_prev
extent-join_prev p [] = refl
extent-join_prev p (s ∷ xs) = ground arith

pub extent-give_back :
    (ys : List Slot) (s : Slot) (xs : List Slot)
    → extent (give_back ys s xs) ≡ extent (ys ++ s ∷ xs)
unfolding give_back
extent-give_back [] s xs = extent-join_next s.size xs
extent-give_back (p ∷ []) s xs =
    omega (arith, extent-join_prev p (join_next s.size xs), extent-join_next s.size xs)
extent-give_back (p ∷ q ∷ ys) s xs = omega (arith, extent-give_back (q ∷ ys) s xs)

pub extent-append : (ys xs : List Slot) → extent (ys ++ xs) ≡ extent ys + extent xs
extent-append [] xs = omega arith
extent-append (y ∷ ys) xs = omega (arith, extent-append ys xs)
