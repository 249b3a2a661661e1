-- ===== src/Memory/Paging/Regions.antt =====
-- The free regions of the virtual heap of kernel/memory/paging.c.
use os_ax.Base.{
  ℕ, ◌+◌, ◌-◌, ◌%◌, ◌≤◌, ◌<◌, ◌≡◌, ◌⊎◌, inl, inr, Option, none, some, List, [], ◌∷◌, arith, ◌==◌,
  leb, Bool-cases, ==→eq,
}
use os_ax.Memory.Paging.Huge.{huge_end}
use os_ax.Memory.Paging.Virtual.{FreeRegion, u64, kernel_heap_end, take_region}

-- Two ranges do not meet.
abbrev pub Beside : ℕ → ℕ → ℕ → ℕ → Type 0
Beside p n q m = (p + n ≤ q) ⊎ (q + m ≤ p)

-- A range meets no region of the list.
pub data Clear (p n : ℕ) : List FreeRegion → Type 0 where
  nil : Clear p n []
  cons :
      {r : FreeRegion} {rs : List FreeRegion}
      → Beside p n r.start r.size
      → Clear p n rs
      → Clear p n (r ∷ rs)

-- Regions of whole pages behind the huge pages and below `high` that do not meet.
pub data Regions (high : ℕ) : List FreeRegion → Type 0 where
  nil : Regions high []
  cons :
      {r : FreeRegion} {rs : List FreeRegion}
      → r.start % 4096 ≡ 0
      → r.size % 4096 ≡ 0
      → huge_end ≤ r.start
      → r.start + r.size ≤ high
      → Clear r.start r.size rs
      → Regions high rs
      → Regions high (r ∷ rs)

Beside-within : (p n q m a k : ℕ) → Beside p n a k → p ≤ q → q + m ≤ p + n → Beside q m a k
Beside-within p n q m a k (inl before) lo hi = inl (omega arith)
Beside-within p n q m a k (inr behind) lo hi = inr (omega arith)

Beside-inside : (q m p n a k : ℕ) → Beside q m p n → p ≤ a → a + k ≤ p + n → Beside q m a k
Beside-inside q m p n a k (inl before) lo hi = inl (omega arith)
Beside-inside q m p n a k (inr behind) lo hi = inr (omega arith)

Beside-swap : (p n q m : ℕ) → Beside p n q m → Beside q m p n
Beside-swap p n q m (inl before) = inr before
Beside-swap p n q m (inr behind) = inl behind

Clear-within :
    {p n : ℕ} {rs : List FreeRegion} (q m : ℕ) → Clear p n rs → p ≤ q → q + m ≤ p + n → Clear q m rs
Clear-within q m Clear.nil lo hi = Clear.nil
Clear-within {p} {n} q m (Clear.cons {r} beside rest) lo hi =
    Clear.cons (Beside-within p n q m r.start r.size beside lo hi) (Clear-within q m rest lo hi)

-- What lies behind all regions meets none.
pub Clear-above : {high : ℕ} {rs : List FreeRegion} (n : ℕ) → Regions high rs → Clear high n rs
Clear-above n Regions.nil = Clear.nil
Clear-above n (Regions.cons a b c d e rest) = Clear.cons (inr d) (Clear-above n rest)

pub Regions-mono :
    {high : ℕ} {rs : List FreeRegion} (high' : ℕ)
    → Regions high rs
    → high ≤ high'
    → Regions high' rs
Regions-mono high' Regions.nil le = Regions.nil
Regions-mono high' (Regions.cons a b c d e rest) le =
    Regions.cons a b c (omega arith) e (Regions-mono high' rest le)

-- A range of `total` bytes that is taken out of the regions, and what is left of them.
pub record Taken (high total : ℕ) (rs : List FreeRegion) (p : ℕ) (rs' : List FreeRegion)
    : Type 0 where
  pub aligned : p % 4096 ≡ 0
  pub low : huge_end ≤ p
  pub high_end : p + total ≤ high
  pub clear : Clear p total rs'
  pub regions : Regions high rs'
  pub kept : (q m : ℕ) → Clear q m rs → Clear q m rs' × Beside q m p total

-- What a search of the list gives.
pub data Search (high total : ℕ) (rs : List FreeRegion)
    : Option (ℕ × List FreeRegion) → Type 0 where
  nothing : Search high total rs none
  taken :
      {p : ℕ} {rs' : List FreeRegion}
      → Taken high total rs p rs'
      → Search high total rs (some (p, rs'))

module _ {high total : ℕ} {r : FreeRegion} {rs : List FreeRegion} (whole : total % 4096 ≡ 0)
    (small : high ≤ kernel_heap_end) (a : r.start % 4096 ≡ 0) (b : r.size % 4096 ≡ 0)
    (c : huge_end ≤ r.start) (d : r.start + r.size ≤ high) (e : Clear r.start r.size rs)
    (rest : Regions high rs) where
  -- The whole of the first region.
  take_exact : r.size ≡ total → Taken high total (r ∷ rs) r.start rs
  take_exact exact = record {
    aligned = a;
    low = c;
    high_end = omega arith;
    clear = Clear-within r.start total e (omega arith) (omega arith);
    regions = rest;
    kept = kept;
  }
    where
      kept : (q m : ℕ) → Clear q m (r ∷ rs) → Clear q m rs × Beside q m r.start total
      kept q m (Clear.cons beside clear) =
          (clear, Beside-inside q m r.start r.size r.start total beside (omega arith) (omega arith))

  -- The front of the first region.
  take_front :
      total < r.size
      → Taken high total
          (r ∷ rs)
          r.start
          (record { start = u64 (r.start + total); size = r.size - total } ∷ rs)
  take_front larger = record {
    aligned = a;
    low = c;
    high_end = omega arith;
    clear =
        Clear.cons (inl (omega arith)) (Clear-within r.start total e (omega arith) (omega arith));
    regions =
        Regions.cons (omega arith) (omega arith) (omega arith) (omega arith)
          (Clear-within (u64 (r.start + total)) (r.size - total) e (omega arith) (omega arith))
          rest;
    kept = kept;
  }
    where
      kept :
          (q m : ℕ)
          → Clear q m (r ∷ rs)
          → Clear q m (record { start = u64 (r.start + total); size = r.size - total } ∷ rs)
            × Beside q m r.start total
      kept q m (Clear.cons beside clear) = (
        Clear.cons
            (Beside-inside q m r.start r.size (u64 (r.start + total)) (r.size - total) beside
              (omega arith) (omega arith))
            clear,
        Beside-inside q m r.start r.size r.start total beside (omega arith) (omega arith),
      )

  -- A range of a later region.
  take_later :
      {p : ℕ} {rs' : List FreeRegion}
      → Taken high total rs p rs'
      → Taken high total (r ∷ rs) p (r ∷ rs')
  take_later {p} {rs'} t = record {
    aligned = t.aligned;
    low = t.low;
    high_end = t.high_end;
    clear = Clear.cons (Beside-swap r.start r.size p total (t.kept r.start r.size e).1) t.clear;
    regions = Regions.cons a b c d (t.kept r.start r.size e).0 t.regions;
    kept = kept;
  }
    where
      kept : (q m : ℕ) → Clear q m (r ∷ rs) → Clear q m (r ∷ rs') × Beside q m p total
      kept q m (Clear.cons beside clear) =
          (Clear.cons beside (t.kept q m clear).0, (t.kept q m clear).1)

  Search-later :
      (x : Option (ℕ × List FreeRegion))
      → Search high total rs x
      → Search high total (r ∷ rs) (elim x [ none ↦ none | some (p, rs') ↦ some (p, r ∷ rs') ])
  Search-later none nothing = nothing
  Search-later (some (p, rs')) (taken t) = taken (take_later t)

pub take_region-Taken :
    (high total : ℕ) (rs : List FreeRegion)
    → total % 4096 ≡ 0
    → high ≤ kernel_heap_end
    → Regions high rs
    → Search high total rs (take_region total rs)
unfolding take_region
take_region-Taken high total [] whole small Regions.nil = nothing
take_region-Taken high total (r ∷ rs) whole small (Regions.cons a b c d e rest) =
    let search_rest = take_region-Taken high total rs whole small rest in
    elim (Bool-cases (leb total r.size)) [
      | inl fits ↦ rw fits (elim (Bool-cases (r.size == total)) [
        | inl exact ↦
            rw exact (taken (take_exact whole small a b c d e rest (==→eq r.size total exact)))
        | inr larger ↦ rw larger (taken (take_front whole small a b c d e rest (ground arith)))
      ])
      | inr short ↦
          rw short (Search-later whole small a b c d e rest (take_region total rs) search_rest)
    ]
