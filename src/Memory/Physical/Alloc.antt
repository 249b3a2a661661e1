-- ===== src/Memory/Physical/Alloc.antt =====
-- `alloc_page` and `alloc_pages` of kernel/memory/physical_mm.c.
use os_ax.Base.{
  ℕ, zero, suc, ◌+◌, ◌-◌, ◌*◌, ◌≤◌, ◌<◌, ◌≡◌, refl, ◌∙◌, true, false, inl, inr, arith, ◌==◌, ltb,
  leb, ◌&&◌, if◌then◌else◌, Bool-cases, ==_false→ne, ==→eq, ne→==_false,
}
use native.Mathlib.Decide.{ℕ_discrete}
use os_ax.Base.Words.{u32, page_size}
use os_ax.Memory.Physical.{
  Pmm, page_bit, set_page, alloc_page_from, alloc_page, consecutive_free, set_pages,
  alloc_pages_from, alloc_pages,
}
use os_ax.Memory.Physical.View.{page_used, page_bit-page_used, page_used-set_page}
use os_ax.Memory.Physical.Invariant.{IsValid, inside, set_page-IsValid, total_pages-set_page}

-- Every page of `[lo, hi)` passes.
abbrev pub Used : Pmm → ℕ → ℕ → Type 0
Used s lo hi = (j : ℕ) → lo ≤ j → j < hi → page_used s j ≡ true

abbrev pub Free : Pmm → ℕ → ℕ → Type 0
Free s lo hi = (j : ℕ) → lo ≤ j → j < hi → page_used s j ≡ false

-- `t` is `s` with the pages of `[i, i + n)` taken as well.
pub record Takes (s : Pmm) (i n : ℕ) (t : Pmm) : Type 0 where
  pub were_free : Free s i (i + n)
  pub in_range : i + n ≤ s.total_pages
  pub view : (j : ℕ) → page_used t j ≡ (if leb i j && ltb j (i + n) then true else page_used s j)
  pub same_total : t.total_pages ≡ s.total_pages
  pub valid : IsValid t

-- What an allocation of `n` pages returns: a run of free pages, the first that there is, or NULL
-- and no change.
pub data Result (s : Pmm) (n : ℕ) : ℕ × Pmm → Type 0 where
  got :
      (i : ℕ) (t : Pmm)
      → Takes s i n t
      → ((k : ℕ) → k < i → ¬ (Free s k (k + n)))
      → Result s n (i * page_size, t)
  failed : ((k : ℕ) → k + n ≤ s.total_pages → ¬ (Free s k (k + n))) → Result s n (0, s)

-- One page.
Takes-one :
    {s : Pmm} (i : ℕ)
    → IsValid s
    → i < s.total_pages
    → page_used s i ≡ false
    → Takes s i 1 (set_page s i)
Takes-one {s} i v below free = record {
  were_free = λ j lo hi. let e : j ≡ i = omega arith in rw e free;
  in_range = omega arith;
  view = λ j. rw (page_used-set_page s i j (inside i v below)) (ground arith);
  same_total = total_pages-set_page s i;
  valid = set_page-IsValid i v below free;
}

not-Free : (s : Pmm) (k : ℕ) → (page_bit s k == 0) ≡ false → ¬ (Free s k (k + 1))
not-Free s k t f = ground (arith, page_bit-page_used s k, f k (omega arith) (omega arith))

alloc_page_from_lem :
    {s : Pmm} (rounds i : ℕ)
    → IsValid s
    → i + rounds ≡ s.total_pages
    → ((k : ℕ) → k < i → ¬ (Free s k (k + 1)))
    → Result s 1 (alloc_page_from rounds i s)
unfolding alloc_page_from
alloc_page_from_lem zero i v e seen = failed (λ k h. seen k (omega arith))
alloc_page_from_lem {s} (suc rounds) i v e seen = elim (Bool-cases (page_bit s i == 0)) [
  | inl free ↦
      let small : u32 (i * page_size) ≡ i * page_size = omega (arith, v.small) in
      rw (free, small)
        (got i (set_page s i) (Takes-one i v (omega arith) (ground (arith, page_bit-page_used s i)))
          seen)
  | inr used ↦ rw used (
      alloc_page_from_lem rounds (i + 1) v (omega arith) (λ k h. elim (ℕ_discrete k i) [
        | yes k_is_i ↦ rw k_is_i (not-Free s i used)
        | no ne ↦ seen k (omega arith)
      ]))
]

-- `alloc_page` takes the first free page, and only that, or returns NULL when there is none and
-- changes nothing; the invariant holds after it.
pub alloc_page_lem : {s : Pmm} → IsValid s → Result s 1 (alloc_page s)
unfolding alloc_page
alloc_page_lem {s} v = alloc_page_from_lem s.total_pages 0 v (omega arith) (λ k h. elim h [ ])

consecutive_free-le : (s : Pmm) (n i : ℕ) → consecutive_free s n i ≤ n
unfolding consecutive_free
consecutive_free-le s zero i = omega arith
consecutive_free-le s (suc n) i = ground (arith, consecutive_free-le s n (i + 1))

consecutive_free-Free : (s : Pmm) (n i : ℕ) → consecutive_free s n i ≡ n → Free s i (i + n)
unfolding consecutive_free
consecutive_free-Free s zero i e j lo hi = absurd (omega arith)
consecutive_free-Free s (suc n) i e j lo hi = elim (ℕ_discrete j i) [
  | yes d ↦ rw d (ground (arith, page_bit-page_used s i))
  | no d ↦ consecutive_free-Free s n (i + 1) (ground arith) j (omega arith) (omega arith)
]

Free-consecutive_free : (s : Pmm) (n i : ℕ) → Free s i (i + n) → consecutive_free s n i ≡ n
unfolding consecutive_free
Free-consecutive_free s zero i f = refl
Free-consecutive_free s (suc n) i f = ground (
  arith,
  page_bit-page_used s i,
  f i (omega arith) (omega arith),
  Free-consecutive_free s n (i + 1) (λ j lo hi. f j (omega arith) (omega arith)),
)

set_pages-Takes :
    (n i : ℕ) (s : Pmm)
    → IsValid s
    → i + n ≤ s.total_pages
    → Free s i (i + n)
    → Takes s i n (set_pages n i s)
unfolding set_pages
set_pages-Takes zero i s v h f = record {
  were_free = f;
  in_range = h;
  view = λ j. ground arith;
  same_total = refl;
  valid = v;
}
set_pages-Takes (suc n) i s v h f =
    let one = Takes-one i v (omega arith) (f i (omega arith) (omega arith)) in
    let rest : Takes (set_page s i) (i + 1) n (set_pages n (i + 1) (set_page s i)) =
      set_pages-Takes n (i + 1) (set_page s i) one.valid (omega (arith, one.same_total))
        (λ j lo hi. ground (arith, one.view j, f j)) in
    record {
      were_free = f;
      in_range = h;
      view = λ j. ground (arith, rest.view j, one.view j);
      same_total = rest.same_total ∙ one.same_total;
      valid = rest.valid;
    }

alloc_pages_from_lem :
    {s : Pmm} (n rounds i : ℕ)
    → IsValid s
    → 0 < n
    → i + rounds + n ≡ s.total_pages + 1
    → ((k : ℕ) → k < i → ¬ (Free s k (k + n)))
    → Result s n (alloc_pages_from n rounds i s)
unfolding alloc_pages_from
alloc_pages_from_lem n zero i v pos e seen = failed (λ k h. seen k (omega arith))
alloc_pages_from_lem {s} n (suc rounds) i v pos e seen =
    elim (Bool-cases (consecutive_free s n i == n)) [
      | inl all ↦
          let small : u32 (i * page_size) ≡ i * page_size = omega (arith, v.small) in
          rw (all, small)
            (got i (set_pages n i s)
              (set_pages-Takes n i s v (omega arith) (consecutive_free-Free s n i (==→eq _ _ all)))
              seen)
      | inr fewer ↦ rw fewer (
          alloc_pages_from_lem n rounds (i + 1) v pos (omega arith) (λ k h. elim (ℕ_discrete k i) [
            | yes k_is_i ↦ rw k_is_i (λ f. ==_false→ne _ _ fewer (Free-consecutive_free s n i f))
            | no ne ↦ seen k (omega arith)
          ]))
    ]

-- `alloc_pages` takes the first run of `count` free pages, and only that, or returns NULL when
-- there is none and changes nothing; the invariant holds after it.
pub alloc_pages_lem :
    {s : Pmm} (count : ℕ) → IsValid s → 0 < count → Result s count (alloc_pages count s)
unfolding alloc_pages
alloc_pages_lem {s} n v pos = rw (ne→==_false n 0 (omega arith)) (elim (Bool-cases (n == 1)) [
  | inl one ↦ rw (one, ==→eq n 1 one) (alloc_page_lem v)
  | inr many ↦ rw many (elim (Bool-cases (ltb s.total_pages n)) [
    | inl big ↦ rw big (failed (λ k h. absurd (ground arith)))
    | inr fits ↦
        rw fits (
          alloc_pages_from_lem n (s.total_pages - n + 1) 0 v pos (ground arith) (λ k h. elim h [ ]))
  ])
])
