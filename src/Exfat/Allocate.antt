-- ===== src/Exfat/Allocate.antt =====
-- The search for a free cluster in kernel/fs/exfat/exfat_fileops.c.
use os_ax.Base.{
  ℕ, zero, suc, ◌+◌, ◌-◌, ◌≤◌, ◌<◌, ◌≡◌, ◌≢◌, sym, ◌∙◌, inl, inr, arith, ◌==◌, Bool-cases, ==→eq,
  ==_false→ne,
}
use native.Mathlib.Decide.{ℕ_discrete}
use os_ax.Base.Words.{u32}
use os_ax.Exfat.Disk.{Disk, Volume}
use os_ax.Exfat.Fat.{
  word_at, exfat_get_next_cluster, exfat_write_fat_entry, end_of_chain, written, alloc_from,
  exfat_alloc_cluster,
}
use os_ax.Exfat.Entries.{
  IsValid, entry_place, read_fat_entry_lem, exfat_get_next_cluster_at,
  exfat_write_fat_entry-get_next_cluster,
}

-- Cluster `c` is taken: it was the first free one, it ends a chain after it, and what comes next
-- after all others is as it was.
pub record Taken (v : Volume) (d : Disk) (c : ℕ) (d' : Disk) : Type 0 where
  pub inside : (2 ≤ c) × (c < v.cluster_count + 2)
  pub was_free : exfat_get_next_cluster v c d ≡ 0
  pub first : (k : ℕ) → 2 ≤ k → k < c → exfat_get_next_cluster v k d ≢ 0
  pub valid : IsValid v d'
  pub ends : exfat_get_next_cluster v c d' ≡ end_of_chain
  pub others : (k : ℕ) → k ≢ c → exfat_get_next_cluster v k d' ≡ exfat_get_next_cluster v k d

-- What a search gives: a cluster, or 0 and no change when none is free.
pub data Answer (v : Volume) (d : Disk) : ℕ × Disk → Type 0 where
  found : {c : ℕ} {d' : Disk} → Taken v d c d' → Answer v d (c, d')
  full :
      ((k : ℕ) → 2 ≤ k → k < v.cluster_count + 2 → exfat_get_next_cluster v k d ≢ 0)
      → Answer v d (0, d)

module _ (v : Volume) (d : Disk) (valid : IsValid v d) where
  take_cluster :
      (c : ℕ)
      → 2 ≤ c
      → c < v.cluster_count + 2
      → exfat_get_next_cluster v c d ≡ 0
      → ((k : ℕ) → 2 ≤ k → k < c → exfat_get_next_cluster v k d ≢ 0)
      → Answer v d (c, written d (exfat_write_fat_entry v c end_of_chain d))
  take_cluster c lo hi free first =
      let (d', wrote, valid', ends, others) =
        exfat_write_fat_entry-get_next_cluster v d c end_of_chain valid lo hi (omega arith) in
      rw wrote (
        found (record {
          inside = (lo, hi);
          was_free = free;
          first = first;
          valid = valid';
          ends = ends;
          others = others;
        }))

  alloc_from-Answer :
      (rounds c : ℕ)
      → 2 ≤ c
      → c + rounds ≡ v.cluster_count + 2
      → ((k : ℕ) → 2 ≤ k → k < c → exfat_get_next_cluster v k d ≢ 0)
      → Answer v d (alloc_from rounds c v d)
  unfolding alloc_from
  alloc_from-Answer zero c lo end seen = full λ k low high. seen k low (omega arith)
  alloc_from-Answer (suc rounds) c lo end seen =
      let hi : c < v.cluster_count + 2 = omega arith in
      let word = word_at (entry_place v c) valid.bytes in
      let next = exfat_get_next_cluster_at v d valid c lo hi in
      elim (Bool-cases (word == 0)) [
        | inl free ↦
            rw (alloc_from, read_fat_entry_lem v d valid c hi, free)
              (take_cluster c lo hi (next ∙ ==→eq word 0 free) seen)
        | inr used ↦
            rw (alloc_from, read_fat_entry_lem v d valid c hi, used)
              (alloc_from-Answer rounds (c + 1) (omega arith) (omega arith) (λ k low high.
                elim (ℕ_discrete k c) [
                  | yes is_c ↦ rw is_c (λ z. ==_false→ne word 0 used (sym next ∙ z))
                  | no other ↦ seen k low (omega arith)
                ]))
      ]

-- On a valid volume `exfat_alloc_cluster` takes the first cluster whose entry is 0 and marks it as
-- the end of a chain, which changes no other entry and leaves the volume valid; or it returns 0 and
-- changes nothing, and no entry is 0.
pub exfat_alloc_cluster_lem :
    (v : Volume) (d : Disk) → IsValid v d → Answer v d (exfat_alloc_cluster v d)
unfolding exfat_alloc_cluster
exfat_alloc_cluster_lem v d valid =
    let rounds : u32 (v.cluster_count + 2) - 2 ≡ v.cluster_count = omega (arith, valid.clusters) in
    rw rounds (
      alloc_from-Answer v d valid v.cluster_count 2 (omega arith) (omega arith)
        (λ k low high. absurd (omega arith)))
