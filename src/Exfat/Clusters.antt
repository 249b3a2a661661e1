-- ===== src/Exfat/Clusters.antt =====
-- `exfat_read_cluster` and `exfat_write_cluster` of kernel/fs/exfat/exfat.c.
use os_ax.Base.{
  ℕ, ◌+◌, ◌-◌, ◌*◌, ◌≤◌, ◌<◌, ◌≡◌, ◌≢◌, ◌⊎◌, refl, sym, ap, ◌∙◌, inl, inr, true, some, arith,
  Bool-cases,
}
use mathlib.Core.Path.{fun_ext}
use native.Mathlib.Decide.{dec_lt}
use os_ax.Base.Words.{u32}
use os_ax.Exfat.Disk.{
  Buffer, Disk, Volume, with_bytes, is_cluster, first_sector, exfat_read_cluster,
  exfat_write_cluster, read_sectors, write_sectors,
}
use os_ax.Exfat.Fat.{word_at, exfat_get_next_cluster}
use os_ax.Exfat.Entries
use os_ax.Exfat.Entries.{
  entry_place, is_cluster_at, is_cluster-bounds, valid_with_bytes, exfat_get_next_cluster_at,
}
use os_ax.Exfat.Sectors.{Copied, read_sectors-Copied, write_sectors-Copied}

-- A valid volume of clusters of eight sectors, which lie behind the FAT on the disk.
pub record IsValid (v : Volume) (d : Disk) : Type 0 where
  pub fat : Entries.IsValid v d
  pub cluster_size : v.sectors_per_cluster ≡ 8
  pub cluster_bytes : v.bytes_per_cluster ≡ 4096
  pub behind :
      v.fat_start_sector * 512 + (v.cluster_count + 2) * 4 ≤ v.cluster_heap_start_sector * 512
  pub fits : v.cluster_heap_start_sector + v.cluster_count * 8 ≤ d.disk_size_sectors

module _ (v : Volume) (d : Disk) (valid : IsValid v d) (c : ℕ) (lo : 2 ≤ c)
    (hi : c < v.cluster_count + 2) where
  -- Where the cluster begins.
  first_place : first_sector v c ≡ v.cluster_heap_start_sector + (c - 2) * 8
  first_place =
      ap (λ k. u32 (v.cluster_heap_start_sector + u32 ((c - 2) * k))) valid.cluster_size
      ∙ omega (arith, valid.fits, valid.fat.small)

  inside : first_sector v c + 0 + 8 ≤ d.disk_size_sectors
  inside = omega (arith, first_place, valid.fits)

  pub read_cluster_at :
      (buffer : Buffer)
      → (buffer' : Buffer) × (exfat_read_cluster v c d buffer ≡ some buffer')
        × Copied 0 4096 (λ a. valid.fat.bytes (first_sector v c * 512 + a)) buffer buffer'
  unfolding exfat_read_cluster
  read_cluster_at buffer =
      let valid_c = is_cluster_at v d valid.fat c lo hi in
      let (buffer', read, copied) =
        read_sectors-Copied v valid.fat.sector_size (first_sector v c) 8 0 d valid.fat.bytes buffer
          valid.fat.present valid.fat.small inside in
      (
        buffer',
        rw valid_c
            (ap (λ k. read_sectors k 0 (first_sector v c) v d buffer) valid.cluster_size ∙ read),
        copied,
      )

  write_cluster_at :
      (buffer : Buffer)
      → (bytes : Buffer) × (exfat_write_cluster v c buffer d ≡ (true, with_bytes d bytes))
        × Copied
            (first_sector v c * 512)
            (first_sector v c * 512 + 4096)
            (λ a. buffer (a - first_sector v c * 512))
            valid.fat.bytes
            bytes
  unfolding exfat_write_cluster
  write_cluster_at buffer =
      let valid_c = is_cluster_at v d valid.fat c lo hi in
      let (bytes, wrote, copied) =
        write_sectors-Copied v valid.fat.sector_size (first_sector v c) 8 0 d valid.fat.bytes buffer
          valid.fat.present valid.fat.small inside in
      (
        bytes,
        rw valid_c
            (ap (λ k. write_sectors k 0 (first_sector v c) v buffer d) valid.cluster_size ∙ wrote),
        λ a. ground (arith, copied a),
      )

clusters_with_bytes :
    {v : Volume} {d : Disk} (b : Buffer) → IsValid v d → IsValid v (with_bytes d b)
clusters_with_bytes b valid = record {
  fat = valid_with_bytes b valid.fat;
  cluster_size = valid.cluster_size;
  cluster_bytes = valid.cluster_bytes;
  behind = valid.behind;
  fits = valid.fits;
}

-- Two reads that copy bytes that agree give the same.
same_copy :
    (src src' old new new' : Buffer)
    → Copied 0 4096 src old new
    → Copied 0 4096 src' old new'
    → ((a : ℕ) → a < 4096 → src a ≡ src' a)
    → new ≡ new'
same_copy src src' old new new' copied copied' agree = fun_ext λ a. elim (dec_lt a 4096) [
  | yes lt ↦ ground (arith, copied a, copied' a, agree a lt)
  | no ge ↦ ground (arith, copied a, copied' a)
]

module _ (v : Volume) (d : Disk) (valid : IsValid v d) (c : ℕ) (lo : 2 ≤ c)
    (hi : c < v.cluster_count + 2) (buffer bytes : Buffer)
    (copied : Copied
      (first_sector v c * 512)
      (first_sector v c * 512 + 4096)
      (λ a. buffer (a - first_sector v c * 512))
      valid.fat.bytes
      bytes) where
  -- A byte outside the cluster is as it was.
  byte_outside :
      (a : ℕ)
      → (a < first_sector v c * 512) ⊎ (first_sector v c * 512 + 4096 ≤ a)
      → bytes a ≡ valid.fat.bytes a
  byte_outside a (inl before) = ground (arith, copied a)
  byte_outside a (inr behind) = ground (arith, copied a)

  byte_inside : (a : ℕ) → a < 4096 → bytes (first_sector v c * 512 + a) ≡ buffer a
  byte_inside a small =
      let place : first_sector v c * 512 + a - first_sector v c * 512 ≡ a = omega arith in
      ground (arith, copied (first_sector v c * 512 + a), ap buffer place)

  read_back :
      (into : Buffer)
      → (result : Buffer) × (exfat_read_cluster v c (with_bytes d bytes) into ≡ some result)
        × ((a : ℕ) → a < 4096 → result a ≡ buffer a)
  unfolding clusters_with_bytes valid_with_bytes
  read_back into =
      let (result, read, copy) =
        read_cluster_at v (with_bytes d bytes) (clusters_with_bytes bytes valid) c lo hi into in
      (result, read, λ a small. ground (arith, copy a, byte_inside a small))

  apart :
      (k a : ℕ)
      → 2 ≤ k
      → k < v.cluster_count + 2
      → k ≢ c
      → a < 4096
      → (first_sector v k * 512 + a < first_sector v c * 512)
        ⊎ (first_sector v c * 512 + 4096 ≤ first_sector v k * 512 + a)
  apart k a low high other small = elim (dec_lt k c) [
    | yes lt ↦ inl (omega (arith, first_place v d valid k low high, first_place v d valid c lo hi))
    | no ge ↦ inr (omega (arith, first_place v d valid k low high, first_place v d valid c lo hi))
  ]

  read_other :
      (k : ℕ) (into : Buffer)
      → k ≢ c
      → exfat_read_cluster v k (with_bytes d bytes) into ≡ exfat_read_cluster v k d into
  unfolding clusters_with_bytes valid_with_bytes exfat_read_cluster
  read_other k into other = elim (Bool-cases (is_cluster v k)) [
    | inl valid_k ↦
        let bounds = is_cluster-bounds v d valid.fat k valid_k in
        let (new, read, copy) =
          read_cluster_at v (with_bytes d bytes) (clusters_with_bytes bytes valid) k bounds.0
            bounds.1 into in
        let (old, read', copy') = read_cluster_at v d valid k bounds.0 bounds.1 into in
        let same : new ≡ old =
          same_copy (λ a. bytes (first_sector v k * 512 + a))
            (λ a. valid.fat.bytes (first_sector v k * 512 + a)) into new old copy copy'
            (λ a small.
              byte_outside (first_sector v k * 512 + a)
                (apart k a bounds.0 bounds.1 other small)) in
        read ∙ ap some same ∙ sym read'
    | inr no_cluster ↦ rw no_cluster refl
  ]

  next_same :
      (k : ℕ) → exfat_get_next_cluster v k (with_bytes d bytes) ≡ exfat_get_next_cluster v k d
  unfolding valid_with_bytes exfat_get_next_cluster word_at
  next_same k = elim (Bool-cases (is_cluster v k)) [
    | inl valid_k ↦
        let (low, high) = is_cluster-bounds v d valid.fat k valid_k in
        let p = entry_place v k in
        let start = first_place v d valid c lo hi in
        let byte : (j : ℕ) → j < 4 → bytes (p + j) ≡ valid.fat.bytes (p + j) =
          λ j small. byte_outside (p + j) (inl (omega (arith, valid.behind, start))) in
        let byte0 : bytes p ≡ valid.fat.bytes p =
          byte_outside p (inl (omega (arith, valid.behind, start))) in
        let same : word_at p bytes ≡ word_at p valid.fat.bytes =
          omega (arith, byte0, byte 1 (omega arith), byte 2 (omega arith), byte 3 (omega arith)) in
        exfat_get_next_cluster_at v (with_bytes d bytes) (valid_with_bytes bytes valid.fat) k low
          high
        ∙ same
        ∙ sym (exfat_get_next_cluster_at v d valid.fat k low high)
    | inr no_cluster ↦ rw no_cluster refl
  ]

-- Byte `a` of a cluster.
abbrev pub byte_at : {v : Volume} {d : Disk} → IsValid v d → ℕ → ℕ → ℕ
byte_at {v} valid c a = valid.fat.bytes (first_sector v c * 512 + a)

-- The bytes of the clusters after one is written.
pub write_cluster_bytes :
    (v : Volume) (d : Disk) (c : ℕ) (buffer : Buffer) (valid : IsValid v d)
    → 2 ≤ c
    → c < v.cluster_count + 2
    → (d' : Disk) × (valid' : IsValid v d') × (exfat_write_cluster v c buffer d ≡ (true, d'))
      × ((a : ℕ) → a < 4096 → byte_at valid' c a ≡ buffer a)
      × ((k a : ℕ)
          → 2 ≤ k
          → k < v.cluster_count + 2
          → k ≢ c
          → a < 4096
          → byte_at valid' k a ≡ byte_at valid k a)
      × ((k : ℕ) → exfat_get_next_cluster v k d' ≡ exfat_get_next_cluster v k d)
unfolding clusters_with_bytes valid_with_bytes
write_cluster_bytes v d c buffer valid lo hi =
    let (bytes, wrote, copied) = write_cluster_at v d valid c lo hi buffer in
    (
      with_bytes d bytes,
      clusters_with_bytes bytes valid,
      wrote,
      byte_inside v d valid c lo hi buffer bytes copied,
      (λ k a low high other small.
          byte_outside v d valid c lo hi buffer bytes copied (first_sector v k * 512 + a)
            (apart v d valid c lo hi buffer bytes copied k a low high other small)),
      next_same v d valid c lo hi buffer bytes copied,
    )

-- Writing a cluster of a valid volume succeeds. What is read from it after that is what was written;
-- what is read from any other cluster, and what comes next after any cluster, is as it was; the
-- volume is valid.
pub exfat_read_cluster-write_cluster :
    (v : Volume) (d : Disk) (c : ℕ) (buffer : Buffer)
    → IsValid v d
    → 2 ≤ c
    → c < v.cluster_count + 2
    → (d' : Disk) × (exfat_write_cluster v c buffer d ≡ (true, d'))
      × IsValid v d'
      × ((into : Buffer)
          → (result : Buffer) × (exfat_read_cluster v c d' into ≡ some result)
            × ((a : ℕ) → a < 4096 → result a ≡ buffer a))
      × ((k : ℕ) (into : Buffer)
          → k ≢ c
          → exfat_read_cluster v k d' into ≡ exfat_read_cluster v k d into)
      × ((k : ℕ) → exfat_get_next_cluster v k d' ≡ exfat_get_next_cluster v k d)
exfat_read_cluster-write_cluster v d c buffer valid lo hi =
    let (bytes, wrote, copied) = write_cluster_at v d valid c lo hi buffer in
    (
      with_bytes d bytes,
      wrote,
      clusters_with_bytes bytes valid,
      read_back v d valid c lo hi buffer bytes copied,
      read_other v d valid c lo hi buffer bytes copied,
      next_same v d valid c lo hi buffer bytes copied,
    )
