-- ===== src/Exfat/Mount.antt =====
-- A volume that kernel/fs/exfat/exfat.c has formatted can be mounted.
use os_ax.Base.{ℕ, ◌+◌, ◌*◌, ◌/◌, ◌%◌, ◌^◌, ◌≤◌, ◌<◌, ◌≡◌, refl, sym, ap, ◌∙◌, some, arith}
use mathlib.Core.Path.{subst}
use os_ax.Exfat.Disk.{Buffer, Disk, Volume, sector_bytes, put_sector, with_bytes}
use os_ax.Exfat.Fat.{word_at, end_of_chain, exfat_get_next_cluster}
use os_ax.Exfat.Replaced.{
  sector_bytes-put_sector, put_sector-inside, sector_bytes-put_same, put_sector-before,
  written_sector,
}
use os_ax.Exfat.Entries.{disk_read_sector_at, exfat_get_next_cluster_at}
use os_ax.Exfat.Clusters.{IsValid}
use os_ax.Exfat.Format.{
  boot_sector, first_fat_sector, root_entries, fat_length, heap_offset, format_clusters, volume_of,
  half_at, mount_sector, exfat_format, exfat_mount,
}

-- The sizes of a volume of more than 15392 sectors.
geometry :
    (total : ℕ)
    → 15392 ≤ total
    → total < 2 ^ 23
    → (heap_offset total ≡ 24 + fat_length total)
      × (heap_offset total + format_clusters total * 8 ≤ total)
      × ((format_clusters total + 2) * 4 ≤ fat_length total * 512)
      × (1 ≤ format_clusters total)
unfolding format_clusters
geometry total large small = omega arith

mount_boot :
    (total : ℕ) → mount_sector (some (boot_sector total)) ≡ some (volume_of (boot_sector total))
unfolding mount_sector boot_sector half_at word_at
mount_boot total = refl

-- What the boot sector says.
abbrev formatted : ℕ → Volume
formatted total = record {
  cluster_count = format_clusters total;
  bytes_per_sector = 512;
  sectors_per_cluster = 8;
  bytes_per_cluster = 4096;
  fat_start_sector = 24;
  cluster_heap_start_sector = heap_offset total;
  root_dir_cluster = 2;
}

-- The fields of a volume in a boot sector.
abbrev volume_with : ℕ → ℕ → ℕ → Volume
volume_with clusters heap fat = record {
  cluster_count = clusters;
  bytes_per_sector = 512;
  sectors_per_cluster = 8;
  bytes_per_cluster = 4096;
  fat_start_sector = fat;
  cluster_heap_start_sector = heap;
  root_dir_cluster = 2;
}

word_value :
    (x : ℕ)
    → x < 2 ^ 32
    → x % 256 + 256 * (x / 256 % 256) + 65536 * (x / 65536 % 256) + 16777216 * (x / 16777216 % 256)
      ≡ x
word_value x small = omega arith

volume_of-boot_sector :
    (total : ℕ)
    → heap_offset total < 2 ^ 32
    → format_clusters total < 2 ^ 32
    → volume_of (boot_sector total) ≡ formatted total
unfolding volume_of boot_sector word_at
volume_of-boot_sector total heap clusters =
    ap (λ c. volume_with c (word_at 88 (boot_sector total)) 24)
      (word_value (format_clusters total) clusters)
    ∙ ap (λ h. volume_with (format_clusters total) h 24) (word_value (heap_offset total) heap)

module _ (b b' : Buffer) (agree : (i : ℕ) → i < 512 → b i ≡ b' i) where
  same_word : (o : ℕ) → o + 4 ≤ 512 → word_at o b ≡ word_at o b'
  unfolding word_at
  same_word o fits = omega (
    arith,
    agree o (omega arith),
    agree (o + 1) (omega arith),
    agree (o + 2) (omega arith),
    agree (o + 3) (omega arith),
  )

  same_half : (o : ℕ) → o + 2 ≤ 512 → half_at o b ≡ half_at o b'
  unfolding half_at
  same_half o fits = omega (arith, agree o (omega arith), agree (o + 1) (omega arith))

  -- Mounting reads only the sector.
  mount_same : mount_sector (some b) ≡ mount_sector (some b')
  unfolding mount_sector volume_of
  mount_same =
      rw
        (
          same_half 510 (omega arith),
          same_word 3 (omega arith),
          same_word 7 (omega arith),
          same_word 92 (omega arith),
          same_word 80 (omega arith),
          same_word 88 (omega arith),
          same_word 96 (omega arith),
          agree 108 (omega arith),
          agree 109 (omega arith),
        )
        refl

module _ (total : ℕ) (d : Disk) (bytes : Buffer) (present : d.disk_buffer ≡ some bytes)
    (large : 15392 ≤ total) (inside : total ≤ d.disk_size_sectors)
    (small : d.disk_size_sectors < 2 ^ 23) where
  with_boot : Buffer
  with_boot = put_sector 0 (boot_sector total) bytes

  with_fat : Buffer
  with_fat = put_sector 24 first_fat_sector with_boot

  with_root : Buffer
  with_root = put_sector (heap_offset total) (root_entries total) with_fat

  exfat_format-with_bytes : exfat_format total d ≡ with_bytes d with_root
  unfolding exfat_format with_root with_fat with_boot
  exfat_format-with_bytes =
      let (heap, room, _, some_cluster) = geometry total large (omega arith) in
      rw (written_sector 0 (boot_sector total) d bytes present (omega arith)) (
        rw
          (written_sector 24 first_fat_sector (with_bytes d with_boot) with_boot refl (omega arith))
          (written_sector (heap_offset total) (root_entries total) (with_bytes d with_fat) with_fat
            refl (omega arith)))

  boot_kept : (i : ℕ) → i < 512 → sector_bytes 0 with_root i ≡ boot_sector total i
  unfolding with_root with_fat with_boot
  boot_kept i lt =
      let (heap, room, _, some_cluster) = geometry total large (omega arith) in
      sector_bytes-put_sector 0 (heap_offset total) (root_entries total) with_fat (omega arith)
        (omega arith) (omega arith) i lt
      ∙ sector_bytes-put_sector 0 24 first_fat_sector with_boot (omega arith) (omega arith)
          (omega arith) i lt
      ∙ sector_bytes-put_same 0 (boot_sector total) bytes (omega arith) i lt

  mounted : exfat_mount (with_bytes d with_root) ≡ some (formatted total)
  unfolding exfat_mount
  mounted =
      let (heap, room, _, some_cluster) = geometry total large (omega arith) in
      ap mount_sector (disk_read_sector_at 0 (with_bytes d with_root) with_root refl (omega arith))
      ∙ mount_same (sector_bytes 0 with_root) (boot_sector total) boot_kept
      ∙ mount_boot total
      ∙ ap some (volume_of-boot_sector total (omega arith) (omega arith))

  formatted-IsValid : IsValid (formatted total) (with_bytes d with_root)
  formatted-IsValid =
      let (heap, room, entries, _) = geometry total large (omega arith) in
      record {
        fat = record {
          bytes = with_root;
          present = refl;
          small = small;
          sector_size = refl;
          clusters = omega arith;
          fat_fits = omega arith;
        };
        cluster_size = refl;
        cluster_bytes = refl;
        behind = omega arith;
        fits = omega arith;
      }

  root_byte : (j : ℕ) → j < 4 → with_root (24 * 512 + 8 + j) ≡ first_fat_sector (8 + j)
  unfolding with_root with_fat
  root_byte j lt =
      let (heap, room, entries, some_cluster) = geometry total large (omega arith) in
      let same_place : 24 * 512 + 8 + j ≡ 24 * 512 + (8 + j) = omega arith in
      put_sector-before (heap_offset total) (root_entries total) with_fat (omega arith)
        (24 * 512 + 8 + j) (omega arith)
      ∙ ap with_fat same_place
      ∙ put_sector-inside 24 first_fat_sector with_boot (omega arith) (8 + j) (omega arith)

  root_end : exfat_get_next_cluster (formatted total) 2 (with_bytes d with_root) ≡ end_of_chain
  unfolding word_at first_fat_sector formatted-IsValid
  root_end =
      let (heap, room, _, some_cluster) = geometry total large (omega arith) in
      exfat_get_next_cluster_at (formatted total) (with_bytes d with_root) formatted-IsValid.fat 2
        (omega arith) (omega arith)
      ∙ omega (
        arith,
        root_byte 0 (omega arith),
        root_byte 1 (omega arith),
        root_byte 2 (omega arith),
        root_byte 3 (omega arith),
      )

-- A volume of at least 15392 sectors and at most as many as the disk, which is there and smaller than
-- 4 GB, can be mounted when it is formatted. What is mounted is valid: the FAT has room for every
-- cluster and ends before the clusters, and these lie on the disk. The chain of the root directory
-- ends with its first cluster.
pub exfat_mount-format :
    (total : ℕ) (d : Disk) (bytes : Buffer)
    → d.disk_buffer ≡ some bytes
    → 15392 ≤ total
    → total ≤ d.disk_size_sectors
    → d.disk_size_sectors < 2 ^ 23
    → (v : Volume) × (exfat_mount (exfat_format total d) ≡ some v)
      × IsValid v (exfat_format total d)
      × (exfat_get_next_cluster v v.root_dir_cluster (exfat_format total d) ≡ end_of_chain)
exfat_mount-format total d bytes present large inside small =
    let same = exfat_format-with_bytes total d bytes present large inside small in
    (
      formatted total,
      ap exfat_mount same ∙ mounted total d bytes present large inside small,
      subst (IsValid (formatted total)) (sym same)
          (formatted-IsValid total d bytes present large inside small),
      ap (exfat_get_next_cluster (formatted total) 2) same
          ∙ root_end total d bytes present large inside small,
    )
