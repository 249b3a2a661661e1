-- ===== src/Exfat/Fat.antt =====
-- The FAT of kernel/fs/exfat/exfat.c and kernel/fs/exfat/exfat_fileops.c: the next cluster of each
-- cluster, four bytes for each.
use os_ax.Base.{ℕ, zero, suc, ◌+◌, ◌-◌, ◌*◌, ◌/◌, ◌%◌, Option, none, some, ◌==◌, if◌then◌else◌}
use os_ax.Base.Words.{u32}
use os_ax.Exfat.Disk.{Buffer, Disk, Volume, disk_read_sector, disk_write_sector, is_cluster}

-- `*(uint32_t*)(buffer + offset)`
unfoldable pub word_at : ℕ → Buffer → ℕ
word_at offset b =
    b offset + 256 * b (offset + 1) + 65536 * b (offset + 2) + 16777216 * b (offset + 3)

unfoldable pub put_word : ℕ → ℕ → Buffer → Buffer
put_word offset value b a =
    if a == offset
    then value % 256
    else if a == offset + 1
    then value / 256 % 256
    else if a == offset + 2
    then value / 65536 % 256
    else if a == offset + 3
    then value / 16777216 % 256
    else b a

abbrev pub end_of_chain : ℕ
end_of_chain = 0xFFFFFFFF

-- The sector and the offset in it of a cluster's entry.
abbrev pub fat_sector : Volume → ℕ → ℕ
fat_sector v cluster = u32 (v.fat_start_sector + u32 (cluster * 4) / v.bytes_per_sector)

abbrev pub fat_entry_offset : Volume → ℕ → ℕ
fat_entry_offset v cluster = u32 (cluster * 4) % v.bytes_per_sector

-- The entry of a cluster, if its sector can be read.
unfoldable pub read_fat_entry : Volume → ℕ → Disk → Option ℕ
unfolding word_at
read_fat_entry v cluster d = elim (disk_read_sector (fat_sector v cluster) d) [
  | none ↦ none
  | some sector ↦ some (word_at (fat_entry_offset v cluster) sector)
]

unfoldable pub exfat_get_next_cluster : Volume → ℕ → Disk → ℕ
unfolding read_fat_entry
exfat_get_next_cluster v cluster d =
    if is_cluster v cluster
    then elim (read_fat_entry v cluster d) [ none ↦ end_of_chain | some next ↦ next ]
    else end_of_chain

-- `none` where the code returns -1.
unfoldable pub exfat_write_fat_entry : Volume → ℕ → ℕ → Disk → Option Disk
unfolding put_word
exfat_write_fat_entry v cluster value d = elim (disk_read_sector (fat_sector v cluster) d) [
  | none ↦ none
  | some sector ↦
      disk_write_sector (fat_sector v cluster) (put_word (fat_entry_offset v cluster) value sector)
        d
]

-- What the disk is after a write whose result is not looked at.
abbrev pub written : Disk → Option Disk → Disk
written d none = d
written d (some d') = d'

-- The loop over the clusters, from `cluster` on.
unfoldable pub alloc_from : ℕ → ℕ → Volume → Disk → ℕ × Disk
unfolding read_fat_entry exfat_write_fat_entry
alloc_from zero cluster v d = (0, d)
alloc_from (suc rounds) cluster v d =
    let rest = alloc_from rounds (cluster + 1) v d in
    elim (read_fat_entry v cluster d) [
      | none ↦ (0, d)
      | some entry ↦
          if entry == 0
          then (cluster, written d (exfat_write_fat_entry v cluster end_of_chain d))
          else rest
    ]

unfoldable pub exfat_alloc_cluster : Volume → Disk → ℕ × Disk
unfolding alloc_from
exfat_alloc_cluster v d = alloc_from (u32 (v.cluster_count + 2) - 2) 2 v d
