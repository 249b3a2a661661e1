-- ===== src/Exfat/Disk.antt =====
-- The disk in memory of kernel/fs/exfat/exfat.c, its sectors and clusters. A buffer is a function
-- from offsets to bytes; those that `kmalloc` gives are taken to be there.
use os_ax.Base.{
  ℕ, zero, suc, ◌+◌, ◌-◌, ◌*◌, ◌/◌, Bool, true, false, not, ◌&&◌, ◌||◌, Option, none, some, ltb,
  leb, if◌then◌else◌,
}
use mathlib.Core.Option
use os_ax.Base.Words.{u32}

abbrev pub Buffer : Type 0
Buffer = ℕ → ℕ

-- `disk_buffer` is none before `exfat_init_disk`.
pub record Disk : Type 0 where
  pub disk_buffer : Option Buffer
  pub disk_size_sectors : ℕ

-- `size_mb` megabytes, in the memory that the allocation gives, if it does.
unfoldable pub exfat_init_disk : ℕ → Option Buffer → Disk
exfat_init_disk size_mb allocation = record {
  disk_buffer = allocation;
  disk_size_sectors = u32 (size_mb * 1024 * 1024) / 512;
}

-- The bytes of a sector.
unfoldable pub sector_bytes : ℕ → Buffer → Buffer
sector_bytes sector disk i = disk (u32 (sector * 512) + i)

-- The disk with a sector overwritten.
unfoldable pub put_sector : ℕ → Buffer → Buffer → Buffer
put_sector sector src disk a =
    let start = u32 (sector * 512) in
    if leb start a && ltb a (start + 512) then src (a - start) else disk a

unfoldable pub read_from : Option Buffer → ℕ → ℕ → Option Buffer
unfolding sector_bytes
read_from none size sector = none
read_from (some disk) size sector =
    if leb size sector then none else some (sector_bytes sector disk)

unfoldable pub disk_read_sector : ℕ → Disk → Option Buffer
unfolding read_from
disk_read_sector sector d = read_from d.disk_buffer d.disk_size_sectors sector

unfoldable pub write_to : Option Buffer → ℕ → ℕ → Buffer → Option Buffer
unfolding put_sector
write_to none size sector src = none
write_to (some disk) size sector src =
    if leb size sector then none else some (put_sector sector src disk)

-- The disk with other bytes.
abbrev pub with_bytes : Disk → Buffer → Disk
with_bytes d b = record d { disk_buffer = some b }

-- `none` where the code returns -1.
unfoldable pub disk_write_sector : ℕ → Buffer → Disk → Option Disk
unfolding write_to
disk_write_sector sector src d =
    Option.map (with_bytes d) (write_to d.disk_buffer d.disk_size_sectors sector src)

-- What the operations use of a mounted volume.
pub record Volume : Type 0 where
  pub cluster_count : ℕ
  pub bytes_per_sector : ℕ
  pub sectors_per_cluster : ℕ
  pub bytes_per_cluster : ℕ
  pub fat_start_sector : ℕ
  pub cluster_heap_start_sector : ℕ
  pub root_dir_cluster : ℕ

abbrev pub is_cluster : Volume → ℕ → Bool
is_cluster v cluster = not (ltb cluster 2 || leb (u32 (v.cluster_count + 2)) cluster)

abbrev pub first_sector : Volume → ℕ → ℕ
first_sector v cluster =
    u32 (v.cluster_heap_start_sector + u32 ((cluster - 2) * v.sectors_per_cluster))

-- A buffer with the bytes of a sector put at an offset.
unfoldable pub put_bytes : ℕ → Buffer → Buffer → Buffer
put_bytes start src buffer a =
    if leb start a && ltb a (start + 512) then src (a - start) else buffer a

-- The loop over the sectors of a cluster, from sector `i` on.
unfoldable pub read_sectors : ℕ → ℕ → ℕ → Volume → Disk → Buffer → Option Buffer
unfolding disk_read_sector put_bytes
read_sectors zero i first v d buffer = some buffer
read_sectors (suc rounds) i first v d buffer = elim (disk_read_sector (u32 (first + i)) d) [
  | none ↦ none
  | some bytes ↦
      read_sectors rounds (i + 1) first v d (put_bytes (u32 (i * v.bytes_per_sector)) bytes buffer)
]

unfoldable pub exfat_read_cluster : Volume → ℕ → Disk → Buffer → Option Buffer
unfolding read_sectors
exfat_read_cluster v cluster d buffer =
    if is_cluster v cluster
    then read_sectors v.sectors_per_cluster 0 (first_sector v cluster) v d buffer
    else none

-- The loop that writes, from sector `i` on: whether it went through, and the disk.
unfoldable pub write_sectors : ℕ → ℕ → ℕ → Volume → Buffer → Disk → Bool × Disk
unfolding disk_write_sector
write_sectors zero i first v buffer d = (true, d)
write_sectors (suc rounds) i first v buffer d =
    elim (disk_write_sector (u32 (first + i)) (λ a. buffer (u32 (i * v.bytes_per_sector) + a)) d) [
      | none ↦ (false, d)
      | some d' ↦ write_sectors rounds (i + 1) first v buffer d'
    ]

unfoldable pub exfat_write_cluster : Volume → ℕ → Buffer → Disk → Bool × Disk
unfolding write_sectors
exfat_write_cluster v cluster buffer d =
    if is_cluster v cluster
    then write_sectors v.sectors_per_cluster 0 (first_sector v cluster) v buffer d
    else (false, d)
