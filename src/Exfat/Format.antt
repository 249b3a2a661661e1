-- ===== src/Exfat/Format.antt =====
-- `exfat_format` and `exfat_mount` of kernel/fs/exfat/exfat.c. The fields of a sector lie at the
-- offsets of the packed structures of include/fs/exfat.h. A shift of 1 by 32 or more, which C leaves
-- open, gives 0 here.
use os_ax.Base.{
  ℕ, ◌+◌, ◌-◌, ◌*◌, ◌/◌, ◌%◌, ◌^◌, Bool, ◌&&◌, Option, none, some, ◌==◌, if◌then◌else◌,
}
use os_ax.Base.Words.{u32}
use os_ax.Exfat.Disk.{Buffer, Disk, Volume, disk_read_sector, disk_write_sector}
use os_ax.Exfat.Fat.{word_at, put_word, end_of_chain, written}

abbrev pub zeroed : Buffer
zeroed i = 0

unfoldable pub put_byte : ℕ → ℕ → Buffer → Buffer
put_byte offset value b a = if a == offset then value % 256 else b a

unfoldable pub put_half : ℕ → ℕ → Buffer → Buffer
unfolding put_byte
put_half offset value b = put_byte (offset + 1) (value / 256) (put_byte offset value b)

unfoldable pub half_at : ℕ → Buffer → ℕ
half_at offset b = b offset + 256 * b (offset + 1)

-- "EXFAT   "
unfoldable pub put_name : Buffer → Buffer
unfolding put_word
put_name b = put_word 7 0x20202054 (put_word 3 0x41465845 b)

unfoldable pub has_name : Buffer → Bool
has_name b = (word_at 3 b == 0x41465845) && (word_at 7 b == 0x20202054)

-- Subtraction on 32 bits.
abbrev pub sub32 : ℕ → ℕ → ℕ
sub32 a b = u32 (a + 2 ^ 32 - b)

abbrev pub format_fat_offset : ℕ
format_fat_offset = 24

-- The length of the FAT in sectors, and what follows from it.
unfoldable pub fat_length : ℕ → ℕ
fat_length total_sectors =
    let max_clusters = sub32 total_sectors format_fat_offset / 8 in
    u32 (u32 (max_clusters * 4) + 511) / 512

unfoldable pub heap_offset : ℕ → ℕ
unfolding fat_length
heap_offset total_sectors = u32 (format_fat_offset + fat_length total_sectors)

unfoldable pub format_clusters : ℕ → ℕ
unfolding heap_offset
format_clusters total_sectors = sub32 total_sectors (heap_offset total_sectors) / 8

unfoldable pub boot_sector : ℕ → Buffer
unfolding put_byte put_half put_word put_name
boot_sector total_sectors =
    let start = put_name (put_byte 2 0x90 (put_byte 1 0x76 (put_byte 0 0xEB zeroed))) in
    let shifts = put_byte 109 3 (put_byte 108 9 (put_word 72 total_sectors start)) in
    let fat =
      put_byte 110 1
        (put_word 84 (fat_length total_sectors) (put_word 80 format_fat_offset shifts)) in
    let heap =
      put_word 92 (format_clusters total_sectors) (put_word 88 (heap_offset total_sectors) fat) in
    let others =
      put_byte 111 0x80 (put_half 104 0x100 (put_word 100 0x12345678 (put_word 96 2 heap))) in
    put_half 510 0xAA55 others

unfoldable pub first_fat_sector : Buffer
unfolding put_word
first_fat_sector = put_word 8 end_of_chain (put_word 4 end_of_chain (put_word 0 0xFFFFFFF8 zeroed))

-- The volume label and the entry of the allocation bitmap.
unfoldable pub root_entries : ℕ → Buffer
unfolding put_byte put_half put_word
root_entries total_sectors =
    let label = put_half 12 b' ' (
      put_half 10 b'T' (
        put_half 8 b'A' (
          put_half 6 b'F'
            (put_half 4 b'X' (put_half 2 b'E' (put_byte 1 6 (put_byte 0 0x83 zeroed))))))) in
    put_word 56 ((format_clusters total_sectors + 7) / 8) (put_word 52 3 (put_byte 32 0x81 label))

unfoldable pub exfat_format : ℕ → Disk → Disk
unfolding boot_sector first_fat_sector root_entries
exfat_format total_sectors d =
    let d1 = written d (disk_write_sector 0 (boot_sector total_sectors) d) in
    let d2 = written d1 (disk_write_sector format_fat_offset first_fat_sector d1) in
    written d2 (disk_write_sector (heap_offset total_sectors) (root_entries total_sectors) d2)

-- What a boot sector says of its volume.
unfoldable pub volume_of : Buffer → Volume
volume_of b = record {
  cluster_count = word_at 92 b;
  bytes_per_sector = u32 (2 ^ b 108);
  sectors_per_cluster = u32 (2 ^ b 109);
  bytes_per_cluster = u32 (u32 (2 ^ b 108) * u32 (2 ^ b 109));
  fat_start_sector = word_at 80 b;
  cluster_heap_start_sector = word_at 88 b;
  root_dir_cluster = word_at 96 b;
}

unfoldable pub mount_sector : Option Buffer → Option Volume
unfolding has_name
mount_sector none = none
mount_sector (some b) =
    if half_at 510 b == 0xAA55 then (if has_name b then some (volume_of b) else none) else none

-- `none` where the code returns -1.
unfoldable pub exfat_mount : Disk → Option Volume
unfolding mount_sector
exfat_mount d = mount_sector (disk_read_sector 0 d)
