-- ===== src/Exfat/Replaced.antt =====
-- What `disk_write_sector` of kernel/fs/exfat/exfat.c does to the bytes of the disk.
use os_ax.Base.{ℕ, ◌+◌, ◌-◌, ◌*◌, ◌^◌, ◌<◌, ◌≡◌, ◌≢◌, ap, ◌∙◌, some, arith}
use os_ax.Base.Words.{u32}
use os_ax.Exfat.Disk.{Buffer, Disk, sector_bytes, put_sector, with_bytes, disk_write_sector}
use os_ax.Exfat.Fat.{written}
use os_ax.Exfat.Entries.{disk_write_sector_at}

-- Bytes of a sector of which another one is overwritten.
pub sector_bytes-put_sector :
    (r s : ℕ) (src disk : Buffer)
    → r < 2 ^ 23
    → s < 2 ^ 23
    → r ≢ s
    → (i : ℕ) → i < 512
    → sector_bytes r (put_sector s src disk) i ≡ sector_bytes r disk i
unfolding sector_bytes put_sector
sector_bytes-put_sector r s src disk hr hs other i small =
    let er : u32 (r * 512) ≡ r * 512 = omega arith in
    let es : u32 (s * 512) ≡ s * 512 = omega arith in rw (er, es) (ground arith)

pub put_sector-inside :
    (s : ℕ) (src disk : Buffer)
    → s < 2 ^ 23
    → (i : ℕ) → i < 512
    → put_sector s src disk (s * 512 + i) ≡ src i
unfolding put_sector
put_sector-inside s src disk hs i small =
    let es : u32 (s * 512) ≡ s * 512 = omega arith in
    let place : s * 512 + i - s * 512 ≡ i = omega arith in rw es (ground (arith, ap src place))

pub sector_bytes-put_same :
    (s : ℕ) (src disk : Buffer)
    → s < 2 ^ 23
    → (i : ℕ) → i < 512
    → sector_bytes s (put_sector s src disk) i ≡ src i
unfolding sector_bytes
sector_bytes-put_same s src disk hs i small =
    let es : u32 (s * 512) ≡ s * 512 = omega arith in
    ap (λ a. put_sector s src disk (a + i)) es ∙ put_sector-inside s src disk hs i small

pub put_sector-before :
    (s : ℕ) (src disk : Buffer)
    → s < 2 ^ 23
    → (a : ℕ) → a < s * 512
    → put_sector s src disk a ≡ disk a
unfolding put_sector
put_sector-before s src disk hs a before =
    let es : u32 (s * 512) ≡ s * 512 = omega arith in rw es (ground arith)

-- Writing a sector of the disk, as the volume has it.
pub written_sector :
    (sector : ℕ) (src : Buffer) (d : Disk) (bytes : Buffer)
    → d.disk_buffer ≡ some bytes
    → sector < d.disk_size_sectors
    → written d (disk_write_sector sector src d) ≡ with_bytes d (put_sector sector src bytes)
written_sector sector src d bytes present inside =
    ap (written d) (disk_write_sector_at sector src d bytes present inside)
