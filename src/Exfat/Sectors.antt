-- ===== src/Exfat/Sectors.antt =====
-- The loops over the sectors of a cluster in kernel/fs/exfat/exfat.c.
use os_ax.Base.{
  ℕ, zero, suc, ◌+◌, ◌-◌, ◌*◌, ◌^◌, ◌≤◌, ◌<◌, ◌≡◌, refl, ap, ◌∙◌, inl, inr, true, ◌&&◌, some, arith,
  leb, ltb, if◌then◌else◌, Bool-cases,
}
use os_ax.Base.Words.{u32}
use os_ax.Exfat.Disk.{
  Buffer, Disk, Volume, with_bytes, sector_bytes, put_sector, put_bytes, read_sectors,
  write_sectors,
}
use os_ax.Exfat.Entries.{disk_read_sector_at, disk_write_sector_at}

-- A byte that a copy of `[lo, hi)` gives, with `to` taken off its place, or the old one.
abbrev pub Copied : ℕ → ℕ → (ℕ → ℕ) → Buffer → Buffer → Type 0
Copied lo hi src old new = (a : ℕ) → new a ≡ (if leb lo a && ltb a hi then src a else old a)

module _ (v : Volume) (sector_size : v.bytes_per_sector ≡ 512) (first : ℕ) where
  put_sector-Copied :
      (i : ℕ) (buffer bytes : Buffer)
      → first + i < 2 ^ 23
      → Copied
          ((first + i) * 512)
          ((first + i + 1) * 512)
          (λ a. buffer (a - first * 512))
          bytes
          (put_sector (u32 (first + i)) (λ a. buffer (u32 (i * v.bytes_per_sector) + a)) bytes)
  unfolding put_sector
  put_sector-Copied i buffer bytes small a =
      let sector : u32 (u32 (first + i) * 512) ≡ (first + i) * 512 = omega arith in
      let start : u32 (i * v.bytes_per_sector) ≡ i * 512 =
        ap (λ k. u32 (i * k)) sector_size ∙ omega arith in
      let stop : (first + i + 1) * 512 ≡ (first + i) * 512 + 512 = omega arith in
      rw (sector, start, stop)
        (elim (Bool-cases (leb ((first + i) * 512) a && ltb a ((first + i) * 512 + 512))) [
          | inl within ↦
              let place : i * 512 + (a - (first + i) * 512) ≡ a - first * 512 = ground arith in
              rw within (ap buffer place)
          | inr outside ↦ rw outside refl
        ])

  pub write_sectors-Copied :
      (rounds i : ℕ) (d : Disk) (bytes buffer : Buffer)
      → d.disk_buffer ≡ some bytes
      → d.disk_size_sectors < 2 ^ 23
      → first + i + rounds ≤ d.disk_size_sectors
      → (bytes' : Buffer) × (write_sectors rounds i first v buffer d ≡ (true, with_bytes d bytes'))
        × Copied
            ((first + i) * 512)
            ((first + i + rounds) * 512)
            (λ a. buffer (a - first * 512))
            bytes
            bytes'
  unfolding write_sectors
  write_sectors-Copied zero i d bytes buffer present small fits =
      (bytes, ap (λ b. (true, record d { disk_buffer = b })) present, λ a. ground arith)
  write_sectors-Copied (suc rounds) i d bytes buffer present small fits =
      let src : Buffer = λ a. buffer (u32 (i * v.bytes_per_sector) + a) in
      let bytes1 = put_sector (u32 (first + i)) src bytes in
      let wrote = disk_write_sector_at (u32 (first + i)) src d bytes present (omega arith) in
      let (bytes', rest, copied) =
        write_sectors-Copied rounds (i + 1) (with_bytes d bytes1) bytes1 buffer refl small
          (omega arith) in
      (
        bytes',
        rw (write_sectors, wrote) rest,
        λ a. ground (arith, copied a, put_sector-Copied i buffer bytes (omega arith) a),
      )

  put_bytes-Copied :
      (i : ℕ) (buffer bytes : Buffer)
      → first + i < 2 ^ 23
      → Copied
          (i * 512)
          ((i + 1) * 512)
          (λ a. bytes (first * 512 + a))
          buffer
          (put_bytes (u32 (i * v.bytes_per_sector)) (sector_bytes (u32 (first + i)) bytes) buffer)
  unfolding put_bytes sector_bytes
  put_bytes-Copied i buffer bytes small a =
      let sector : u32 (u32 (first + i) * 512) ≡ (first + i) * 512 = omega arith in
      let start : u32 (i * v.bytes_per_sector) ≡ i * 512 =
        ap (λ k. u32 (i * k)) sector_size ∙ omega arith in
      let stop : (i + 1) * 512 ≡ i * 512 + 512 = omega arith in
      rw (sector, start, stop)
        (elim (Bool-cases (leb (i * 512) a && ltb a (i * 512 + 512))) [
          | inl within ↦
              let place : (first + i) * 512 + (a - i * 512) ≡ first * 512 + a = ground arith in
              rw within (ap bytes place)
          | inr outside ↦ rw outside refl
        ])

  pub read_sectors-Copied :
      (rounds i : ℕ) (d : Disk) (bytes buffer : Buffer)
      → d.disk_buffer ≡ some bytes
      → d.disk_size_sectors < 2 ^ 23
      → first + i + rounds ≤ d.disk_size_sectors
      → (buffer' : Buffer) × (read_sectors rounds i first v d buffer ≡ some buffer')
        × Copied (i * 512) ((i + rounds) * 512) (λ a. bytes (first * 512 + a)) buffer buffer'
  unfolding read_sectors
  read_sectors-Copied zero i d bytes buffer present small fits = (buffer, refl, λ a. ground arith)
  read_sectors-Copied (suc rounds) i d bytes buffer present small fits =
      let buffer1 =
        put_bytes (u32 (i * v.bytes_per_sector)) (sector_bytes (u32 (first + i)) bytes) buffer in
      let read = disk_read_sector_at (u32 (first + i)) d bytes present (omega arith) in
      let (buffer', rest, copied) =
        read_sectors-Copied rounds (i + 1) d bytes buffer1 present small (omega arith) in
      (
        buffer',
        rw (read_sectors, read) rest,
        λ a. ground (arith, copied a, put_bytes-Copied i buffer bytes (omega arith) a),
      )
