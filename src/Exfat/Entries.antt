-- ===== src/Exfat/Entries.antt =====
-- What writing an entry of the FAT of kernel/fs/exfat changes.
use os_ax.Base.{
  ℕ, ◌+◌, ◌-◌, ◌*◌, ◌/◌, ◌%◌, ◌^◌, ◌≤◌, ◌<◌, ◌≡◌, ◌≢◌, ◌⊎◌, refl, sym, ap, ◌∙◌, inl, inr, true,
  false, ◌&&◌, some, arith, ltb, leb, if◌then◌else◌, Bool-cases,
}
use mathlib.Core.Path.{fun_ext}
use mathlib.Core.Option
use native.Mathlib.Decide.{dec_lt}
use os_ax.Base.Words.{u32}
use os_ax.Exfat.Disk.{
  Buffer, Disk, Volume, sector_bytes, put_sector, read_from, write_to, with_bytes, disk_read_sector,
  disk_write_sector, is_cluster,
}
use os_ax.Exfat.Fat.{
  word_at, put_word, fat_sector, fat_entry_offset, read_fat_entry, exfat_get_next_cluster,
  exfat_write_fat_entry,
}

-- A volume of sectors of 512 bytes: the FAT has an entry for each cluster and lies on the disk, which
-- is smaller than 4 GB.
pub record IsValid (v : Volume) (d : Disk) : Type 0 where
  pub bytes : Buffer
  pub present : d.disk_buffer ≡ some bytes
  pub small : d.disk_size_sectors < 2 ^ 23
  pub sector_size : v.bytes_per_sector ≡ 512
  pub clusters : v.cluster_count + 2 < 2 ^ 30
  pub fat_fits : v.fat_start_sector * 512 + (v.cluster_count + 2) * 4 ≤ d.disk_size_sectors * 512

-- Where the entry of a cluster lies on the disk.
abbrev pub entry_place : Volume → ℕ → ℕ
entry_place v cluster = v.fat_start_sector * 512 + cluster * 4

word_at_put : (p value : ℕ) (b : Buffer) → value < 2 ^ 32 → word_at p (put_word p value b) ≡ value
unfolding word_at put_word
word_at_put p value b small = ground arith

word_at_else :
    (p q value : ℕ) (b : Buffer)
    → (q + 4 ≤ p) ⊎ (p + 4 ≤ q)
    → word_at q (put_word p value b) ≡ word_at q b
unfolding word_at put_word
word_at_else p q value b (inl before) = ground arith
word_at_else p q value b (inr behind) = ground arith

add_places : (a b k : ℕ) → a + (b + k) ≡ a + b + k
add_places a b k = omega arith

word_at-sector_bytes :
    (sector o : ℕ) (disk : Buffer)
    → sector < 2 ^ 23
    → word_at o (sector_bytes sector disk) ≡ word_at (sector * 512 + o) disk
unfolding word_at sector_bytes
word_at-sector_bytes sector o disk small =
    let e : u32 (sector * 512) ≡ sector * 512 = omega arith in
    let byte =
      λ (k : ℕ). ap (λ b. disk (b + (o + k))) e ∙ ap disk (add_places (sector * 512) o k) in
    omega (arith, ap (λ b. disk (b + o)) e, byte 1, byte 2, byte 3)

-- Inside the sector's range, both sides are the byte of the buffer that is put.
put_at :
    (base o value a : ℕ) (disk : Buffer)
    → o + 4 ≤ 512
    → (if leb base a && ltb a (base + 512)
        then put_word o value (λ i. disk (base + i)) (a - base)
        else disk a)
      ≡ put_word (base + o) value disk a
unfolding put_word
put_at base o value a disk inside = elim (Bool-cases (leb base a && ltb a (base + 512))) [
  | inl within ↦
      let place : base + (a - base) ≡ a = ground arith in
      rw within (ground (arith, ap disk place, place))
  | inr outside ↦ rw outside (ground arith)
]

put_sector-put_word :
    (sector o value : ℕ) (disk : Buffer)
    → sector < 2 ^ 23
    → o + 4 ≤ 512
    → put_sector sector (put_word o value (sector_bytes sector disk)) disk
      ≡ put_word (sector * 512 + o) value disk
unfolding put_sector sector_bytes
put_sector-put_word sector o value disk small inside =
    let e : u32 (sector * 512) ≡ sector * 512 = omega arith in
    fun_ext λ a.
      ap
        (λ (base : ℕ).
          if leb base a && ltb a (base + 512)
          then put_word o value (λ i. disk (base + i)) (a - base)
          else disk a)
        e
      ∙ put_at (sector * 512) o value a disk inside

pub disk_read_sector_at :
    (sector : ℕ) (d : Disk) (bytes : Buffer)
    → d.disk_buffer ≡ some bytes
    → sector < d.disk_size_sectors
    → disk_read_sector sector d ≡ some (sector_bytes sector bytes)
unfolding disk_read_sector read_from
disk_read_sector_at sector d bytes present inside =
    let fits : leb d.disk_size_sectors sector ≡ false = ground arith in
    ap (λ b. read_from b d.disk_size_sectors sector) present ∙ rw fits refl

pub disk_write_sector_at :
    (sector : ℕ) (src : Buffer) (d : Disk) (bytes : Buffer)
    → d.disk_buffer ≡ some bytes
    → sector < d.disk_size_sectors
    → disk_write_sector sector src d
      ≡ some (record d { disk_buffer = some (put_sector sector src bytes) })
unfolding disk_write_sector write_to
disk_write_sector_at sector src d bytes present inside =
    let fits : leb d.disk_size_sectors sector ≡ false = ground arith in
    ap (λ b. Option.map (with_bytes d) (write_to b d.disk_size_sectors sector src)) present
    ∙ rw fits refl

module _ (v : Volume) (d : Disk) (valid : IsValid v d) (cluster : ℕ)
    (inside : cluster < v.cluster_count + 2) where
  offset_place : fat_entry_offset v cluster ≡ cluster * 4 % 512
  offset_place = ap (λ k. u32 (cluster * 4) % k) valid.sector_size ∙ omega (arith, valid.clusters)

  sector_place : fat_sector v cluster ≡ v.fat_start_sector + cluster * 4 / 512
  sector_place =
      ap (λ k. u32 (v.fat_start_sector + u32 (cluster * 4) / k)) valid.sector_size
      ∙ omega (arith, valid.clusters, valid.fat_fits, valid.small)

  sector_inside : fat_sector v cluster < d.disk_size_sectors
  sector_inside = omega (arith, sector_place, valid.fat_fits)

  place : fat_sector v cluster * 512 + fat_entry_offset v cluster ≡ entry_place v cluster
  place = omega (arith, sector_place, offset_place)

  pub read_fat_entry_lem :
      read_fat_entry v cluster d ≡ some (word_at (entry_place v cluster) valid.bytes)
  unfolding read_fat_entry
  read_fat_entry_lem =
      let read =
        disk_read_sector_at (fat_sector v cluster) d valid.bytes valid.present sector_inside in
      let word =
        word_at-sector_bytes (fat_sector v cluster) (fat_entry_offset v cluster) valid.bytes
          (omega (arith, sector_inside, valid.small)) in
      rw (read_fat_entry, read) (ap some (word ∙ ap (λ p. word_at p valid.bytes) place))

  pub exfat_write_fat_entry_lem :
      (value : ℕ)
      → exfat_write_fat_entry v cluster value d
        ≡ some (with_bytes d (put_word (entry_place v cluster) value valid.bytes))
  unfolding exfat_write_fat_entry
  exfat_write_fat_entry_lem value =
      let s = fat_sector v cluster in
      let o = fat_entry_offset v cluster in
      let read = disk_read_sector_at s d valid.bytes valid.present sector_inside in
      let put =
        put_sector-put_word s o value valid.bytes (omega (arith, sector_inside, valid.small))
          (omega (arith, offset_place)) in
      rw (exfat_write_fat_entry, read)
        (disk_write_sector_at s (put_word o value (sector_bytes s valid.bytes)) d valid.bytes
            valid.present sector_inside
          ∙ ap (λ b. some (with_bytes d b)) (put ∙ ap (λ p. put_word p value valid.bytes) place))

unfoldable pub valid_with_bytes :
    {v : Volume} {d : Disk} (b : Buffer) → IsValid v d → IsValid v (with_bytes d b)
valid_with_bytes b valid = record {
  bytes = b;
  present = refl;
  small = valid.small;
  sector_size = valid.sector_size;
  clusters = valid.clusters;
  fat_fits = valid.fat_fits;
}

-- The entry of a cluster in the FAT.
abbrev pub fat_entry : {v : Volume} {d : Disk} → IsValid v d → ℕ → ℕ
fat_entry {v} valid cluster = word_at (entry_place v cluster) valid.bytes

pub is_cluster_at :
    (v : Volume) (d : Disk)
    → IsValid v d
    → (c : ℕ) → 2 ≤ c
    → c < v.cluster_count + 2
    → is_cluster v c ≡ true
is_cluster_at v d valid c lo hi = ground (arith, valid.clusters)

pub is_cluster-bounds :
    (v : Volume) (d : Disk)
    → IsValid v d
    → (c : ℕ) → is_cluster v c ≡ true
    → (2 ≤ c) × (c < v.cluster_count + 2)
is_cluster-bounds v d valid c h = ground (arith, valid.clusters)

apart_entries :
    (v : Volume) (a b : ℕ)
    → b ≢ a
    → (entry_place v b + 4 ≤ entry_place v a) ⊎ (entry_place v a + 4 ≤ entry_place v b)
apart_entries v a b other = elim (dec_lt a b) [
  | yes lt ↦ inr (omega arith)
  | no ge ↦ inl (omega arith)
]

pub exfat_get_next_cluster_at :
    (v : Volume) (d : Disk) (valid : IsValid v d) (c : ℕ)
    → 2 ≤ c
    → c < v.cluster_count + 2
    → exfat_get_next_cluster v c d ≡ word_at (entry_place v c) valid.bytes
unfolding exfat_get_next_cluster
exfat_get_next_cluster_at v d valid c lo hi =
    let yes_cluster = is_cluster_at v d valid c lo hi in
    rw (yes_cluster, read_fat_entry_lem v d valid c hi) refl

-- Writing the entry of a cluster of a valid volume succeeds: the new number is what comes next after
-- the cluster, what comes next after all others is as it was, and the volume is valid.
pub exfat_write_fat_entry-get_next_cluster :
    (v : Volume) (d : Disk) (cluster value : ℕ)
    → IsValid v d
    → 2 ≤ cluster
    → cluster < v.cluster_count + 2
    → value < 2 ^ 32
    → (d' : Disk) × (exfat_write_fat_entry v cluster value d ≡ some d')
      × IsValid v d'
      × (exfat_get_next_cluster v cluster d' ≡ value)
      × ((c : ℕ) → c ≢ cluster → exfat_get_next_cluster v c d' ≡ exfat_get_next_cluster v c d)
unfolding valid_with_bytes exfat_get_next_cluster
exfat_write_fat_entry-get_next_cluster v d cluster value valid lo hi small =
    let p = entry_place v cluster in
    let bytes = put_word p value valid.bytes in
    let d' = with_bytes d bytes in
    let valid' : IsValid v d' = valid_with_bytes bytes valid in
    (
      d',
      exfat_write_fat_entry_lem v d valid cluster hi value,
      valid',
      exfat_get_next_cluster_at v d' valid' cluster lo hi ∙ word_at_put p value valid.bytes small,
      (λ c other. elim (Bool-cases (is_cluster v c)) [
        | inl valid_c ↦
            let bounds = is_cluster-bounds v d valid c valid_c in
            exfat_get_next_cluster_at v d' valid' c bounds.0 bounds.1
            ∙ word_at_else p (entry_place v c) value valid.bytes (apart_entries v cluster c other)
            ∙ sym (exfat_get_next_cluster_at v d valid c bounds.0 bounds.1)
        | inr no_cluster ↦ rw no_cluster refl
      ]),
    )
