-- ===== src/Exfat/Write.antt =====
-- `exfat_write` of kernel/fs/exfat/exfat_fileops.c. What `exfat_update_file_size` makes of the entry in
-- the directory is an argument.
use os_ax.Base.{
  ℕ, zero, suc, ◌+◌, ◌-◌, ◌/◌, ◌%◌, Bool, true, false, ◌&&◌, Option, none, some, ◌==◌, ltb, leb,
  if◌then◌else◌,
}
use os_ax.Base.Words.{u32}
use os_ax.Exfat.Disk.{Buffer, Disk, Volume, exfat_read_cluster, exfat_write_cluster}
use os_ax.Exfat.Fat.{exfat_get_next_cluster, exfat_write_fat_entry, exfat_alloc_cluster, written}
use os_ax.Exfat.File.{ExfatFile, chain_end, copy_into}

-- The new cluster that is put behind the end of a chain, if there is one.
unfoldable pub link_new : Volume → ℕ → ℕ × Disk → Option ℕ × Disk
link_new v cluster (new, d) =
    if new == 0 then (none, d) else (some new, written d (exfat_write_fat_entry v cluster new d))

-- The cluster behind one, a new one where the chain ends.
unfoldable pub next_or_new : Volume → ℕ → Disk → Option ℕ × Disk
unfolding exfat_get_next_cluster exfat_alloc_cluster link_new
next_or_new v cluster d =
    let next = exfat_get_next_cluster v cluster d in
    if leb chain_end next then link_new v cluster (exfat_alloc_cluster v d) else (some next, d)

-- The cluster that lies a number of clusters further on.
unfoldable pub reach_cluster : ℕ → ℕ → Volume → Disk → Option ℕ × Disk
unfolding next_or_new
reach_cluster zero cluster v d = (some cluster, d)
reach_cluster (suc rounds) cluster v d =
    let found = next_or_new v cluster d in
    elim found.0 [ none ↦ (none, found.1) | some next ↦ reach_cluster rounds next v found.1 ]

-- The variables of the loop.
pub record Writing : Type 0 where
  pub bytes_written : ℕ
  pub current_cluster : ℕ
  pub offset_in_cluster : ℕ
  pub position : ℕ
  pub disk : Disk
  pub cluster_buffer : Buffer

-- What the buffer holds after a cluster is read: zeros if it cannot be read.
unfoldable pub cluster_contents : Volume → Buffer → Option Buffer → Buffer
cluster_contents v buffer none a = if ltb a v.bytes_per_cluster then 0 else buffer a
cluster_contents v buffer (some contents) a = contents a

abbrev pub bytes_to_write : ℕ → Volume → Writing → ℕ
bytes_to_write size v w =
    let whole = v.bytes_per_cluster - w.offset_in_cluster in
    if ltb (size - w.bytes_written) whole then size - w.bytes_written else whole

-- Whether the cluster was written, and the variables after it.
unfoldable pub end_round : ℕ → Buffer → Writing → Bool × Disk → Bool × Writing
end_round n filled w (false, d) = (false, record w { disk = d; cluster_buffer = filled })
end_round n filled w (true, d) = (
  true,
  record w {
    bytes_written = w.bytes_written + n;
    offset_in_cluster = 0;
    position = w.position + n;
    disk = d;
    cluster_buffer = filled;
  },
)

-- One cluster, read, filled in and written.
unfoldable pub write_round : ℕ → Volume → Buffer → Writing → Bool × Writing
unfolding cluster_contents copy_into end_round
write_round size v buffer w =
    let n = bytes_to_write size v w in
    let contents =
      cluster_contents v w.cluster_buffer
        (exfat_read_cluster v w.current_cluster w.disk w.cluster_buffer) in
    let filled = copy_into w.offset_in_cluster n w.bytes_written buffer contents in
    end_round n filled w (exfat_write_cluster v w.current_cluster filled w.disk)

-- The loop, entered with bytes left to write. Each round writes one at least.
unfoldable pub write_loop : ℕ → ℕ → Volume → Buffer → Writing → Writing
unfolding write_round next_or_new
write_loop zero size v buffer w = w
write_loop (suc fuel) size v buffer w =
    let round = write_round size v buffer w in
    let found = next_or_new v round.1.current_cluster round.1.disk in
    elim (round.0 && ltb round.1.bytes_written size) [
      | false ↦ round.1
      | true ↦ elim found.0 [
        | none ↦ record round.1 { disk = found.1 }
        | some next ↦
            write_loop fuel size v buffer
              (record round.1 { current_cluster = next; disk = found.1 })
      ]
    ]

-- The size of the file grows with the position; its entry is changed then.
unfoldable pub finish_write : (ℕ → Disk → Disk) → ExfatFile → Writing → ℕ × ExfatFile × Disk
finish_write update file w =
    if ltb file.file_size w.position
    then (
      w.bytes_written,
      record file { position = w.position; file_size = w.position },
      update w.position w.disk,
    )
    else (w.bytes_written, record file { position = w.position }, w.disk)

-- What is written from a cluster on, if there is one, at that offset in it.
unfoldable pub write_at :
    (ℕ → Disk → Disk)
    → Volume
    → Buffer
    → ℕ
    → Buffer
    → ExfatFile
    → ℕ
    → Option ℕ × Disk
    → ℕ × ExfatFile × Disk
unfolding write_loop finish_write
write_at update v scratch size buffer file offset (none, d) = (0, file, d)
write_at update v scratch size buffer file offset (some cluster, d) =
    let start : Writing = record {
      bytes_written = 0;
      current_cluster = cluster;
      offset_in_cluster = offset;
      position = file.position;
      disk = d;
      cluster_buffer = scratch;
    } in
    finish_write update file (if size == 0 then start else write_loop size size v buffer start)

-- The number of bytes written, the file and the disk after it; `none` where the code returns -1.
unfoldable pub exfat_write :
    (ℕ → Disk → Disk)
    → Volume
    → Disk
    → Buffer
    → ℕ
    → Buffer
    → ExfatFile
    → Option (ℕ × ExfatFile × Disk)
unfolding reach_cluster write_at
exfat_write update v d scratch size buffer file =
    let offset = u32 file.position in
    if file.is_open == 0
    then none
    else some (
        write_at update v scratch size buffer file (offset % v.bytes_per_cluster)
          (reach_cluster (offset / v.bytes_per_cluster) file.first_cluster v d))
