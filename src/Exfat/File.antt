-- ===== src/Exfat/File.antt =====
-- Open files in kernel/fs/exfat/exfat_fileops.c.
use os_ax.Base.{
  ℕ, zero, suc, ◌+◌, ◌-◌, ◌/◌, ◌%◌, ◌&&◌, Option, none, some, ◌==◌, ltb, leb, if◌then◌else◌,
}
use os_ax.Base.Words.{u32}
use os_ax.Exfat.Disk.{Buffer, Disk, Volume, exfat_read_cluster}
use os_ax.Exfat.Fat.{exfat_get_next_cluster}

-- `exfat_file_t`, but for its name.
pub record ExfatFile : Type 0 where
  pub first_cluster : ℕ
  pub file_size : ℕ
  pub position : ℕ
  pub attributes : ℕ
  pub is_open : ℕ
  pub is_directory : ℕ

-- `none` where the code returns -1.
unfoldable pub exfat_seek : ℕ → ExfatFile → Option ExfatFile
exfat_seek offset file =
    if file.is_open == 0 then none else some (record file { position = offset })

unfoldable pub exfat_close : ExfatFile → Option ExfatFile
exfat_close file = if file.is_open == 0 then none else some (record file { is_open = 0 })

-- `memcpy(buffer + start, src + offset, n)`
unfoldable pub copy_into : ℕ → ℕ → ℕ → Buffer → Buffer → Buffer
copy_into start n offset src buffer a =
    if leb start a && ltb a (start + n) then src (offset + (a - start)) else buffer a

-- The numbers from here on end a chain.
abbrev pub chain_end : ℕ
chain_end = 0xFFFFFFF8

-- The cluster that lies a number of clusters further on, unless the chain ends before.
unfoldable pub skip_clusters : ℕ → ℕ → Volume → Disk → Option ℕ
skip_clusters zero cluster v d = some cluster
skip_clusters (suc rounds) cluster v d =
    let next = exfat_get_next_cluster v cluster d in
    let rest = skip_clusters rounds next v d in if leb chain_end next then none else rest

-- The variables of the loop of `exfat_read`.
pub record Reading : Type 0 where
  pub bytes_read : ℕ
  pub current_cluster : ℕ
  pub offset_in_cluster : ℕ
  pub position : ℕ
  pub buffer : Buffer
  pub cluster_buffer : Buffer

abbrev pub bytes_to_copy : ℕ → Volume → Reading → ℕ
bytes_to_copy size v r =
    let whole = v.bytes_per_cluster - r.offset_in_cluster in
    if ltb (size - r.bytes_read) whole then size - r.bytes_read else whole

-- What the round copies out of the cluster that it has read.
unfoldable pub copy_round : ℕ → Volume → Buffer → Reading → Reading
unfolding copy_into
copy_round size v cluster r =
    let n = bytes_to_copy size v r in
    record r {
      bytes_read = r.bytes_read + n;
      offset_in_cluster = 0;
      position = r.position + n;
      buffer = copy_into r.bytes_read n r.offset_in_cluster cluster r.buffer;
      cluster_buffer = cluster;
    }

-- The loop, entered with bytes left to read. Each round reads one at least.
unfoldable pub read_loop : ℕ → ℕ → Volume → Disk → Reading → Reading
unfolding copy_round
read_loop zero size v d r = r
read_loop (suc fuel) size v d r = elim (exfat_read_cluster v r.current_cluster d r.cluster_buffer) [
  | none ↦ r
  | some cluster ↦
      let r' = copy_round size v cluster r in
      let next = exfat_get_next_cluster v r.current_cluster d in
      let rest = read_loop fuel size v d (record r' { current_cluster = next }) in
      if ltb r'.bytes_read size then (if leb chain_end next then r' else rest) else r'
]

-- How much is read: not beyond the end of the file.
unfoldable pub read_size : ℕ → ExfatFile → ℕ
read_size size file =
    if ltb file.file_size (file.position + size) then u32 (file.file_size - file.position) else size

-- What is read from a cluster on, at that offset in it, when the chain does not end before.
unfoldable pub read_at :
    Volume → Disk → Buffer → ℕ → Buffer → ExfatFile → ℕ → Option ℕ → ℕ × ExfatFile × Buffer
unfolding read_loop
read_at v d scratch size buffer file offset none = (0, file, buffer)
read_at v d scratch size buffer file offset (some cluster) =
    let start : Reading = record {
      bytes_read = 0;
      current_cluster = cluster;
      offset_in_cluster = offset;
      position = file.position;
      buffer = buffer;
      cluster_buffer = scratch;
    } in
    let r = if size == 0 then start else read_loop size size v d start in
    (r.bytes_read, record file { position = r.position }, r.buffer)

-- The number of bytes read, the file and the buffer after it; `none` where the code returns -1.
-- `scratch` is what the buffer for a cluster holds before.
unfoldable pub exfat_read :
    Volume → Disk → Buffer → ℕ → Buffer → ExfatFile → Option (ℕ × ExfatFile × Buffer)
unfolding read_size skip_clusters read_at
exfat_read v d scratch size buffer file =
    let offset = u32 file.position in
    if file.is_open == 0
    then none
    else if leb file.file_size file.position
    then some (0, file, buffer)
    else some (
        read_at v d scratch (read_size size file) buffer file (offset % v.bytes_per_cluster)
          (skip_clusters (offset / v.bytes_per_cluster) file.first_cluster v d))
