-- ===== src/Exfat/Read.antt =====
-- `exfat_read` of kernel/fs/exfat/exfat_fileops.c on a file that is open.
use os_ax.Base.{
  ℕ, zero, suc, ◌+◌, ◌-◌, ◌/◌, ◌%◌, ◌^◌, ◌≤◌, ◌<◌, ◌≡◌, ◌≢◌, refl, sym, ap, ◌∙◌, false, some, arith,
  leb, ltb, if◌then◌else◌, ne→==_false,
}
use os_ax.Base.Words.{u32}
use os_ax.Exfat.Disk.{Buffer, Disk, Volume}
use os_ax.Exfat.Clusters.{IsValid}
use os_ax.Exfat.File.{
  ExfatFile, Reading, chain_end, read_loop, skip_clusters, read_size, read_at, exfat_read,
}
use os_ax.Exfat.Contents.{chain, HasClusters, Filled, before, read_loop-Done}

skip_clusters-chain :
    (v : Volume) (d : Disk) (first rounds j : ℕ)
    → ((i : ℕ) → i ≤ j + rounds → chain v d first i < chain_end)
    → skip_clusters rounds (chain v d first j) v d ≡ some (chain v d first (j + rounds))
unfolding skip_clusters chain
skip_clusters-chain v d first zero j low = ap (λ i. some (chain v d first i)) (omega arith)
skip_clusters-chain v d first (suc rounds) j low =
    let goes_on : leb chain_end (chain v d first (suc j)) ≡ false =
      ground (arith, low (suc j) (omega arith)) in
    rw goes_on (
      skip_clusters-chain v d first rounds (suc j) (λ i le. low i (omega arith))
      ∙ ap (λ i. some (chain v d first i)) (omega arith))

read_at_lem :
    (v : Volume) (d : Disk) (scratch : Buffer) (n p : ℕ) (buffer : Buffer) (file : ExfatFile)
    (offset cluster : ℕ)
    → 0 < n
    → (r : Reading)
    → r
      ≡ read_loop n n v d (record {
        bytes_read = 0;
        current_cluster = cluster;
        offset_in_cluster = offset;
        position = file.position;
        buffer = buffer;
        cluster_buffer = scratch;
      })
    → r.bytes_read ≡ n
    → r.position ≡ p
    → read_at v d scratch n buffer file offset (some cluster)
      ≡ (n, record file { position = p }, r.buffer)
unfolding read_at
read_at_lem v d scratch n p buffer file offset cluster pos r same all_read moved =
    let some_bytes = ne→==_false n 0 (omega arith) in
    rw some_bytes (
      ap (λ x. returned file x) (sym same)
      ∙ ap (λ k. (k, record file { position = r.position }, r.buffer)) all_read
      ∙ ap (λ k. (n, record file { position = k }, r.buffer)) moved)
  where
    returned : ExfatFile → Reading → ℕ × ExfatFile × Buffer
    returned file x = (x.bytes_read, record file { position = x.position }, x.buffer)

-- How much of the file there is to read.
abbrev pub available : ℕ → ExfatFile → ℕ
available size file =
    if ltb file.file_size (file.position + size) then file.file_size - file.position else size

-- Reading at least one byte from an open file of a valid volume, below the end of a file of less
-- than 4 GB whose chain has a cluster for each byte that there is to read, gives those bytes, as many
-- as were asked for or as the file has left, puts them at the front of the buffer, leaves the buffer
-- behind them, and moves the position behind them.
pub exfat_read_lem :
    (v : Volume) (d : Disk) (valid : IsValid v d) (scratch : Buffer) (size : ℕ) (buffer : Buffer)
    (file : ExfatFile)
    → file.is_open ≢ 0
    → 0 < size
    → file.position < file.file_size
    → file.file_size < 2 ^ 32
    → HasClusters v d file.first_cluster (file.position + available size file)
    → (result : Buffer) × (exfat_read v d scratch size buffer file
        ≡ some (
          available size file,
          record file { position = file.position + available size file },
          result,
        ))
      × Filled valid file.first_cluster file.position (available size file) buffer result
unfolding exfat_read read_size chain
exfat_read_lem v d valid scratch size buffer file opened pos below small clusters =
    let n = available size file in
    let p = file.position in
    let c = file.first_cluster in
    let some_bytes : 0 < n = ground arith in
    let asked : read_size size file ≡ n = ground arith in
    let start = before v d valid c p n clusters buffer 0 (p / 4096) (p % 4096) buffer scratch in
    let r = read_loop n n v d start in
    let fin =
      read_loop-Done v d valid c p n clusters buffer n 0 (p / 4096) (p % 4096) buffer scratch
        (omega arith) (omega arith) some_bytes (omega arith)
        (record { front = λ a h. absurd (omega arith); behind = λ a h. refl }) in
    let no_bytes : p + 0 ≡ p = omega arith in
    let not_closed = ne→==_false file.is_open 0 opened in
    let not_end : leb file.file_size p ≡ false = ground arith in
    let low : (i : ℕ) → i ≤ 0 + p / 4096 → chain v d c i < chain_end =
      λ i le. omega (arith, clusters i (omega arith), valid.fat.clusters) in
    let offset : u32 p % v.bytes_per_cluster ≡ p % 4096 =
      ap (λ k. u32 p % k) valid.cluster_bytes ∙ omega arith in
    let block : u32 p / v.bytes_per_cluster ≡ p / 4096 =
      ap (λ k. u32 p / k) valid.cluster_bytes ∙ omega arith in
    let at_start : 0 + p / 4096 ≡ p / 4096 = omega arith in
    let skipped : skip_clusters (u32 p / v.bytes_per_cluster) c v d
        ≡ some (chain v d c (p / 4096)) =
      ap (λ k. skip_clusters k c v d) block
      ∙ skip_clusters-chain v d c (p / 4096) 0 low
      ∙ ap (λ i. some (chain v d c i)) at_start in
    let whole : read_at v d scratch n buffer file (p % 4096) (some (chain v d c (p / 4096)))
        ≡ (n, record file { position = p + n }, r.buffer) =
      read_at_lem v d scratch n (p + n) buffer file (p % 4096) (chain v d c (p / 4096)) some_bytes r
        (ap (λ k. read_loop n n v d (record start { position = k })) no_bytes) fin.all_read
        fin.moved in
    let read : exfat_read v d scratch size buffer file
        ≡ some (
            read_at v d scratch (read_size size file) buffer file (u32 p % v.bytes_per_cluster)
              (skip_clusters (u32 p / v.bytes_per_cluster) c v d)) =
      simp (not_closed, not_end) refl in
    (
      r.buffer,
      read
          ∙ ap
              (λ k. some (
                read_at v d scratch k buffer file (u32 p % v.bytes_per_cluster)
                  (skip_clusters (u32 p / v.bytes_per_cluster) c v d)))
              asked
          ∙ ap
              (λ o. some (
                read_at v d scratch n buffer file o
                  (skip_clusters (u32 p / v.bytes_per_cluster) c v d)))
              offset
          ∙ ap (λ x. some (read_at v d scratch n buffer file (p % 4096) x)) skipped
          ∙ ap some whole,
      fin.filled,
    )
