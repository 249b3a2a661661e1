-- ===== src/Exfat/Update.antt =====
-- `exfat_write` of kernel/fs/exfat/exfat_fileops.c inside a file, and what `exfat_read` gives after it.
use os_ax.Base.{
  ℕ, zero, suc, ◌+◌, ◌-◌, ◌*◌, ◌/◌, ◌%◌, ◌^◌, ◌≤◌, ◌<◌, ◌≡◌, ◌≢◌, refl, ap, ◌∙◌, false, Option,
  some, arith, ltb, ne→==_false,
}
use os_ax.Base.Words.{u32}
use os_ax.Exfat.Disk.{Buffer, Disk, Volume}
use os_ax.Exfat.Fat.{exfat_get_next_cluster}
use os_ax.Exfat.Clusters.{IsValid, byte_at}
use os_ax.Exfat.File.{ExfatFile, exfat_read}
use os_ax.Exfat.Contents.{chain}
use os_ax.Exfat.Read.{available, exfat_read_lem}
use os_ax.Exfat.Write.{Writing, reach_cluster, write_loop, write_at, finish_write, exfat_write}
use os_ax.Exfat.Overwrite.{IsChain, Overwritten, before, next_or_new-some, write_loop-Finished}

module _ (v : Volume) (d : Disk) (valid : IsValid v d) (first pos size : ℕ)
    (clusters : IsChain v (chain v d first) (pos + size)) (src : Buffer) where
  reach_cluster-chain :
      (rounds j : ℕ)
      → (j + rounds) * 4096 < pos + size
      → reach_cluster rounds (chain v d first j) v d ≡ (some (chain v d first (j + rounds)), d)
  unfolding reach_cluster chain
  reach_cluster-chain zero j inside =
      let here : j ≡ j + 0 = omega arith in ap (λ i. (some (chain v d first i), d)) here
  reach_cluster-chain (suc rounds) j inside =
      let (lo, hi) = clusters.bounds (suc j) (omega arith) in
      let found =
        next_or_new-some v (chain v d first) pos size clusters src j d refl
          (omega (arith, valid.fat.clusters)) in
      let further : suc j + rounds ≡ j + suc rounds = omega arith in
      rw (reach_cluster, found)
        (ap (λ (x : Option ℕ × Disk). reach_cluster rounds (chain v d first (suc j)) v x.1) found
          ∙ reach_cluster-chain rounds (suc j) (omega arith)
          ∙ ap (λ i. (some (chain v d first i), d)) further)

finish_write_inside :
    (update : ℕ → Disk → Disk) (file : ExfatFile) (w : Writing) (size p : ℕ)
    → w.bytes_written ≡ size
    → w.position ≡ p
    → p ≤ file.file_size
    → finish_write update file w ≡ (size, record file { position = p }, w.disk)
unfolding finish_write
finish_write_inside update file w size p all moved inside =
    let same_size : ltb file.file_size w.position ≡ false = ground (arith, moved) in
    rw same_size (
      ap (λ k. (k, record file { position = w.position }, w.disk)) all
      ∙ ap (λ k. (size, record file { position = k }, w.disk)) moved)

-- Writing at least one byte inside an open file.
exfat_write_lem :
    (update : ℕ → Disk → Disk) (v : Volume) (d : Disk) (valid : IsValid v d) (scratch : Buffer)
    (size : ℕ) (src : Buffer) (file : ExfatFile)
    → file.is_open ≢ 0
    → 0 < size
    → file.position + size ≤ file.file_size
    → file.file_size < 2 ^ 32
    → (clusters : IsChain v (chain v d file.first_cluster) (file.position + size))
    → (d' : Disk) × (valid' : IsValid v d') × (exfat_write update v d scratch size src file
        ≡ some (size, record file { position = file.position + size }, d'))
      × Overwritten v (chain v d file.first_cluster) file.position size clusters src 0 valid valid'
unfolding exfat_write write_at chain
exfat_write_lem update v d valid scratch size src file opened pos inside small clusters =
    let p = file.position in
    let at = chain v d file.first_cluster in
    let start = before v at p size clusters src 0 (p / 4096) (p % 4096) d scratch in
    let w = write_loop size size v src start in
    let fin =
      write_loop-Finished v at p size clusters src size 0 (p / 4096) (p % 4096) valid scratch
        (λ k h. refl) (omega arith) (omega arith) pos (omega arith) in
    let not_closed = ne→==_false file.is_open 0 opened in
    let some_bytes = ne→==_false size 0 (omega arith) in
    let offset : u32 p % v.bytes_per_cluster ≡ p % 4096 =
      ap (λ k. u32 p % k) valid.cluster_bytes ∙ omega arith in
    let block : u32 p / v.bytes_per_cluster ≡ p / 4096 =
      ap (λ k. u32 p / k) valid.cluster_bytes ∙ omega arith in
    let at_start : 0 + p / 4096 ≡ p / 4096 = omega arith in
    let no_bytes : p ≡ p + 0 = omega arith in
    let reached : reach_cluster (u32 p / v.bytes_per_cluster) file.first_cluster v d
        ≡ (some (at (p / 4096)), d) =
      ap (λ k. reach_cluster k file.first_cluster v d) block
      ∙ reach_cluster-chain v d valid file.first_cluster p size clusters src (p / 4096) 0
          (omega arith)
      ∙ ap (λ i. (some (at i), d)) at_start in
    let whole : write_at update v scratch size src file (p % 4096) (some (at (p / 4096)), d)
        ≡ (size, record file { position = p + size }, w.disk) =
      rw some_bytes (
        ap
          (λ k.
            finish_write update file (write_loop size size v src (record start { position = k })))
          no_bytes
        ∙ finish_write_inside update file w size (p + size) fin.all_written fin.moved inside) in
    let wrote : exfat_write update v d scratch size src file
        ≡ some (
            write_at update v scratch size src file (u32 p % v.bytes_per_cluster)
              (reach_cluster (u32 p / v.bytes_per_cluster) file.first_cluster v d)) =
      simp not_closed refl in
    (
      w.disk,
      fin.valid',
      wrote
          ∙ ap
              (λ o. some (
                write_at update v scratch size src file o
                  (reach_cluster (u32 p / v.bytes_per_cluster) file.first_cluster v d)))
              offset
          ∙ ap (λ x. some (write_at update v scratch size src file (p % 4096) x)) reached
          ∙ ap some whole,
      fin.overwritten,
    )

chain_same :
    (v : Volume) (d d' : Disk) (first : ℕ)
    → ((k : ℕ) → exfat_get_next_cluster v k d' ≡ exfat_get_next_cluster v k d)
    → (k : ℕ) → chain v d' first k ≡ chain v d first k
unfolding chain
chain_same v d d' first same zero = refl
chain_same v d d' first same (suc k) =
    same (chain v d' first k)
    ∙ ap (λ c. exfat_get_next_cluster v c d) (chain_same v d d' first same k)

-- Writing at least one byte to an open file of a valid volume, inside the file of less than 4 GB,
-- where the clusters of the chain up to the last byte written are clusters of the volume and all
-- different, writes them all, moves the position behind them and leaves the volume valid. In the
-- clusters nothing but these bytes of the file has changed, and what comes next after any cluster
-- is as it was. Reading as many bytes from the old position then gives the bytes that were
-- written.
pub exfat_read-write :
    (update : ℕ → Disk → Disk) (v : Volume) (d : Disk) (valid : IsValid v d) (scratch : Buffer)
    (size : ℕ) (src : Buffer) (file : ExfatFile)
    → file.is_open ≢ 0
    → 0 < size
    → file.position + size ≤ file.file_size
    → file.file_size < 2 ^ 32
    → (clusters : IsChain v (chain v d file.first_cluster) (file.position + size))
    → (d' : Disk) × (valid' : IsValid v d') × (exfat_write update v d scratch size src file
        ≡ some (size, record file { position = file.position + size }, d'))
      × Overwritten v (chain v d file.first_cluster) file.position size clusters src 0 valid valid'
      × ((scratch' into : Buffer)
          → (result : Buffer) × (exfat_read v d' scratch' size into file
              ≡ some (size, record file { position = file.position + size }, result))
            × ((a : ℕ) → a < size → result a ≡ src a))
exfat_read-write update v d valid scratch size src file opened pos inside small clusters =
    let p = file.position in
    let first = file.first_cluster in
    let (d', valid', wrote, done) =
      exfat_write_lem update v d valid scratch size src file opened pos inside small clusters in
    let same = chain_same v d d' first done.same_next in
    let all : available size file ≡ size = ground arith in
    (
      d',
      valid',
      wrote,
      done,
      (λ scratch' into.
          let (result, read, filled) =
            exfat_read_lem v d' valid' scratch' size into file opened pos (omega arith) small
              (λ k h.
                let (lo, hi) = clusters.bounds k (omega (arith, all)) in
                (omega (arith, same k), omega (arith, same k))) in
          (
            result,
            read ∙ ap (λ n. some (n, record file { position = p + n }, result)) all,
            (λ a low.
                let k = (p + a) / 4096 in
                let o = (p + a) % 4096 in
                let place : k * 4096 + o - p ≡ a = omega arith in
                filled.front a (omega (arith, all))
                ∙ ap (λ c. byte_at valid' c o) (same k)
                ∙ done.new_bytes k o (omega arith) (omega arith) (omega arith)
                ∙ ap src place),
          )),
    )
