-- ===== src/Exfat/Tests.antt =====
-- kernel/fs/exfat with a volume of two clusters, and its theorems there.
use os_ax.Base.{ℕ, ◌+◌, ◌<◌, ◌≡◌, ◌≢◌, refl, true, ◌&&◌, some, arith, leb, ltb, if◌then◌else◌}
use os_ax.Exfat.Disk.{
  Buffer, Disk, Volume, exfat_read_cluster, exfat_write_cluster, disk_read_sector, exfat_init_disk,
}
use os_ax.Exfat.Fat.{
  exfat_get_next_cluster, exfat_write_fat_entry, exfat_alloc_cluster, end_of_chain,
}
use os_ax.Exfat.Entries
use os_ax.Exfat.Entries.{exfat_write_fat_entry-get_next_cluster}
use os_ax.Exfat.Allocate.{Answer, exfat_alloc_cluster_lem}
use os_ax.Exfat.File.{ExfatFile, exfat_read}
use os_ax.Exfat.Contents.{chain, HasClusters, Filled}
use os_ax.Exfat.Read.{exfat_read_lem}
use os_ax.Exfat.Write.{exfat_write}
use os_ax.Exfat.Overwrite.{IsChain, Overwritten}
use os_ax.Exfat.Update.{exfat_read-write}
use os_ax.Exfat.Format.{exfat_format, exfat_mount}
use os_ax.Exfat.Mount.{exfat_mount-format}
use os_ax.Exfat.Clusters
use os_ax.Exfat.Clusters.{exfat_read_cluster-write_cluster}

-- The first cluster ends a chain, the second is free.
abbrev two_clusters_bytes : Buffer
two_clusters_bytes a = if leb 12296 a && ltb a 12300 then 255 else 0

abbrev two_clusters_disk : Disk
two_clusters_disk = record { disk_buffer = some two_clusters_bytes; disk_size_sectors = 41 }

abbrev two_clusters : Volume
two_clusters = record {
  cluster_count = 2;
  bytes_per_sector = 512;
  sectors_per_cluster = 8;
  bytes_per_cluster = 4096;
  fat_start_sector = 24;
  cluster_heap_start_sector = 25;
  root_dir_cluster = 2;
}

two_clusters-IsValid : Entries.IsValid two_clusters two_clusters_disk
two_clusters-IsValid = record {
  bytes = two_clusters_bytes;
  present = refl;
  small = omega arith;
  sector_size = refl;
  clusters = omega arith;
  fat_fits = omega arith;
}

first_ends : exfat_get_next_cluster two_clusters 2 two_clusters_disk ≡ end_of_chain
unfolding exfat_get_next_cluster disk_read_sector
first_ends = refl

second_taken : (exfat_alloc_cluster two_clusters two_clusters_disk).0 ≡ 3
unfolding exfat_alloc_cluster disk_read_sector
second_taken = refl

exfat_write_fat_entry-get_next_cluster_example :
    (d' : Disk) × (exfat_write_fat_entry two_clusters 2 3 two_clusters_disk ≡ some d')
    × Entries.IsValid two_clusters d'
    × (exfat_get_next_cluster two_clusters 2 d' ≡ 3)
    × ((c : ℕ)
        → c ≢ 2
        → exfat_get_next_cluster two_clusters c d'
          ≡ exfat_get_next_cluster two_clusters c two_clusters_disk)
exfat_write_fat_entry-get_next_cluster_example =
    exfat_write_fat_entry-get_next_cluster two_clusters two_clusters_disk 2 3 two_clusters-IsValid
      (omega arith) (omega arith) (omega arith)

exfat_alloc_cluster_lem_example :
    Answer two_clusters two_clusters_disk (exfat_alloc_cluster two_clusters two_clusters_disk)
exfat_alloc_cluster_lem_example =
    exfat_alloc_cluster_lem two_clusters two_clusters_disk two_clusters-IsValid

exfat_read_cluster-write_cluster_example :
    (d' : Disk) × (exfat_write_cluster two_clusters 3 (λ a. a) two_clusters_disk ≡ (true, d'))
    × Clusters.IsValid two_clusters d'
    × ((into : Buffer)
        → (result : Buffer) × (exfat_read_cluster two_clusters 3 d' into ≡ some result)
          × ((a : ℕ) → a < 4096 → result a ≡ a))
    × ((k : ℕ) (into : Buffer)
        → k ≢ 3
        → exfat_read_cluster two_clusters k d' into
          ≡ exfat_read_cluster two_clusters k two_clusters_disk into)
    × ((k : ℕ)
        → exfat_get_next_cluster two_clusters k d'
          ≡ exfat_get_next_cluster two_clusters k two_clusters_disk)
exfat_read_cluster-write_cluster_example =
    exfat_read_cluster-write_cluster two_clusters two_clusters_disk 3 (λ a. a)
      (record {
        fat = two_clusters-IsValid;
        cluster_size = refl;
        cluster_bytes = refl;
        behind = omega arith;
        fits = omega arith;
      })
      (omega arith) (omega arith)

two_clusters-HaveClusters : Clusters.IsValid two_clusters two_clusters_disk
two_clusters-HaveClusters = record {
  fat = two_clusters-IsValid;
  cluster_size = refl;
  cluster_bytes = refl;
  behind = omega arith;
  fits = omega arith;
}

-- Ten bytes in the first cluster, read from the fourth on.
abbrev ten_bytes : ExfatFile
ten_bytes = record {
  first_cluster = 2;
  file_size = 10;
  position = 3;
  attributes = 32;
  is_open = 1;
  is_directory = 0;
}

one_cluster : HasClusters two_clusters two_clusters_disk 2 10
unfolding chain
one_cluster k small = let e : k ≡ 0 = omega arith in rw e (omega arith)

exfat_read_lem_example :
    (result : Buffer) × (exfat_read two_clusters two_clusters_disk (λ a. 0) 100 (λ a. 5) ten_bytes
      ≡ some (7, record ten_bytes { position = 10 }, result))
    × Filled two_clusters-HaveClusters 2 3 7 (λ a. 5) result
exfat_read_lem_example =
    exfat_read_lem two_clusters two_clusters_disk two_clusters-HaveClusters (λ a. 0) 100 (λ a. 5)
      ten_bytes (λ e. absurd (omega arith)) (omega arith) (omega arith) (omega arith) one_cluster

-- A disk of 10 MB, as the kernel makes it.
abbrev ten_megabytes : Disk
ten_megabytes = record { disk_buffer = some (λ a. 7); disk_size_sectors = 20480 }

ten_megabytes_made : exfat_init_disk 10 (some (λ a. 7)) ≡ ten_megabytes
unfolding exfat_init_disk
ten_megabytes_made = refl

exfat_mount-format_example :
    (v : Volume) × (exfat_mount (exfat_format 20480 ten_megabytes) ≡ some v)
    × Clusters.IsValid v (exfat_format 20480 ten_megabytes)
    × (exfat_get_next_cluster v v.root_dir_cluster (exfat_format 20480 ten_megabytes)
        ≡ end_of_chain)
exfat_mount-format_example =
    exfat_mount-format 20480 ten_megabytes (λ a. 7) refl (omega arith) (omega arith) (omega arith)

one_cluster-IsChain : IsChain two_clusters (chain two_clusters two_clusters_disk 2) 7
unfolding chain
one_cluster-IsChain = record {
  bounds = λ k small. let e : k ≡ 0 = omega arith in rw e (omega arith, omega arith);
  distinct = λ i j low low' other. absurd (omega arith);
}

exfat_read-write_example :
    (d' : Disk) × (valid' : Clusters.IsValid two_clusters d') × (exfat_write
        (λ n d. d)
        two_clusters
        two_clusters_disk
        (λ a. 0)
        4
        (λ a. 65 + a)
        ten_bytes
      ≡ some (4, record ten_bytes { position = 7 }, d'))
    × Overwritten two_clusters
        (chain two_clusters two_clusters_disk 2)
        3
        4
        one_cluster-IsChain
        (λ a. 65 + a)
        0
        two_clusters-HaveClusters
        valid'
    × ((scratch' into : Buffer)
        → (result : Buffer) × (exfat_read two_clusters d' scratch' 4 into ten_bytes
            ≡ some (4, record ten_bytes { position = 7 }, result))
          × ((a : ℕ) → a < 4 → result a ≡ 65 + a))
exfat_read-write_example =
    exfat_read-write (λ n d. d) two_clusters two_clusters_disk two_clusters-HaveClusters (λ a. 0) 4
      (λ a. 65 + a) ten_bytes (λ e. absurd (omega arith)) (omega arith) (omega arith) (omega arith)
      one_cluster-IsChain
