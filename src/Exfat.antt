-- ===== src/Exfat.antt =====
-- kernel/fs/exfat: the disk in memory, the clusters and the FAT of a volume, and the data of files.
pub mod Disk
pub mod Fat
pub mod Entries
pub mod Allocate
pub mod Sectors
pub mod Clusters
pub mod File
pub mod Contents
pub mod Format
pub mod Replaced
pub mod Mount
pub mod Read
pub mod Write
pub mod Overwrite
pub mod Update
mod Tests
