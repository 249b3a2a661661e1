-- ===== src/MetaFs/Store.antt =====
-- What kernel/fs/metafs keeps on the volume: the index, the data of objects, and the links of views.
-- The volume is reached through the operations of exFAT, a record that the functions take.
pub mod Layout
pub mod Links
pub mod Setup
use os_ax.Base.{
  ℕ, zero, suc, ◌+◌, ◌*◌, Bool, true, false, Option, none, some, List, [], ◌∷◌, ◌++◌, ◌==◌, ltb,
  if◌then◌else◌, length, drop,
}
use os_ax.Base.Int.{ℤ, pos, success, failure, is_negative}
use os_ax.Base.Outcome.{Outcome, done, fault, out_of_fuel, ◌>>=◌}
use os_ax.Kstring.{CString}
use os_ax.MetaFs.{ObjectId, IndexEntry, Context, metadata_db_magic, object_id_to_filename}
use os_ax.MetaFs.Store.Layout.{
  DbHeader, header_bytes, header_of, header_size, entry_bytes, entry_of, entry_size,
}

-- The operations of exFAT that are used. A status is negative on failure; a read gives the bytes
-- that it puts into the buffer.
pub record Files : Type 1 where
  pub Volume : Type 0
  pub File : Type 0
  pub exfat_create : Volume → CString → ℤ × Volume
  pub exfat_mkdir : Volume → CString → ℤ × Volume
  pub exfat_open : Volume → CString → Option File
  pub exfat_write : Volume → File → List ℕ → ℤ × File × Volume
  pub exfat_read : Volume → File → ℕ → ℤ × List ℕ × File

-- ".kernel.objects.db"
abbrev pub objects_db : CString
objects_db =
    46 ∷ 107 ∷ 101 ∷ 114 ∷ 110 ∷ 101 ∷ 108 ∷ 46 ∷ 111 ∷ 98 ∷ 106 ∷ 101 ∷ 99 ∷ 116 ∷ 115 ∷ 46 ∷ 100
    ∷ 98 ∷ []

-- "data."
abbrev pub data_prefix : CString
data_prefix = 100 ∷ 97 ∷ 116 ∷ 97 ∷ 46 ∷ []

module _ (files : Files) where
  -- A file created, opened, written and closed; `none` if it cannot be created or opened.
  unfoldable pub create_and_open : files.Volume → CString → Option files.File × files.Volume
  create_and_open volume filename =
      let (status, volume') = files.exfat_create volume filename in
      if is_negative status then (none, volume') else (files.exfat_open volume' filename, volume')

  -- The loop that writes the entries.
  unfoldable pub write_entries :
      ℕ → List IndexEntry → files.File → files.Volume → files.File × files.Volume
  write_entries zero es file volume = (file, volume)
  write_entries (suc rounds) [] file volume = (file, volume)
  write_entries (suc rounds) (e ∷ es) file volume =
      let (n, file', volume') = files.exfat_write volume file (entry_bytes e) in
      write_entries rounds es file' volume'

  unfoldable pub metafs_save_index : Context → files.Volume → ℤ × files.Volume
  unfolding create_and_open write_entries
  metafs_save_index ctx volume =
      let (opened, volume') = create_and_open volume objects_db in
      elim opened [
        | none ↦ (failure, volume')
        | some file ↦
            let header : DbHeader = record {
              magic = metadata_db_magic;
              version = 1;
              num_objects = ctx.num_objects;
              num_views = ctx.num_views;
              last_sync = 0;
            } in
            let (n, file', volume'') = files.exfat_write volume' file (header_bytes header) in
            (success, (write_entries ctx.num_objects ctx.index file' volume'').1)
      ]

  -- The loop that reads the entries into the index and finds the highest id. A read that comes short
  -- leaves the rest of an entry as it was; an entry behind the end of the index is a fault.
  unfoldable pub read_entries :
      ℕ → List IndexEntry → files.Volume → files.File → ℕ → Outcome (List IndexEntry × ℕ)
  read_entries zero es volume file last = done (es, last)
  read_entries (suc rounds) [] volume file last = fault
  read_entries (suc rounds) (e ∷ es) volume file last = do
    let (n, bytes, file') = files.exfat_read volume file entry_size
    let e' = entry_of (bytes ++ drop (length bytes) (entry_bytes e))
    let last' = if ltb last e'.id.low then e'.id.low else last
    r ← read_entries rounds es volume file' last'
    done (e' ∷ r.0, r.1)

  unfoldable pub metafs_load_index : Context → files.Volume → Outcome (ℤ × Context)
  unfolding read_entries
  metafs_load_index ctx volume = elim (files.exfat_open volume objects_db) [
    | none ↦ done (failure, ctx)
    | some file ↦
        let (n, bytes, file') = files.exfat_read volume file header_size in
        let header = header_of bytes in
        if is_size n
        then if header.magic == metadata_db_magic
          then (do
            r ← read_entries header.num_objects ctx.index volume file' 0
            done (
              success,
              record ctx {
                index = r.0;
                num_objects = header.num_objects;
                num_views = header.num_views;
                last_object_id = r.1;
              },
            ))
          else done (failure, ctx)
        else done (failure, ctx)
  ]
    where
      is_size : ℤ → Bool
      is_size (pos n) = n == header_size
      is_size _ = false

  -- The status of the load is only printed.
  unfoldable pub metafs_mount : Context → files.Volume → Outcome Context
  unfolding metafs_load_index
  metafs_mount ctx volume = do r ← metafs_load_index ctx volume; done r.1

  unfoldable pub metafs_sync : Context → files.Volume → files.Volume
  unfolding metafs_save_index
  metafs_sync ctx volume = (metafs_save_index ctx volume).1

  unfoldable pub metafs_object_write_data : ObjectId → List ℕ → files.Volume → ℤ × files.Volume
  unfolding create_and_open
  metafs_object_write_data id bytes volume =
      let filename = object_id_to_filename id data_prefix in
      let (opened, volume') = create_and_open volume filename in
      elim opened [
        | none ↦ (failure, volume')
        | some file ↦
            let (n, file', volume'') = files.exfat_write volume' file bytes in (n, volume'')
      ]

  -- The status, and the bytes put into the buffer.
  unfoldable pub metafs_object_read_data : ObjectId → ℕ → files.Volume → ℤ × List ℕ
  metafs_object_read_data id size volume =
      elim (files.exfat_open volume (object_id_to_filename id data_prefix)) [
        | none ↦ (failure, [])
        | some file ↦ let (n, bytes, file') = files.exfat_read volume file size in (n, bytes)
      ]
