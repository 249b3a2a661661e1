-- ===== src/MetaFs/Store/Links.antt =====
-- The links of a view in kernel/fs/metafs/metafs.c: a file whose name tells the view and the name in
-- it, and which holds the digits of an object's id. A path longer than its buffer of 256 characters
-- is a fault.
use os_ax.Base.{
  ℕ, ◌-◌, Bool, false, Option, none, some, List, [], ◌∷◌, ◌++◌, ◌==◌, ltb, leb, if◌then◌else◌,
  length, take,
}
use os_ax.Base.Int.{ℤ, pos, success, failure, is_negative}
use os_ax.Base.Outcome.{Outcome, done, fault, ◌>>=◌}
use os_ax.Kstring.{CString, strchr, strlen, contents}
use os_ax.Kstring.Hex.{id_digits, ksscanf_hex}
use os_ax.MetaFs.{ObjectId, object_id_null}
use os_ax.MetaFs.Path.{slash, skip_slash}
use os_ax.MetaFs.Path.Normal.{metafs_normalize_path}
use os_ax.MetaFs.Store.{Files, create_and_open}

-- "views."
abbrev pub views_prefix : CString
views_prefix = 118 ∷ 105 ∷ 101 ∷ 119 ∷ 115 ∷ 46 ∷ []

-- The path of a link, built in `path[256]`.
unfoldable pub link_path : CString → CString → Outcome CString
link_path view_name name =
    let path = views_prefix ++ (view_name ++ 46 ∷ name) in
    if ltb (length path) 256 then done path else fault

-- The id that the sixteen characters read stand for.
unfoldable pub parse_link : ℤ × List ℕ → ObjectId
parse_link (n, bytes) =
    let (status, high, low) = ksscanf_hex (contents bytes) in
    if is_sixteen n
    then if is_negative status then object_id_null else record { high = high; low = low }
    else object_id_null
  where
    is_sixteen : ℤ → Bool
    is_sixteen (pos n) = n == 16
    is_sixteen _ = false

module _ (files : Files) where
  -- Exactly sixteen characters are written.
  unfoldable pub write_link :
      ObjectId → Option files.File × files.Volume → Outcome (ℤ × files.Volume)
  write_link id (none, volume) = done (failure, volume)
  write_link id (some file, volume) =
      done (success, (files.exfat_write volume file (id_digits id.high id.low)).2)

  unfoldable pub metafs_view_link_persistent :
      CString → CString → ObjectId → files.Volume → Outcome (ℤ × files.Volume)
  unfolding link_path write_link
  metafs_view_link_persistent view_name name id volume = do
    path ← link_path view_name name
    write_link id (create_and_open files volume path)

  unfoldable pub metafs_view_link :
      CString → CString → ObjectId → files.Volume → Outcome (ℤ × files.Volume)
  metafs_view_link view_name name id volume = metafs_view_link_persistent view_name name id volume

  -- The link file looked up and read.
  unfoldable pub resolve_link : CString → CString → files.Volume → Outcome ObjectId
  unfolding link_path parse_link
  resolve_link view_name object_name volume = do
    path ← link_path view_name object_name
    elim (files.exfat_open volume path) [
      | none ↦ done object_id_null
      | some file ↦
          let (n, bytes, file') = files.exfat_read volume file 16 in done (parse_link (n, bytes))
    ]

  unfoldable pub metafs_path_resolve : CString → files.Volume → Outcome ObjectId
  metafs_path_resolve path volume =
      let p = skip_slash path in
      elim (strchr (some p) slash) [
        | none ↦ done object_id_null
        | some [] ↦ done object_id_null
        | some (c ∷ object_name) ↦
            let view_len = strlen p - strlen (c ∷ object_name) in
            if leb 64 view_len
            then done object_id_null
            else resolve_link (take view_len p) object_name volume
      ]

  unfoldable pub shell_resolve_path : CString → CString → files.Volume → Outcome ObjectId
  unfolding metafs_normalize_path
  shell_resolve_path current_dir path volume = do
    r ← metafs_normalize_path current_dir path 256
    elim r [ none ↦ done object_id_null | some normalized ↦ metafs_path_resolve normalized volume ]
