-- ===== src/MetaFs/Store/Setup.antt =====
-- What kernel/fs/metafs sets up: the views of a new file system, the objects of the system, and
-- views made later.
use os_ax.Base.{◌+◌, none, some, [], ◌∷◌, leb, if◌then◌else◌, length, take, set}
use os_ax.Base.Int.{ℤ, success, failure, is_negative}
use os_ax.Base.Outcome.{Outcome, done, fault, ◌>>=◌}
use os_ax.Kstring.{CString}
use os_ax.Kstring.Format.{text, ksprintf}
use os_ax.MetaFs.{
  ObjectId, object_id_null, ObjectType, executable, document, image, raw_data, ViewType,
  static_apps, static_documents, static_media, Context, object_id_equal,
}
use os_ax.MetaFs.Index.{metafs_object_create}
use os_ax.MetaFs.Fields.{
  metafs_object_set_name, metafs_object_set_extension, metafs_object_set_view,
}
use os_ax.MetaFs.Path.{find_view}
use os_ax.MetaFs.Store.{Files, metafs_sync, metafs_object_write_data}

-- "kernel", "data", "boot", "config", "apps", "documents" and "media"
abbrev pub kernel_name : CString
kernel_name = 107 ∷ 101 ∷ 114 ∷ 110 ∷ 101 ∷ 108 ∷ []

abbrev pub data_name : CString
data_name = 100 ∷ 97 ∷ 116 ∷ 97 ∷ []

abbrev pub boot_name : CString
boot_name = 98 ∷ 111 ∷ 111 ∷ 116 ∷ []

abbrev pub config_name : CString
config_name = 99 ∷ 111 ∷ 110 ∷ 102 ∷ 105 ∷ 103 ∷ []

abbrev pub apps_name : CString
apps_name = 97 ∷ 112 ∷ 112 ∷ 115 ∷ []

abbrev pub documents_name : CString
documents_name = 100 ∷ 111 ∷ 99 ∷ 117 ∷ 109 ∷ 101 ∷ 110 ∷ 116 ∷ 115 ∷ []

abbrev pub media_name : CString
media_name = 109 ∷ 101 ∷ 100 ∷ 105 ∷ 97 ∷ []

-- `ctx->views[ctx->num_views++] = view;`
unfoldable pub push_view : CString → ViewType → ObjectType → Context → Context
push_view name type filter_type ctx = record ctx {
  views =
      set ctx.views ctx.num_views (record { name = name; type = type; filter_type = filter_type });
  num_views = ctx.num_views + 1;
}

-- The four views of the system, then the three of the user.
unfoldable pub metafs_format : Context → Context
unfolding push_view
metafs_format ctx =
    let c1 = push_view kernel_name static_apps raw_data ctx in
    let c2 = push_view data_name static_documents raw_data c1 in
    let c3 = push_view boot_name static_apps executable c2 in
    let c4 = push_view config_name static_documents raw_data c3 in
    let c5 = push_view apps_name static_apps executable c4 in
    let c6 = push_view documents_name static_documents document c5 in
    push_view media_name static_media image c6

unfoldable pub create_system_object :
    CString → CString → CString → ObjectType → Context → ObjectId × Context
create_system_object name extension view type ctx =
    let (id, created) = metafs_object_create ctx type in
    if object_id_equal id object_id_null
    then (object_id_null, created)
    else let named = (metafs_object_set_name created id (some name)).1 in
      let extended = (metafs_object_set_extension named id (some extension)).1 in
      (id, (metafs_object_set_view extended id (some view)).1)

-- "objects", "db", "system" and "state"
abbrev pub objects_text : CString
objects_text = 111 ∷ 98 ∷ 106 ∷ 101 ∷ 99 ∷ 116 ∷ 115 ∷ []

abbrev pub db_text : CString
db_text = 100 ∷ 98 ∷ []

abbrev pub system_text : CString
system_text = 115 ∷ 121 ∷ 115 ∷ 116 ∷ 101 ∷ 109 ∷ []

abbrev pub state_text : CString
state_text = 115 ∷ 116 ∷ 97 ∷ 116 ∷ 101 ∷ []

module _ (files : Files) where
  -- An empty file for an object that was created.
  unfoldable pub write_placeholder : ObjectId → files.Volume → files.Volume
  write_placeholder id volume =
      if object_id_equal id object_id_null
      then volume
      else (metafs_object_write_data files id [] volume).1

  unfoldable pub metafs_import_system_files : Context → files.Volume → Context × files.Volume
  unfolding create_system_object write_placeholder
  metafs_import_system_files ctx volume =
      let (objects_db, ctx') = create_system_object objects_text db_text kernel_name raw_data ctx in
      let volume' = write_placeholder objects_db volume in
      let (system_state, ctx'') =
        create_system_object system_text state_text kernel_name raw_data ctx' in
      (ctx'', write_placeholder system_state volume')

  -- The new view, its name cut to 63 characters, and the index synced.
  unfoldable pub add_view : Context → CString → ObjectType → files.Volume → Context × files.Volume
  unfolding push_view
  add_view ctx view_name filter_type volume =
      let ctx' = push_view (take 63 view_name) static_documents filter_type ctx in
      (ctx', metafs_sync files ctx' volume)

  -- The path "/views/%s" is built in a buffer of 256 characters; a longer one is a fault.
  unfoldable pub metafs_view_create :
      Context → CString → ObjectType → files.Volume → Outcome (ℤ × Context × files.Volume)
  unfolding add_view
  metafs_view_create ctx view_name filter_type volume =
      elim (find_view ctx.num_views ctx.views view_name) [
        | some v ↦ done (failure, ctx, volume)
        | none ↦ if leb 64 ctx.num_views then done (failure, ctx, volume) else (do
          path ←
              ksprintf (47 ∷ 118 ∷ 105 ∷ 101 ∷ 119 ∷ 115 ∷ 47 ∷ 37 ∷ 115 ∷ [])
                (text (some view_name) ∷ [])
          if leb 256 (length path)
              then fault
              else let (status, volume') = files.exfat_mkdir volume path in
                let (ctx', volume'') = add_view ctx view_name filter_type volume' in
                if is_negative status
                then done (failure, ctx, volume')
                else done (success, ctx', volume''))
      ]
