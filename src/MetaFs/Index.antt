-- ===== src/MetaFs/Index.antt =====
-- The object index of kernel/fs/metafs/metafs.c: the functions that work on the entries in memory.
-- A loop over the entries is given the rounds left and the entries from the present one on. `ctx`
-- is never NULL here; a string that may be NULL is an option.
pub mod Live
pub mod Change
use mathlib.Core.Option
use os_ax.Base.{
  ℕ, zero, suc, ◌+◌, ◌-◌, ◌*◌, ◌^◌, Bool, true, false, not, ◌&&◌, Option, none, some, List, [], ◌∷◌,
  ◌++◌, ◌==◌, ltb, leb, if◌then◌else◌, get_or, length, set, replicate, drop,
}
use os_ax.Base.Int.{ℤ, pos, negsuc, success, failure}
use os_ax.Base.Words.{u64}
use os_ax.Base.Bytes.{le_bytes}
use os_ax.Kstring.{CString, contents, strcmp, strlen}
use os_ax.Kstring.Hex.{ksscanf_hex}
use os_ax.MetaFs.{
  ObjectId, object_id_null, ObjectType, unknown, type_code, is_executable, CoreMetadata,
  ExtMetadata, IndexEntry, ViewDefinition, ObjectHandle, Context, meta_magic, meta_flag_executable,
  object_id_equal, set_text,
}
use os_ax.MetaFs.Checksum.{metafs_crc32}

-- An entry of the index after `memset`.
unfoldable pub null_entry : IndexEntry
null_entry = record {
  id = object_id_null;
  type = unknown;
  data_offset = 0;
  meta_offset = 0;
  checksum = 0;
  name = replicate 64 0;
  view = replicate 64 0;
  extension = replicate 16 0;
}

-- `kmalloc` grants the index or not; the array of views is left as it is.
unfoldable pub metafs_init : Bool → List ViewDefinition → Option Context
metafs_init granted views =
    if granted
    then some (record {
      index = replicate 1024 null_entry;
      num_objects = 0;
      max_objects = 1024;
      views = views;
      num_views = 0;
      last_object_id = 0;
    })
    else none

unfoldable pub metafs_generate_object_id : Context → ObjectId × Context
metafs_generate_object_id ctx =
    let last = u64 (ctx.last_object_id + 1) in
    (record { high = 0; low = last }, record ctx { last_object_id = last })

-- The bytes of a `core_metadata_t` in front of its checksum.
unfoldable pub core_bytes : CoreMetadata → List ℕ
core_bytes core =
    le_bytes 4 core.magic
    ++ le_bytes 4 core.version
    ++ le_bytes 8 core.id.high
    ++ le_bytes 8 core.id.low
    ++ le_bytes 4 (type_code core.type)
    ++ le_bytes 8 core.size
    ++ le_bytes 8 core.created
    ++ le_bytes 8 core.modified
    ++ le_bytes 4 core.flags

-- The metadata that `metafs_object_create` makes, with its checksum.
unfoldable pub new_core : ObjectId → ObjectType → CoreMetadata
new_core id type =
    let core : CoreMetadata = record {
      magic = meta_magic;
      version = 1;
      id = id;
      type = type;
      size = 0;
      created = 0;
      modified = 0;
      flags = if is_executable type then meta_flag_executable else 0;
      checksum = 0;
    } in
    record core { checksum = metafs_crc32 (core_bytes core) }

-- The entry behind the last one in use, filled in; its name, view and extension are left as they are.
unfoldable pub new_entry : Context → ObjectId → ObjectType → IndexEntry
new_entry ctx id type =
    let entry = get_or ctx.index ctx.num_objects null_entry in
    let core = new_core id type in
    record entry {
      id = id;
      type = type;
      data_offset = 0;
      meta_offset = 0;
      checksum = core.checksum;
    }

unfoldable pub push_entry : Context → IndexEntry → Context
push_entry ctx entry = record ctx {
  index = set ctx.index ctx.num_objects entry;
  num_objects = ctx.num_objects + 1;
}

-- The number of the id is used up also when there is no room.
unfoldable pub metafs_object_create : Context → ObjectType → ObjectId × Context
metafs_object_create ctx type =
    let (id, ctx') = metafs_generate_object_id ctx in
    if leb ctx'.max_objects ctx'.num_objects
    then (object_id_null, ctx')
    else (id, push_entry ctx' (new_entry ctx' id type))

-- The loop that looks for an object: the first entry with that id.
unfoldable pub lookup_entry : ℕ → List IndexEntry → ObjectId → Option IndexEntry
lookup_entry zero es id = none
lookup_entry (suc rounds) [] id = none
lookup_entry (suc rounds) (e ∷ es) id =
    let rest = lookup_entry rounds es id in if object_id_equal e.id id then some e else rest

-- The same loop where the entry found is written.
unfoldable pub update_entry :
    ℕ → List IndexEntry → ObjectId → (IndexEntry → IndexEntry) → Option (List IndexEntry)
update_entry zero es id f = none
update_entry (suc rounds) [] id f = none
update_entry (suc rounds) (e ∷ es) id f =
    let rest = Option.map (λ t. e ∷ t) (update_entry rounds es id f) in
    if object_id_equal e.id id then some (f e ∷ es) else rest

-- `ctx->index[j] = ctx->index[j + 1]` for the entries from the one deleted on.
unfoldable pub shift : ℕ → List IndexEntry → List IndexEntry
shift zero es = es
shift (suc rounds) [] = []
shift (suc rounds) (e ∷ []) = e ∷ []
shift (suc rounds) (e ∷ f ∷ es) = f ∷ shift rounds (f ∷ es)

-- The loop of `metafs_object_delete`.
unfoldable pub delete_entry : ℕ → List IndexEntry → ObjectId → Option (List IndexEntry)
delete_entry zero es id = none
delete_entry (suc rounds) [] id = none
delete_entry (suc rounds) (e ∷ es) id =
    let rest = Option.map (λ t. e ∷ t) (delete_entry rounds es id) in
    if object_id_equal e.id id then some (shift rounds (e ∷ es)) else rest

unfoldable pub metafs_object_delete : Context → ObjectId → ℤ × Context
metafs_object_delete ctx id = elim (delete_entry ctx.num_objects ctx.index id) [
  | none ↦ (failure, ctx)
  | some es ↦ (success, record ctx { index = es; num_objects = ctx.num_objects - 1 })
]

unfoldable pub metafs_object_open : Context → ObjectId → Option ObjectHandle
metafs_object_open ctx id = elim (lookup_entry ctx.num_objects ctx.index id) [
  | none ↦ none
  | some e ↦ some (record { id = id; is_open = 1; core_id = id; has_extended = 0 })
]

unfoldable pub metafs_object_close : ObjectHandle → ℤ × ObjectHandle
metafs_object_close handle =
    if handle.is_open == 0 then (failure, handle) else (success, record handle { is_open = 0 })

-- The fields of the metadata that are set.
unfoldable pub metafs_metadata_get : Context → ObjectId → Option CoreMetadata
metafs_metadata_get ctx id = elim (lookup_entry ctx.num_objects ctx.index id) [
  | none ↦ none
  | some e ↦ some (record {
    magic = 0;
    version = 0;
    id = id;
    type = e.type;
    size = 0;
    created = 0;
    modified = 0;
    flags = 0;
    checksum = 0;
  })
]

unfoldable pub metafs_validate_metadata : CoreMetadata → Bool
metafs_validate_metadata meta =
    if meta.magic == meta_magic then meta.checksum == metafs_crc32 (core_bytes meta) else false
