-- ===== src/MetaFs/Fields.antt =====
-- The fields of an object's index entry in kernel/fs/metafs/metafs.c: names, views, extensions and
-- types, set and read, and objects found by name.
use os_ax.Base.{
  ℕ, zero, suc, Bool, true, false, not, ◌&&◌, Option, none, some, List, [], ◌∷◌, ◌==◌,
  if◌then◌else◌, get_or, set,
}
use os_ax.Base.Int.{ℤ, pos, success, failure}
use os_ax.Kstring.{CString, contents, strcmp, strlen}
use os_ax.Kstring.Hex.{ksscanf_hex}
use os_ax.MetaFs.{
  ObjectId, object_id_null, ObjectType, is_executable, CoreMetadata, ExtMetadata, IndexEntry,
  Context, meta_magic, meta_flag_executable, set_text,
}
use os_ax.MetaFs.Index.{lookup_entry, update_entry}

-- What the setters have in common: the loop, and the status.
unfoldable pub set_in_entry : Context → ObjectId → (IndexEntry → IndexEntry) → ℤ × Context
set_in_entry ctx id f = elim (update_entry ctx.num_objects ctx.index id f) [
  | none ↦ (failure, ctx)
  | some es ↦ (success, record ctx { index = es })
]

unfoldable pub metafs_object_set_name : Context → ObjectId → Option CString → ℤ × Context
unfolding set_in_entry
metafs_object_set_name ctx id none = (failure, ctx)
metafs_object_set_name ctx id (some name) =
    set_in_entry ctx id (λ e. record e { name = set_text 63 e.name name })

unfoldable pub metafs_object_set_view : Context → ObjectId → Option CString → ℤ × Context
unfolding set_in_entry
metafs_object_set_view ctx id none = (failure, ctx)
metafs_object_set_view ctx id (some view) =
    set_in_entry ctx id (λ e. record e { view = set_text 63 e.view view })

unfoldable pub metafs_object_set_extension : Context → ObjectId → Option CString → ℤ × Context
unfolding set_in_entry
metafs_object_set_extension ctx id none = (failure, ctx)
metafs_object_set_extension ctx id (some ext) =
    set_in_entry ctx id (λ e. record e { extension = set_text 15 e.extension ext })

unfoldable pub metafs_object_set_type : Context → ObjectId → ObjectType → ℤ × Context
unfolding set_in_entry
metafs_object_set_type ctx id type = set_in_entry ctx id (λ e. record e { type = type })

-- The string in a field, NULL if it is empty.
abbrev pub text_of : List ℕ → Option CString
text_of field = if get_or field 0 0 == 0 then none else some (contents field)

unfoldable pub metafs_object_get_name_simple : Context → ObjectId → Option CString
metafs_object_get_name_simple ctx id = elim (lookup_entry ctx.num_objects ctx.index id) [
  | none ↦ none
  | some e ↦ text_of e.name
]

unfoldable pub metafs_object_get_view : Context → ObjectId → Option CString
metafs_object_get_view ctx id = elim (lookup_entry ctx.num_objects ctx.index id) [
  | none ↦ none
  | some e ↦ text_of e.view
]

unfoldable pub metafs_object_get_extension : Context → ObjectId → Option CString
metafs_object_get_extension ctx id = elim (lookup_entry ctx.num_objects ctx.index id) [
  | none ↦ none
  | some e ↦ text_of e.extension
]

abbrev pub is_zero : ℤ → Bool
is_zero (pos zero) = true
is_zero _ = false

-- `name[0] != '\0' && strcmp(name, wanted) == 0`
abbrev pub is_named : IndexEntry → CString → Bool
is_named e name =
    not (get_or e.name 0 0 == 0) && is_zero (strcmp (some (contents e.name)) (some name))

-- The loop of `metafs_resolve_by_name`.
unfoldable pub find_named : ℕ → List IndexEntry → CString → ObjectId
find_named zero es name = object_id_null
find_named (suc rounds) [] name = object_id_null
find_named (suc rounds) (e ∷ es) name =
    let rest = find_named rounds es name in if is_named e name then e.id else rest

-- Sixteen hexadecimal digits are an id, whatever objects there are.
unfoldable pub metafs_resolve_by_name : Context → CString → ObjectId
unfolding find_named
metafs_resolve_by_name ctx name =
    let (status, high, low) = ksscanf_hex name in
    if (strlen name == 16) && is_zero status
    then record { high = high; low = low }
    else find_named ctx.num_objects ctx.index name

-- The loop of `metafs_query_by_name`: at most `room` results.
unfoldable pub query_from : ℕ → ℕ → List IndexEntry → CString → List ObjectId
query_from zero room es name = []
query_from (suc rounds) zero es name = []
query_from (suc rounds) (suc room) [] name = []
query_from (suc rounds) (suc room) (e ∷ es) name =
    let hit = e.id ∷ query_from rounds room es name in
    let miss = query_from rounds (suc room) es name in if is_named e name then hit else miss

unfoldable pub metafs_query_by_name : Context → CString → ℕ → List ObjectId
unfolding query_from
metafs_query_by_name ctx name max_results = query_from ctx.num_objects max_results ctx.index name

unfoldable pub metafs_get_core_meta : Context → ObjectId → Option CoreMetadata
metafs_get_core_meta fs id = elim (lookup_entry fs.num_objects fs.index id) [
  | none ↦ none
  | some e ↦ some (record {
    magic = meta_magic;
    version = 1;
    id = id;
    type = e.type;
    size = 0;
    created = 0;
    modified = 0;
    flags = if is_executable e.type then meta_flag_executable else 0;
    checksum = e.checksum;
  })
]

-- What is written into `out`, whose arrays are given.
unfoldable pub metafs_get_ext_meta : Context → ObjectId → ExtMetadata → ℤ × ExtMetadata
metafs_get_ext_meta fs id out = elim (lookup_entry fs.num_objects fs.index id) [
  | none ↦ (failure, out)
  | some e ↦ (
    success,
    record {
      name = set_text 63 out.name (contents e.name);
      view = set_text 63 out.view (contents e.view);
      tags = set out.tags 0 0;
    },
  )
]

unfoldable pub metafs_set_ext_meta : Context → ObjectId → ExtMetadata → ℤ × Context
unfolding set_in_entry
metafs_set_ext_meta fs id meta = set_in_entry fs id (λ e. record e {
  name = set_text 63 e.name (contents meta.name);
  view = set_text 63 e.view (contents meta.view);
})
