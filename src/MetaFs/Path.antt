-- ===== src/MetaFs/Path.antt =====
-- kernel/fs/metafs/metafs_wrappers.c without the volume: paths of the shell, which views there are,
-- and what a view lists. An overrun of one of the function's own buffers is a fault.
pub mod Normal
pub mod Shape
pub mod ObjectName
use os_ax.Base.{
  ℕ, zero, suc, ◌+◌, ◌-◌, Bool, true, false, not, ◌&&◌, ◌||◌, Option, none, some, List, [], ◌∷◌,
  ◌++◌, ◌==◌, ltb, leb, if◌then◌else◌, length, take, min,
}
use os_ax.Base.Outcome.{Outcome, done, fault, out_of_fuel, ◌>>=◌}
use os_ax.Base.Words.{u32}
use os_ax.Kstring.{CString, strcmp, strlen, strchr}
use os_ax.Kstring.Format.{Arg, num, text, ksprintf}
use os_ax.MetaFs.{
  ObjectId, object_id_null, ObjectType, unknown, type_code, CoreMetadata, IndexEntry,
  ViewDefinition, Context,
}
use os_ax.MetaFs.Index.{metafs_metadata_get}
use os_ax.MetaFs.Fields.{is_zero}

abbrev pub slash : ℕ
slash = 47

abbrev pub same_text : CString → CString → Bool
same_text s t = is_zero (strcmp (some s) (some t))

-- `if (p[0] == '/') p++;`
abbrev pub skip_slash : CString → CString
skip_slash [] = []
skip_slash (c ∷ s) = if c == slash then s else c ∷ s

-- `slash ? slash - p : strlen(p)`
unfoldable pub view_length : CString → ℕ
unfolding strlen
view_length p = elim (strchr (some p) slash) [ none ↦ strlen p | some r ↦ strlen p - strlen r ]

unfoldable pub metafs_path_get_view : CString → ℕ → Option CString
metafs_path_get_view path max_len =
    let p = skip_slash path in
    let len = view_length p in
    if max_len == 0
    then none
    else if length p == 0
    then some []
    else if leb max_len len
    then none
    else some (take len p)

-- The loop over the views: the first of that name.
unfoldable pub find_view : ℕ → List ViewDefinition → CString → Option ViewDefinition
find_view zero views name = none
find_view (suc rounds) [] name = none
find_view (suc rounds) (v ∷ views) name =
    let rest = find_view rounds views name in if same_text v.name name then some v else rest

unfoldable pub metafs_view_exists : Context → CString → Bool
metafs_view_exists ctx path =
    let p = skip_slash path in
    let len = view_length p in
    if same_text path (slash ∷ [])
    then true
    else if length p == 0
    then true
    else if (len == 0) || leb 64 len
    then false
    else elim (find_view ctx.num_views ctx.views (take len p)) [ none ↦ false | some v ↦ true ]

-- "obj_%08x%08x"
abbrev pub object_format : CString
object_format = 111 ∷ 98 ∷ 106 ∷ 95 ∷ 37 ∷ 48 ∷ 56 ∷ 120 ∷ 37 ∷ 48 ∷ 56 ∷ 120 ∷ []

unfoldable pub metafs_object_get_name : ObjectId → Outcome CString
metafs_object_get_name id = ksprintf object_format (num (u32 id.high) ∷ num (u32 id.low) ∷ [])

-- `metafs_view_entry_t`; `kmalloc` grants the entries (the code does not test it).
pub record ViewEntry : Type 0 where
  pub name : CString
  pub id : ObjectId
  pub type : ObjectType
  pub size : ℕ
  pub created : ℕ

-- The loop that lists the views.
unfoldable pub list_views : ℕ → List ViewDefinition → List ViewEntry
list_views zero views = []
list_views (suc rounds) [] = []
list_views (suc rounds) (v ∷ views) =
    record { name = take 255 v.name; id = object_id_null; type = unknown; size = 0; created = 0 }
    ∷ list_views rounds views

abbrev pub passes_filter : ViewDefinition → ObjectType → Bool
passes_filter view type =
    (type_code view.filter_type == 0) || (type_code type == type_code view.filter_type)

-- The loop over the index: the objects of the view's type, at most `room` of them.
unfoldable pub list_objects :
    ℕ → ℕ → Context → ViewDefinition → List IndexEntry → Outcome (List ViewEntry)
unfolding metafs_object_get_name
list_objects zero room ctx view es = done []
list_objects (suc rounds) zero ctx view es = done []
list_objects (suc rounds) (suc room) ctx view [] = done []
list_objects (suc rounds) (suc room) ctx view (e ∷ es) =
    let miss = list_objects rounds (suc room) ctx view es in
    let hit = list_objects rounds room ctx view es in
    elim (metafs_metadata_get ctx e.id) [
      | none ↦ miss
      | some meta ↦
          if passes_filter view meta.type
          then (do
            link_name ← metafs_object_get_name e.id
            rest ← hit
            done (
                record {
                  name = take 255 link_name;
                  id = e.id;
                  type = meta.type;
                  size = meta.size;
                  created = meta.created;
                }
                ∷ rest))
          else miss
    ]

unfoldable pub metafs_view_list : Context → CString → Outcome (Option (List ViewEntry))
metafs_view_list ctx view_path =
    let path = skip_slash view_path in
    let len = view_length path in
    if length path == 0
    then done (some (list_views ctx.num_views ctx.views))
    else if leb 64 len
    then done none
    else elim (find_view ctx.num_views ctx.views (take len path)) [
      | none ↦ done none
      | some view ↦ list_objects ctx.num_objects 128 ctx view ctx.index >>= λ es. done (some es)
    ]
