-- ===== src/MetaFs.antt =====
-- kernel/fs/metafs/metafs.c and include/fs/metafs.h: the types of the metadata file system, object
-- ids, and what an object's type is told from.
pub mod Checksum
pub mod Infer
pub mod Index
pub mod Fields
pub mod Objects
pub mod Names
pub mod Resolve
pub mod Path
pub mod Store
mod Tests
use os_ax.Base.{
  ℕ, zero, suc, ◌+◌, ◌*◌, ◌/◌, Bool, true, false, ◌&&◌, ◌||◌, List, [], ◌∷◌, ◌++◌, ◌==◌, ltb, leb,
  if◌then◌else◌, min, get_or, length, set,
}
use os_ax.Base.Words.{u8}
use os_ax.Kstring.{CString, strncpy}
use os_ax.Kstring.Hex.{id_digits}

-- `object_id_t`
pub record ObjectId : Type 0 where
  pub high : ℕ
  pub low : ℕ

-- `OBJECT_ID_NULL`
abbrev pub object_id_null : ObjectId
object_id_null = record { high = 0; low = 0 }

-- `object_type_t`
pub data ObjectType : Type 0 where
  unknown executable document image video audio archive raw_data : ObjectType

-- The number of an enumerator.
abbrev pub type_code : ObjectType → ℕ
type_code unknown = 0
type_code executable = 1
type_code document = 2
type_code image = 3
type_code video = 4
type_code audio = 5
type_code archive = 6
type_code raw_data = 7

-- `core_metadata_t`
pub record CoreMetadata : Type 0 where
  pub magic : ℕ
  pub version : ℕ
  pub id : ObjectId
  pub type : ObjectType
  pub size : ℕ
  pub created : ℕ
  pub modified : ℕ
  pub flags : ℕ
  pub checksum : ℕ

-- `metafs_ext_meta_t`; the arrays of 64, 64 and 256 characters.
pub record ExtMetadata : Type 0 where
  pub name : List ℕ
  pub view : List ℕ
  pub tags : List ℕ

-- `object_index_entry_t`; the arrays of 64, 64 and 16 characters.
pub record IndexEntry : Type 0 where
  pub id : ObjectId
  pub type : ObjectType
  pub data_offset : ℕ
  pub meta_offset : ℕ
  pub checksum : ℕ
  pub name : List ℕ
  pub view : List ℕ
  pub extension : List ℕ

-- `view_type_t`
pub data ViewType : Type 0 where
  static_apps static_documents static_media dynamic : ViewType

-- `view_definition_t`; the name is what stands in front of the NUL in its array.
pub record ViewDefinition : Type 0 where
  pub name : CString
  pub type : ViewType
  pub filter_type : ObjectType

-- `object_handle_t`, as far as it is set.
pub record ObjectHandle : Type 0 where
  pub id : ObjectId
  pub is_open : ℕ
  pub core_id : ObjectId
  pub has_extended : ℕ

-- `metafs_context_t`: the index of `max_objects` entries, of which the first `num_objects` are in
-- use, and the array of 64 views, of which `num_views` are. The volume is kept apart.
pub record Context : Type 0 where
  pub index : List IndexEntry
  pub num_objects : ℕ
  pub max_objects : ℕ
  pub views : List ViewDefinition
  pub num_views : ℕ
  pub last_object_id : ℕ

abbrev pub meta_magic : ℕ
meta_magic = 0x4D455441

abbrev pub meta_flag_executable : ℕ
meta_flag_executable = 0x0001

abbrev pub metadata_db_magic : ℕ
metadata_db_magic = 0x4D444220

unfoldable pub object_id_equal : ObjectId → ObjectId → Bool
object_id_equal a b = (a.high == b.high) && (a.low == b.low)

abbrev pub is_executable : ObjectType → Bool
is_executable executable = true
is_executable _ = false

-- `strncpy(field, s, n); field[n] = '\0';`
unfoldable pub set_text : ℕ → List ℕ → CString → List ℕ
unfolding strncpy
set_text n field s = set (strncpy field s n) n 0

-- The prefix, then the sixteen digits of the id, cut to 32 bits each.
unfoldable pub object_id_to_filename : ObjectId → CString → CString
object_id_to_filename id prefix = prefix ++ id_digits id.high id.low

-- A byte that is printable ASCII, a line feed, a carriage return or a tab.
abbrev pub is_printable : ℕ → Bool
is_printable b = (leb 32 b && leb b 126) || (b == 10) || (b == 13) || (b == 9)

-- The counting loop; the counter is a byte and wraps.
unfoldable pub count_printable : ℕ → List ℕ → ℕ → ℕ
count_printable zero bytes count = count
count_printable (suc rounds) [] count = count
count_printable (suc rounds) (b ∷ bytes) count =
    count_printable rounds bytes (if is_printable b then u8 (count + 1) else count)

-- The bytes are those behind `data`, `size` of them.
unfoldable pub infer_type : List ℕ → ObjectType
infer_type bytes =
    let size = length bytes in
    let first = get_or bytes 0 0 in
    let second = get_or bytes 1 0 in
    let third = get_or bytes 2 0 in
    let fourth = get_or bytes 3 0 in
    let seen = min size 256 in
    if ltb size 4
    then unknown
    else if (first == 0x7F) && (second == 69) && (third == 76) && (fourth == 70)
    then executable
    else if leb 8 size && (first == 0x89) && (second == 80) && (third == 78) && (fourth == 71)
    then image
    else if (first == 0xFF) && (second == 0xD8)
    then image
    else if ltb (seen * 9 / 10) (count_printable seen bytes 0)
    then document
    else raw_data

-- The names are "executable", "document", "image", "video", "audio", "archive", "data" and "unknown".
unfoldable pub type_to_string : ObjectType → CString
type_to_string executable = 101 ∷ 120 ∷ 101 ∷ 99 ∷ 117 ∷ 116 ∷ 97 ∷ 98 ∷ 108 ∷ 101 ∷ []
type_to_string document = 100 ∷ 111 ∷ 99 ∷ 117 ∷ 109 ∷ 101 ∷ 110 ∷ 116 ∷ []
type_to_string image = 105 ∷ 109 ∷ 97 ∷ 103 ∷ 101 ∷ []
type_to_string video = 118 ∷ 105 ∷ 100 ∷ 101 ∷ 111 ∷ []
type_to_string audio = 97 ∷ 117 ∷ 100 ∷ 105 ∷ 111 ∷ []
type_to_string archive = 97 ∷ 114 ∷ 99 ∷ 104 ∷ 105 ∷ 118 ∷ 101 ∷ []
type_to_string raw_data = 100 ∷ 97 ∷ 116 ∷ 97 ∷ []
type_to_string unknown = 117 ∷ 110 ∷ 107 ∷ 110 ∷ 111 ∷ 119 ∷ 110 ∷ []
