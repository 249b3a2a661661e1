-- ===== src/MetaFs/Tests.antt =====
-- kernel/fs/metafs at a small index and a volume kept in memory.
use os_ax.Base.{
  ℕ, zero, suc, ◌≤◌, ◌≡◌, ◌≢◌, ◌⊎◌, refl, false, Option, none, some, List, [], ◌∷◌, arith, take,
  drop, replicate, if◌then◌else◌, ltb,
}
use os_ax.Base.Int.{pos, success}
use os_ax.Base.Outcome.{done, out_of_fuel}
use os_ax.Kstring.{CString, IsCString, strcmp}
use os_ax.MetaFs.{
  ObjectId, object_id_null, ObjectType, document, raw_data, IndexEntry, Context, object_id_equal,
  infer_type,
}
use os_ax.MetaFs.Infer.{ArePrintable, infer_type-printable}
use os_ax.MetaFs.Index.{null_entry, metafs_object_create, metafs_object_delete}
use os_ax.MetaFs.Index.Live.{IsValid}
use os_ax.MetaFs.Fields.{
  metafs_object_set_name, metafs_object_get_name_simple, metafs_resolve_by_name,
}
use os_ax.MetaFs.Objects.{
  object_at, Created, Deleted, metafs_object_create_lem, metafs_object_delete_lem,
}
use os_ax.MetaFs.Names.{nonempty, metafs_object_set_name_lem}
use os_ax.MetaFs.Resolve.{metafs_resolve_by_name-get_name, metafs_resolve_by_name-id_digits}
use os_ax.Kstring.Hex.{id_digits}
use os_ax.MetaFs.Path.{slash, same_text}
use os_ax.MetaFs.Path.Normal.{metafs_normalize_path, build}
use os_ax.MetaFs.Path.ObjectName.{metafs_object_get_name-ksscanf_hex}
use os_ax.MetaFs.Path.{metafs_object_get_name}
use os_ax.Kstring.Hex.{ksscanf_hex}
use os_ax.MetaFs.Path.Shape.{
  ArePlain, metafs_normalize_path-returns, metafs_normalize_path-ArePlain,
}

abbrev first_id : ObjectId
first_id = record { high = 0; low = 1 }

abbrev first_entry : IndexEntry
first_entry = record {
  id = first_id;
  type = document;
  data_offset = 0;
  meta_offset = 0;
  checksum = 0;
  name = replicate 64 0;
  view = replicate 64 0;
  extension = replicate 16 0;
}

-- Room for two objects, of which one is there.
abbrev small : Context
small = record {
  index = first_entry ∷ null_entry ∷ [];
  num_objects = 1;
  max_objects = 2;
  views = [];
  num_views = 0;
  last_object_id = 1;
}

small-IsValid : IsValid small
small-IsValid = record {
  size = refl;
  used = omega arith;
  bounded = (omega arith, tt);
  distinct = (refl, tt);
}

small_first : object_at small first_id ≡ some first_entry
unfolding object_at os_ax.MetaFs.Index.lookup_entry object_id_equal
small_first = refl

metafs_object_create_lem_example : Created small raw_data (metafs_object_create small raw_data)
metafs_object_create_lem_example =
    metafs_object_create_lem small raw_data small-IsValid (omega arith) (omega arith)

metafs_object_delete_lem_example : Deleted small first_id (metafs_object_delete small first_id)
metafs_object_delete_lem_example =
    metafs_object_delete_lem small first_id first_entry small-IsValid small_first

-- "ab"
abbrev ab : CString
ab = 97 ∷ 98 ∷ []

ab-IsCString : IsCString ab
ab-IsCString = (refl, (refl, tt))

metafs_object_set_name_lem_example :
    let r = metafs_object_set_name small first_id (some ab) in
    (r.0 ≡ success)
    × (metafs_object_get_name_simple r.1 first_id ≡ nonempty (take 63 ab))
    × ((j : ObjectId)
        → object_id_equal first_id j ≡ false
        → metafs_object_get_name_simple r.1 j ≡ metafs_object_get_name_simple small j)
    × (IsValid small → IsValid r.1)
metafs_object_set_name_lem_example =
    metafs_object_set_name_lem small first_id first_entry ab small_first refl ab-IsCString

metafs_resolve_by_name-get_name_example :
    let id = metafs_resolve_by_name small ab in
    (id ≡ object_id_null) ⊎ (metafs_object_get_name_simple small id ≡ some ab)
unfolding os_ax.Kstring.strlen
metafs_resolve_by_name-get_name_example =
    metafs_resolve_by_name-get_name small ab small-IsValid ab-IsCString (omega arith)

metafs_resolve_by_name-id_digits_example :
    metafs_resolve_by_name small (id_digits 0 0xAB) ≡ record { high = 0; low = 0xAB }
metafs_resolve_by_name-id_digits_example =
    metafs_resolve_by_name-id_digits small (record { high = 0; low = 0xAB }) (omega arith)
      (omega arith)

printable : (n m : ℕ) → n ≤ m → ArePrintable n (replicate m 97)
unfolding ArePrintable
printable zero m h = tt
printable (suc n) zero h = absurd (omega arith)
printable (suc n) (suc m) h = (refl, printable n m (omega arith))

infer_type-printable_example :
    infer_type (replicate 300 97) ≡ (if ltb 300 256 then document else raw_data)
infer_type-printable_example =
    infer_type-printable (replicate 300 97) (omega arith) (printable 256 300 (omega arith))

-- "./ab/../ab"
abbrev dotted : CString
dotted = 46 ∷ 47 ∷ 97 ∷ 98 ∷ 47 ∷ 46 ∷ 46 ∷ 47 ∷ 97 ∷ 98 ∷ []

normalize-dotted : metafs_normalize_path (47 ∷ []) dotted 256 ≡ done (some (47 ∷ 97 ∷ 98 ∷ []))
unfolding metafs_normalize_path os_ax.MetaFs.Path.Normal.behind_current strcmp
    os_ax.Kstring.strcmp_from os_ax.Kstring.Format.format_from os_ax.Kstring.Format.take_directive
    os_ax.Kstring.Format.parse_width os_ax.Kstring.Format.convert os_ax.Kstring.Format.next_arg
    os_ax.Kstring.Format.convert_arg os_ax.MetaFs.Path.Normal.walk
    os_ax.MetaFs.Path.Normal.skip_slashes os_ax.MetaFs.Path.Normal.component build
normalize-dotted = refl

metafs_normalize_path-returns_example : metafs_normalize_path (47 ∷ []) dotted 256 ≢ out_of_fuel
metafs_normalize_path-returns_example = metafs_normalize_path-returns (47 ∷ []) dotted 256

metafs_normalize_path-ArePlain_example :
    (comps : List CString) × ArePlain comps × (build comps 256 ≡ some (47 ∷ 97 ∷ 98 ∷ []))
metafs_normalize_path-ArePlain_example =
    metafs_normalize_path-ArePlain (47 ∷ []) dotted (47 ∷ 97 ∷ 98 ∷ []) 256 normalize-dotted

abbrev read_bytes : Option (List ℕ) → ℕ → ℕ → List ℕ
read_bytes none position n = []
read_bytes (some bytes) position n = take n (drop position bytes)

metafs_object_get_name-ksscanf_hex_example :
    (digits : CString) × (metafs_object_get_name (record { high = 7; low = 0x1000 })
      ≡ done (b'o' ∷ b'b' ∷ b'j' ∷ b'_' ∷ digits))
    × (ksscanf_hex digits ≡ (pos 0, 7, 0x1000))
metafs_object_get_name-ksscanf_hex_example =
    metafs_object_get_name-ksscanf_hex (record { high = 7; low = 0x1000 }) (omega arith)
      (omega arith)
