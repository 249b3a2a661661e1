-- ===== src/MetaFs/Resolve.antt =====
-- Objects found by name in kernel/fs/metafs/metafs.c.
use os_ax.Base.{
  ℕ, zero, suc, ◌<◌, ◌^◌, ◌≡◌, ◌≢◌, ◌⊎◌, refl, ap, ◌∙◌, inl, inr, true, Option, none, some, List,
  [], ◌∷◌, arith, ◌==◌, ne→==_false, Bool-cases, take, get_or,
}
use os_ax.Base.Int.{ℤ, pos}
use os_ax.Kstring.{CString, IsCString, contents, strcmp, strlen}
use os_ax.Kstring.Compare.{strcmp-zero}
use os_ax.Kstring.Hex.{id_digits, ksscanf_hex-id_digits_alone, strlen-id_digits}
use os_ax.MetaFs.{ObjectId, object_id_null, IndexEntry, Context, object_id_equal}
use os_ax.MetaFs.Index.Live.{search, Distinct, IsValid, object_id_equal→eq, object_id_equal_refl}
use os_ax.MetaFs.Fields.{
  metafs_object_get_name_simple, text_of, is_named, is_zero, find_named, metafs_resolve_by_name,
}
use os_ax.MetaFs.Objects.{object_at, object_at-search}

contents-IsCString : (field : List ℕ) → IsCString (contents field)
unfolding contents
contents-IsCString [] = tt
contents-IsCString (c ∷ field) = elim (Bool-cases (c == 0)) [
  | inl e ↦ simp e tt
  | inr e ↦ simp e (refl, contents-IsCString field)
]

is_zero_eq : (z : ℤ) → is_zero z ≡ true → z ≡ pos 0
is_zero_eq z h = ground arith

is_named-text_of :
    (e : IndexEntry) (name : CString)
    → IsCString name
    → is_named e name ≡ true
    → text_of e.name ≡ some name
is_named-text_of e name ok h = elim (Bool-cases (get_or e.name 0 0 == 0)) [
  | inl empty ↦ cc (simp empty at h)
  | inr filled ↦
      let equal : strcmp (some (contents e.name)) (some name) ≡ pos 0 =
        is_zero_eq (strcmp (some (contents e.name)) (some name)) (simp filled at h) in
      let same = (strcmp-zero (contents e.name) name (contents-IsCString e.name) ok).0 equal in
      simp filled (ap some same)
]

-- The search comes to an entry with that name, or to none.
find_named-search :
    (n : ℕ) (es : List IndexEntry) (name : CString)
    → Distinct (take n es)
    → let id = find_named n es name in
      (id ≡ object_id_null)
      ⊎ ((e : IndexEntry) × (search (take n es) id ≡ some e) × (is_named e name ≡ true))
unfolding find_named
find_named-search zero es name d = inl refl
find_named-search (suc n) [] name d = inl refl
find_named-search (suc n) (e ∷ es) name (here, rest) = elim (Bool-cases (is_named e name)) [
  | inl named ↦ rw named (inr (e, rw (object_id_equal_refl e.id) refl, named))
  | inr other ↦ rw other (behind (find_named n es name) (find_named-search n es name rest))
]
  where
    behind :
        (id : ObjectId)
        → (id ≡ object_id_null)
          ⊎ ((a : IndexEntry) × (search (take n es) id ≡ some a) × (is_named a name ≡ true))
        → (id ≡ object_id_null)
          ⊎ ((a : IndexEntry) × (search (e ∷ take n es) id ≡ some a) × (is_named a name ≡ true))
    behind id (inl null) = inl null
    behind id (inr (a, at, named)) = elim (Bool-cases (object_id_equal e.id id)) [
      | inl same ↦
          let twice : search (take n es) id ≡ none = rw (← object_id_equal→eq e.id id same) here in
          cc
      | inr ne ↦ inr (a, simp ne at, named)
    ]

-- In a well-formed index, a name that has not the length of an id is resolved to an object that has
-- that name, or to the null id.
pub metafs_resolve_by_name-get_name :
    (ctx : Context) (name : CString)
    → IsValid ctx
    → IsCString name
    → strlen name ≢ 16
    → let id = metafs_resolve_by_name ctx name in
      (id ≡ object_id_null) ⊎ (metafs_object_get_name_simple ctx id ≡ some name)
unfolding metafs_resolve_by_name metafs_object_get_name_simple object_at
metafs_resolve_by_name-get_name ctx name valid ok short =
    rw (ne→==_false (strlen name) 16 short)
      (elim (find_named-search ctx.num_objects ctx.index name valid.distinct) [
        | inl null ↦ inl null
        | inr (e, at, named) ↦
            let id = find_named ctx.num_objects ctx.index name in
            inr (ap name_of (object_at-search ctx id ∙ at) ∙ is_named-text_of e name ok named)
      ])
  where
    name_of : Option IndexEntry → Option CString
    name_of none = none
    name_of (some e) = text_of e.name

-- The digits of an id are resolved to it, whatever the objects are called.
pub metafs_resolve_by_name-id_digits :
    (ctx : Context) (id : ObjectId)
    → id.high < 2 ^ 32
    → id.low < 2 ^ 32
    → metafs_resolve_by_name ctx (id_digits id.high id.low) ≡ id
unfolding metafs_resolve_by_name
metafs_resolve_by_name-id_digits ctx id h l =
    rw (ksscanf_hex-id_digits_alone id.high id.low h l, strlen-id_digits id.high id.low) refl
