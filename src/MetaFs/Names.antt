-- ===== src/MetaFs/Names.antt =====
-- The fields of an object in kernel/fs/metafs/metafs.c: what is set is what is read, cut to the
-- field, and objects are found by their names.
use os_ax.Base.{
  ℕ, zero, suc, ◌<◌, ◌≡◌, refl, sym, ap, ◌∙◌, inl, inr, false, Option, none, some, List, [], ◌∷◌,
  arith, ◌==◌, Bool-cases, length, take,
}
use os_ax.Base.Int.{ℤ, success}
use os_ax.Kstring.{CString, IsCString, contents, strncpy}
use os_ax.MetaFs.{ObjectId, IndexEntry, Context, object_id_equal, set_text}
use os_ax.MetaFs.Index.Live.{live, search, Bounded, Distinct, IsValid}
use os_ax.MetaFs.Index.Change.{modify, update_entry-some, search-modify, search-modify_ne}
use os_ax.MetaFs.Fields.{
  set_in_entry, metafs_object_set_name, metafs_object_get_name_simple, text_of,
}
use os_ax.MetaFs.Objects.{object_at, object_at-search}

-- What stands in a field after a string was copied into it.
pub contents-set_text :
    (n : ℕ) (field : List ℕ) (s : CString)
    → n < length field
    → IsCString s
    → contents (set_text n field s) ≡ take n s
unfolding set_text contents strncpy
contents-set_text n [] s h ok = absurd (omega arith)
contents-set_text zero (d ∷ field) s h ok = refl
contents-set_text (suc n) (d ∷ field) [] h ok = refl
contents-set_text (suc n) (d ∷ field) (c ∷ s) h ok =
    rw (ok.0) (ap (λ t. c ∷ t) (contents-set_text n field s (omega arith) ok.1))

-- NULL for the empty string.
abbrev pub nonempty : CString → Option CString
nonempty [] = none
nonempty (c ∷ s) = some (c ∷ s)

pub text_of-contents : (field : List ℕ) → text_of field ≡ nonempty (contents field)
unfolding contents
text_of-contents [] = refl
text_of-contents (c ∷ field) = elim (Bool-cases (c == 0)) [
  | inl e ↦ simp e refl
  | inr e ↦ simp e refl
]

module _ (id : ObjectId) (f : IndexEntry → IndexEntry)
    (keeps : (e : IndexEntry) → (f e).id ≡ e.id) where
  Bounded-modify :
      (last : ℕ) (es : List IndexEntry) → Bounded last es → Bounded last (modify es id f)
  Bounded-modify last [] b = tt
  Bounded-modify last (e ∷ es) (here, rest) = elim (Bool-cases (object_id_equal e.id id)) [
    | inl same ↦ simp same (rw (keeps e) here, rest)
    | inr other ↦ simp other (here, Bounded-modify last es rest)
  ]

  search-modify-none :
      (es : List IndexEntry) (j : ObjectId) → search es j ≡ none → search (modify es id f) j ≡ none
  search-modify-none [] j h = refl
  search-modify-none (e ∷ es) j h = elim (Bool-cases (object_id_equal e.id j)) [
    | inl same ↦ cc (simp same at h)
    | inr other ↦
        let other' : object_id_equal (f e).id j ≡ false = rw (keeps e) other in
        elim (Bool-cases (object_id_equal e.id id)) [
          | inl same ↦ simp (same, other') (simp other at h)
          | inr ne ↦ simp (ne, other) (search-modify-none es j (simp other at h))
        ]
  ]

  Distinct-modify : (es : List IndexEntry) → Distinct es → Distinct (modify es id f)
  Distinct-modify [] d = tt
  Distinct-modify (e ∷ es) (here, rest) = elim (Bool-cases (object_id_equal e.id id)) [
    | inl same ↦ simp same (rw (keeps e) here, rest)
    | inr other ↦ simp other (search-modify-none es e.id here, Distinct-modify es rest)
  ]

-- What a setter does to the object with an id.
pub record Changed (ctx : Context) (id : ObjectId) (e : IndexEntry) (r : ℤ × Context) : Type 0 where
  pub succeeds : r.0 ≡ success
  pub stands : object_at r.1 id ≡ some e
  pub others : (j : ObjectId) → object_id_equal id j ≡ false → object_at r.1 j ≡ object_at ctx j
  pub valid : IsValid ctx → IsValid r.1

pub set_in_entry_lem :
    (ctx : Context) (id : ObjectId) (f : IndexEntry → IndexEntry) (e : IndexEntry)
    → ((a : IndexEntry) → (f a).id ≡ a.id)
    → object_at ctx id ≡ some e
    → Changed ctx id (f e) (set_in_entry ctx id f)
unfolding set_in_entry
set_in_entry_lem ctx id f e keeps there =
    let at = sym (object_at-search ctx id) ∙ there in
    let (es, found, taken, long) = update_entry-some id f ctx.num_objects ctx.index e at in
    let ctx' = record ctx { index = es } in
    let now : live ctx' ≡ modify (live ctx) id f = taken in
    rw (set_in_entry, found)
      (record {
        succeeds = refl;
        stands =
            object_at-search ctx' id
            ∙ ap (λ t. search t id) now
            ∙ search-modify id f (live ctx) e keeps at;
        others = λ j ne.
            object_at-search ctx' j
            ∙ ap (λ t. search t j) now
            ∙ search-modify_ne id f (live ctx) j keeps ne
            ∙ sym (object_at-search ctx j);
        valid = λ v. record {
          size = long ∙ v.size;
          used = v.used;
          bounded = rw now (Bounded-modify id f keeps ctx.last_object_id (live ctx) v.bounded);
          distinct = rw now (Distinct-modify id f keeps (live ctx) v.distinct);
        };
      })

-- A name that is set on an object is read back, cut to 63 characters and as NULL if it is empty; the
-- other objects keep theirs, and the index stays well formed.
pub metafs_object_set_name_lem :
    (ctx : Context) (id : ObjectId) (e : IndexEntry) (name : CString)
    → object_at ctx id ≡ some e
    → length e.name ≡ 64
    → IsCString name
    → let r = metafs_object_set_name ctx id (some name) in
      (r.0 ≡ success)
      × (metafs_object_get_name_simple r.1 id ≡ nonempty (take 63 name))
      × ((j : ObjectId)
          → object_id_equal id j ≡ false
          → metafs_object_get_name_simple r.1 j ≡ metafs_object_get_name_simple ctx j)
      × (IsValid ctx → IsValid r.1)
unfolding metafs_object_set_name metafs_object_get_name_simple object_at
metafs_object_set_name_lem ctx id e name there wide ok =
    let f : IndexEntry → IndexEntry = λ a. record a { name = set_text 63 a.name name } in
    let c = set_in_entry_lem ctx id f e (λ a. refl) there in
    let text =
      text_of-contents (set_text 63 e.name name)
      ∙ ap nonempty (contents-set_text 63 e.name name (omega arith) ok) in
    (c.succeeds, ap name_of c.stands ∙ text, λ j ne. ap name_of (c.others j ne), c.valid)
  where
    name_of : Option IndexEntry → Option CString
    name_of none = none
    name_of (some e) = text_of e.name
