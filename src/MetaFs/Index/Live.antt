-- ===== src/MetaFs/Index/Live.antt =====
-- The entries in use of the index of kernel/fs/metafs/metafs.c, which its loops go over: when an
-- index is well formed, and what the loops find and write.
use os_ax.Base.{
  ℕ, zero, suc, ◌≤◌, ◌<◌, ◌≡◌, refl, ap, ◌∙◌, inl, inr, true, false, Option, none, some, List, [],
  ◌∷◌, ◌++◌, arith, if◌then◌else◌, Bool-cases, length, take, set,
}
use os_ax.MetaFs.{ObjectId, IndexEntry, Context, object_id_equal}
use os_ax.MetaFs.Index.{lookup_entry}

pub object_id_equal_refl : (a : ObjectId) → object_id_equal a a ≡ true
unfolding object_id_equal
object_id_equal_refl a = ground arith

pub object_id_equal→eq : (a b : ObjectId) → object_id_equal a b ≡ true → a ≡ b
unfolding object_id_equal
object_id_equal→eq a b e = ground arith

pub object_id_equal_sym : (a b : ObjectId) → object_id_equal b a ≡ object_id_equal a b
unfolding object_id_equal
object_id_equal_sym a b = ground arith

-- The first entry with an id.
abbrev pub search : List IndexEntry → ObjectId → Option IndexEntry
search [] id = none
search (e ∷ es) id = let rest = search es id in if object_id_equal e.id id then some e else rest

-- The entries without the first one with an id.
abbrev pub remove : List IndexEntry → ObjectId → List IndexEntry
remove [] id = []
remove (e ∷ es) id = let rest = e ∷ remove es id in if object_id_equal e.id id then es else rest

abbrev pub live : Context → List IndexEntry
live ctx = take ctx.num_objects ctx.index

-- Every id is at most the last one given out, and no two entries have the same.
abbrev pub Bounded : ℕ → List IndexEntry → Type 0
Bounded last [] = Unit
Bounded last (e ∷ es) = (e.id.low ≤ last) × Bounded last es

abbrev pub Distinct : List IndexEntry → Type 0
Distinct [] = Unit
Distinct (e ∷ es) = (search es e.id ≡ none) × Distinct es

pub record IsValid (ctx : Context) : Type 0 where
  pub size : length ctx.index ≡ ctx.max_objects
  pub used : ctx.num_objects ≤ ctx.max_objects
  pub bounded : Bounded ctx.last_object_id (live ctx)
  pub distinct : Distinct (live ctx)

pub lookup_entry-search :
    (n : ℕ) (es : List IndexEntry) (id : ObjectId) → lookup_entry n es id ≡ search (take n es) id
unfolding lookup_entry
lookup_entry-search zero es id = refl
lookup_entry-search (suc n) [] id = refl
lookup_entry-search (suc n) (e ∷ es) id = rw (lookup_entry-search n es id) refl

-- Writing behind the entries in use.
pub take-set :
    (n : ℕ) (es : List IndexEntry) (v : IndexEntry)
    → n < length es
    → take (suc n) (set es n v) ≡ take n es ++ v ∷ []
take-set n [] v h = absurd (omega arith)
take-set zero (e ∷ es) v h = refl
take-set (suc n) (e ∷ es) v h = ap (λ t. e ∷ t) (take-set n es v (omega arith))

pub Bounded-le : (m n : ℕ) (es : List IndexEntry) → m ≤ n → Bounded m es → Bounded n es
Bounded-le m n [] le b = tt
Bounded-le m n (e ∷ es) le (here, rest) = (omega arith, Bounded-le m n es le rest)

pub Bounded-append :
    (last : ℕ) (es : List IndexEntry) (v : IndexEntry)
    → Bounded last es
    → v.id.low ≤ last
    → Bounded last (es ++ v ∷ [])
Bounded-append last [] v b h = (h, tt)
Bounded-append last (e ∷ es) v (here, rest) h = (here, Bounded-append last es v rest h)

-- An id above the bound is not there.
pub search-Bounded :
    (last : ℕ) (es : List IndexEntry) (id : ObjectId)
    → Bounded last es
    → last < id.low
    → search es id ≡ none
search-Bounded last [] id b h = refl
search-Bounded last (e ∷ es) id (here, rest) h = elim (Bool-cases (object_id_equal e.id id)) [
  | inl same ↦ absurd (omega (arith, ap (λ i. i.low) (object_id_equal→eq e.id id same)))
  | inr other ↦ rw other (search-Bounded last es id rest h)
]

-- Behind entries that have other ids.
pub search-append :
    (es : List IndexEntry) (v : IndexEntry) (id : ObjectId)
    → search es id ≡ none
    → search (es ++ v ∷ []) id ≡ (if object_id_equal v.id id then some v else none)
search-append [] v id h = refl
search-append (e ∷ es) v id h = elim (Bool-cases (object_id_equal e.id id)) [
  | inl same ↦ cc (simp same at h)
  | inr other ↦ simp other (search-append es v id (simp other at h))
]

-- An entry behind with another id does not matter.
pub search-append_ne :
    (es : List IndexEntry) (v : IndexEntry) (id : ObjectId)
    → object_id_equal v.id id ≡ false
    → search (es ++ v ∷ []) id ≡ search es id
search-append_ne [] v id h = rw h refl
search-append_ne (e ∷ es) v id h = rw (search-append_ne es v id h) refl

pub Distinct-append :
    (es : List IndexEntry) (v : IndexEntry)
    → Distinct es
    → search es v.id ≡ none
    → Distinct (es ++ v ∷ [])
Distinct-append [] v d h = (refl, tt)
Distinct-append (e ∷ es) v (here, rest) h = elim (Bool-cases (object_id_equal e.id v.id)) [
  | inl same ↦ cc (simp same at h)
  | inr other ↦ (
    search-append_ne es v e.id (object_id_equal_sym e.id v.id ∙ other) ∙ here,
    Distinct-append es v rest (simp other at h),
  )
]
