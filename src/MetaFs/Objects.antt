-- ===== src/MetaFs/Objects.antt =====
-- The life of an object in the index of kernel/fs/metafs/metafs.c: created, looked up, named and
-- deleted.
use os_ax.Base.{
  ℕ, suc, ◌+◌, ◌-◌, ◌^◌, ◌≤◌, ◌<◌, ◌≡◌, refl, sym, ap, ◌∙◌, true, false, Option, none, some, List,
  [], ◌∷◌, ◌++◌, arith, length, take, set, length-set, length-replicate, le→leb, leb-false,
}
use os_ax.Base.Int.{ℤ, success, failure}
use os_ax.Base.Words.{u64}
use os_ax.MetaFs.{
  ObjectId, object_id_null, ObjectType, IndexEntry, ViewDefinition, Context, object_id_equal,
}
use os_ax.MetaFs.Index.{
  metafs_init, metafs_generate_object_id, metafs_object_create, metafs_object_delete, lookup_entry,
  null_entry, new_entry, push_entry,
}
use os_ax.MetaFs.Index.Live.{
  live, search, remove, IsValid, lookup_entry-search, take-set, Bounded-le, Bounded-append,
  search-Bounded, search-append, search-append_ne, Distinct-append, object_id_equal_refl,
}
use os_ax.MetaFs.Index.Change.{
  delete_entry-none, delete_entry-some, search-remove, search-remove_ne, Bounded-remove,
  Distinct-remove,
}

-- The entry that the loops of the index come to for an id.
unfoldable pub object_at : Context → ObjectId → Option IndexEntry
object_at ctx id = lookup_entry ctx.num_objects ctx.index id

pub object_at-search : (ctx : Context) (id : ObjectId) → object_at ctx id ≡ search (live ctx) id
unfolding object_at
object_at-search ctx id = lookup_entry-search ctx.num_objects ctx.index id

-- A new file system has no objects and its index is well formed.
pub metafs_init-IsValid :
    (views : List ViewDefinition)
    → (ctx : Context) × (metafs_init true views ≡ some ctx) × IsValid ctx × (live ctx ≡ [])
unfolding metafs_init
metafs_init-IsValid views = (
  _,
  refl,
  record {
    size = length-replicate 1024 null_entry;
    used = omega arith;
    bounded = tt;
    distinct = tt;
  },
  refl,
)

-- What creating an object of a type has done.
pub record Created (ctx : Context) (type : ObjectType) (r : ObjectId × Context) : Type 0 where
  pub valid : IsValid r.1
  pub fresh : object_at ctx r.0 ≡ none
  pub entry : IndexEntry
  pub stands : object_at r.1 r.0 ≡ some entry
  pub typed : entry.type ≡ type
  pub others :
      (id : ObjectId) → object_id_equal r.0 id ≡ false → object_at r.1 id ≡ object_at ctx id

live-push_entry :
    (ctx : Context) (v : IndexEntry)
    → ctx.num_objects < length ctx.index
    → live (push_entry ctx v) ≡ live ctx ++ v ∷ []
unfolding push_entry
live-push_entry ctx v h =
    let next : ctx.num_objects + 1 ≡ suc ctx.num_objects = omega arith in
    ap (λ k. take k (set ctx.index ctx.num_objects v)) next ∙ take-set ctx.num_objects ctx.index v h

-- An entry with a higher id than any before.
push_entry-Created :
    (ctx : Context) (last : ℕ) (v : IndexEntry)
    → IsValid ctx
    → ctx.num_objects < ctx.max_objects
    → ctx.last_object_id < v.id.low
    → v.id.low ≤ last
    → Created ctx v.type (v.id, push_entry (record ctx { last_object_id = last }) v)
unfolding push_entry
push_entry-Created ctx last v valid room above below =
    let ctx' = record ctx { last_object_id = last } in
    let grown = live-push_entry ctx' v (omega (arith, valid.size)) in
    let absent = search-Bounded ctx.last_object_id (live ctx) v.id valid.bounded above in
    let bound = Bounded-le ctx.last_object_id last (live ctx) (omega arith) valid.bounded in
    let here : search (live ctx ++ v ∷ []) v.id ≡ some v =
      search-append (live ctx) v v.id absent ∙ rw (object_id_equal_refl v.id) refl in
    record {
      valid = record {
        size = length-set ctx.index ctx.num_objects v ∙ valid.size;
        used = omega arith;
        bounded = rw grown (Bounded-append last (live ctx) v bound below);
        distinct = rw grown (Distinct-append (live ctx) v valid.distinct absent);
      };
      fresh = object_at-search ctx v.id ∙ absent;
      entry = v;
      stands = object_at-search (push_entry ctx' v) v.id ∙ ap (λ es. search es v.id) grown ∙ here;
      typed = refl;
      others = λ id ne.
          object_at-search (push_entry ctx' v) id
          ∙ ap (λ es. search es id) grown
          ∙ search-append_ne (live ctx) v id ne
          ∙ sym (object_at-search ctx id);
    }

-- With room in the index and numbers left, an object is created under an id that no object has; it
-- is found under it with its type, what is found under other ids is as before, and the index stays
-- well formed.
pub metafs_object_create_lem :
    (ctx : Context) (type : ObjectType)
    → IsValid ctx
    → ctx.num_objects < ctx.max_objects
    → ctx.last_object_id + 1 < 2 ^ 64
    → Created ctx type (metafs_object_create ctx type)
unfolding metafs_object_create metafs_generate_object_id new_entry
metafs_object_create_lem ctx type valid room numbers =
    let last = u64 (ctx.last_object_id + 1) in
    let id : ObjectId = record { high = 0; low = last } in
    rw (leb-false ctx.max_objects ctx.num_objects room) (
      push_entry-Created ctx last (new_entry (record ctx { last_object_id = last }) id type) valid
        room (omega arith) (omega arith))

-- When the index is full nothing is created: the null id is returned, and only the count of ids
-- goes on.
pub metafs_object_create_full :
    (ctx : Context) (type : ObjectType)
    → ctx.max_objects ≤ ctx.num_objects
    → (metafs_object_create ctx type).0 ≡ object_id_null
      × (live (metafs_object_create ctx type).1 ≡ live ctx)
unfolding metafs_object_create metafs_generate_object_id
metafs_object_create_full ctx type full =
    rw (le→leb ctx.max_objects ctx.num_objects full) (refl, refl)

-- What deleting an object has done.
pub record Deleted (ctx : Context) (id : ObjectId) (r : ℤ × Context) : Type 0 where
  pub succeeds : r.0 ≡ success
  pub valid : IsValid r.1
  pub gone : object_at r.1 id ≡ none
  pub fewer : live r.1 ≡ remove (live ctx) id
  pub others : (j : ObjectId) → object_id_equal id j ≡ false → object_at r.1 j ≡ object_at ctx j

-- Deleting an object that there is takes it out of the index, and only it; the others keep their
-- order, and the index stays well formed.
pub metafs_object_delete_lem :
    (ctx : Context) (id : ObjectId) (e : IndexEntry)
    → IsValid ctx
    → object_at ctx id ≡ some e
    → Deleted ctx id (metafs_object_delete ctx id)
unfolding metafs_object_delete
metafs_object_delete_lem ctx id e valid there =
    let at = sym (object_at-search ctx id) ∙ there in
    let (es, found, taken, long, positive) =
      delete_entry-some id ctx.num_objects ctx.index e (omega (arith, valid.size, valid.used)) at in
    let ctx' = record ctx { index = es; num_objects = ctx.num_objects - 1 } in
    let less : live ctx' ≡ remove (live ctx) id = taken in
    rw (metafs_object_delete, found)
      (record {
        succeeds = refl;
        valid = record {
          size = long ∙ valid.size;
          used = omega (arith, valid.used);
          bounded = rw less (Bounded-remove id ctx.last_object_id (live ctx) valid.bounded);
          distinct = rw less (Distinct-remove id (live ctx) valid.distinct);
        };
        gone =
            object_at-search ctx' id
            ∙ ap (λ t. search t id) less
            ∙ search-remove id (live ctx) valid.distinct;
        fewer = less;
        others = λ j ne.
            object_at-search ctx' j
            ∙ ap (λ t. search t j) less
            ∙ search-remove_ne id (live ctx) j ne
            ∙ sym (object_at-search ctx j);
      })

-- Deleting an object that there is not fails and changes nothing.
pub metafs_object_delete_missing :
    (ctx : Context) (id : ObjectId)
    → object_at ctx id ≡ none
    → metafs_object_delete ctx id ≡ (failure, ctx)
unfolding metafs_object_delete
metafs_object_delete_missing ctx id missing =
    rw
      (
        metafs_object_delete,
        delete_entry-none id ctx.num_objects ctx.index (sym (object_at-search ctx id) ∙ missing),
      )
      refl
