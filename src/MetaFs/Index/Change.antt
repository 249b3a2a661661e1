-- ===== src/MetaFs/Index/Change.antt =====
-- What the loops of kernel/fs/metafs/metafs.c that write an entry or delete it do to the entries in
-- use.
use mathlib.Core.Option
use os_ax.Base.{
  ℕ, zero, suc, ◌-◌, ◌≤◌, ◌<◌, ◌≡◌, refl, ap, ◌∙◌, inl, inr, true, false, none, some, List, [], ◌∷◌,
  arith, if◌then◌else◌, Bool-cases, length, take,
}
use os_ax.MetaFs.{ObjectId, IndexEntry, object_id_equal}
use os_ax.MetaFs.Index.{update_entry, delete_entry, shift}
use os_ax.MetaFs.Index.Live.{
  search, remove, Bounded, Distinct, object_id_equal→eq, object_id_equal_sym,
}

-- The first entry with an id changed.
abbrev pub modify : List IndexEntry → ObjectId → (IndexEntry → IndexEntry) → List IndexEntry
modify [] id f = []
modify (e ∷ es) id f =
    let rest = e ∷ modify es id f in if object_id_equal e.id id then f e ∷ es else rest

module _ (id : ObjectId) (f : IndexEntry → IndexEntry) where
  pub update_entry-none :
      (n : ℕ) (es : List IndexEntry) → search (take n es) id ≡ none → update_entry n es id f ≡ none
  unfolding update_entry
  update_entry-none zero es h = refl
  update_entry-none (suc n) [] h = refl
  update_entry-none (suc n) (e ∷ es) h = elim (Bool-cases (object_id_equal e.id id)) [
    | inl same ↦ cc (simp same at h)
    | inr other ↦
        simp other (ap (Option.map (λ t. e ∷ t)) (update_entry-none n es (simp other at h)))
  ]

  pub update_entry-some :
      (n : ℕ) (es : List IndexEntry) (a : IndexEntry)
      → search (take n es) id ≡ some a
      → (es' : List IndexEntry) × (update_entry n es id f ≡ some es')
        × (take n es' ≡ modify (take n es) id f)
        × (length es' ≡ length es)
  unfolding update_entry
  update_entry-some zero es a h = cc
  update_entry-some (suc n) [] a h = cc
  update_entry-some (suc n) (e ∷ es) a h = elim (Bool-cases (object_id_equal e.id id)) [
    | inl same ↦ (f e ∷ es, simp same refl, simp same refl, refl)
    | inr other ↦
        let (t, found, taken, long) = update_entry-some n es a (simp other at h) in
        (
          e ∷ t,
          simp other (ap (Option.map (λ t. e ∷ t)) found),
          simp other (ap (λ t. e ∷ t) taken),
          ap suc long,
        )
  ]

  pub search-modify :
      (es : List IndexEntry) (a : IndexEntry)
      → ((e : IndexEntry) → (f e).id ≡ e.id)
      → search es id ≡ some a
      → search (modify es id f) id ≡ some (f a)
  search-modify [] a keeps h = cc
  search-modify (e ∷ es) a keeps h = elim (Bool-cases (object_id_equal e.id id)) [
    | inl same ↦
        let here : object_id_equal (f e).id id ≡ true = rw (keeps e) same in
        let is : e ≡ a = cc (simp same at h) in simp (same, here) (ap (λ t. some (f t)) is)
    | inr other ↦ simp other (search-modify es a keeps (simp other at h))
  ]

  pub search-modify_ne :
      (es : List IndexEntry) (j : ObjectId)
      → ((e : IndexEntry) → (f e).id ≡ e.id)
      → object_id_equal id j ≡ false
      → search (modify es id f) j ≡ search es j
  search-modify_ne [] j keeps ne = refl
  search-modify_ne (e ∷ es) j keeps ne = elim (Bool-cases (object_id_equal e.id id)) [
    | inl same ↦
        let not_j : object_id_equal e.id j ≡ false = rw (object_id_equal→eq e.id id same) ne in
        let not_j' : object_id_equal (f e).id j ≡ false = rw (keeps e) not_j in
        simp (same, not_j, not_j') refl
    | inr other ↦ simp other (rw (search-modify_ne es j keeps ne) refl)
  ]

-- Moving the entries behind the first one down.
take-shift :
    (r : ℕ) (e : IndexEntry) (es : List IndexEntry)
    → r ≤ length es
    → (take r (shift r (e ∷ es)) ≡ take r es) × (length (shift r (e ∷ es)) ≡ suc (length es))
unfolding shift
take-shift zero e es h = (refl, refl)
take-shift (suc r) e [] h = absurd (omega arith)
take-shift (suc r) e (f ∷ es) h =
    let (taken, long) = take-shift r f es (omega arith) in (ap (λ t. f ∷ t) taken, ap suc long)

module _ (id : ObjectId) where
  pub delete_entry-none :
      (n : ℕ) (es : List IndexEntry) → search (take n es) id ≡ none → delete_entry n es id ≡ none
  unfolding delete_entry
  delete_entry-none zero es h = refl
  delete_entry-none (suc n) [] h = refl
  delete_entry-none (suc n) (e ∷ es) h = elim (Bool-cases (object_id_equal e.id id)) [
    | inl same ↦ cc (simp same at h)
    | inr other ↦
        simp other (ap (Option.map (λ t. e ∷ t)) (delete_entry-none n es (simp other at h)))
  ]

  pub delete_entry-some :
      (n : ℕ) (es : List IndexEntry) (a : IndexEntry)
      → n ≤ length es
      → search (take n es) id ≡ some a
      → (es' : List IndexEntry) × (delete_entry n es id ≡ some es')
        × (take (n - 1) es' ≡ remove (take n es) id)
        × (length es' ≡ length es)
        × (0 < n)
  unfolding delete_entry
  delete_entry-some zero es a le h = cc
  delete_entry-some (suc n) [] a le h = cc
  delete_entry-some (suc n) (e ∷ es) a le h = elim (Bool-cases (object_id_equal e.id id)) [
    | inl same ↦
        let (taken, long) = take-shift n e es (omega arith) in
        (
          shift n (e ∷ es),
          simp same refl,
          simp same (ap (λ k. take k (shift n (e ∷ es))) (omega arith) ∙ taken),
          long,
          omega arith,
        )
    | inr other ↦
        let (t, found, taken, long, some_left) =
          delete_entry-some n es a (omega arith) (simp other at h) in
        (
          e ∷ t,
          simp other (ap (Option.map (λ t. e ∷ t)) found),
          simp other (take-cons n e t some_left ∙ ap (λ t. e ∷ t) taken),
          ap suc long,
          omega arith,
        )
  ]
    where
      take-cons :
          (n : ℕ) (e : IndexEntry) (t : List IndexEntry)
          → 0 < n
          → take (suc n - 1) (e ∷ t) ≡ e ∷ take (n - 1) t
      take-cons zero e t h = elim h [ ]
      take-cons (suc n) e t h =
          let whole : suc (suc n) - 1 ≡ suc n = omega arith in
          let part : n ≡ suc n - 1 = omega arith in
          ap (λ k. take k (e ∷ t)) whole ∙ ap (λ k. e ∷ take k t) part

  pub Bounded-remove :
      (last : ℕ) (es : List IndexEntry) → Bounded last es → Bounded last (remove es id)
  Bounded-remove last [] b = tt
  Bounded-remove last (e ∷ es) (here, rest) = elim (Bool-cases (object_id_equal e.id id)) [
    | inl same ↦ simp same rest
    | inr other ↦ simp other (here, Bounded-remove last es rest)
  ]

  pub search-remove_ne :
      (es : List IndexEntry) (j : ObjectId)
      → object_id_equal id j ≡ false
      → search (remove es id) j ≡ search es j
  search-remove_ne [] j ne = refl
  search-remove_ne (e ∷ es) j ne = elim (Bool-cases (object_id_equal e.id id)) [
    | inl same ↦
        let not_j : object_id_equal e.id j ≡ false = rw (object_id_equal→eq e.id id same) ne in
        simp (same, not_j) refl
    | inr other ↦ simp other (rw (search-remove_ne es j ne) refl)
  ]

  pub search-remove : (es : List IndexEntry) → Distinct es → search (remove es id) id ≡ none
  search-remove [] d = refl
  search-remove (e ∷ es) (here, rest) = elim (Bool-cases (object_id_equal e.id id)) [
    | inl same ↦ simp same (rw (← object_id_equal→eq e.id id same) here)
    | inr other ↦ simp other (search-remove es rest)
  ]

  pub Distinct-remove : (es : List IndexEntry) → Distinct es → Distinct (remove es id)
  Distinct-remove [] d = tt
  Distinct-remove (e ∷ es) (here, rest) = elim (Bool-cases (object_id_equal e.id id)) [
    | inl same ↦ simp same rest
    | inr other ↦ simp other (
      search-remove_ne es e.id (object_id_equal_sym e.id id ∙ other) ∙ here,
      Distinct-remove es rest,
    )
  ]
