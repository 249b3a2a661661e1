-- ===== src/MetaFs/Path/Shape.antt =====
-- What `metafs_normalize_path` of kernel/fs/metafs/metafs_wrappers.c comes to.
use os_ax.Base.{
  ℕ, zero, suc, ◌≤◌, ◌<◌, ◌≡◌, ◌≢◌, refl, inl, inr, false, ◌||◌, some, List, [], ◌∷◌, ◌==◌, ltb,
  leb, length, drop, arith, Bool-cases, ==_false→ne,
}
use os_ax.Base.Outcome.{Outcome, done, fault, out_of_fuel, ◌>>=◌, bind_returns, if_returns}
use os_ax.Kstring.{CString}
use os_ax.Kstring.Search.{Absent}
use os_ax.Kstring.Format.{text, ksprintf-returns}
use os_ax.MetaFs.Path.{slash, same_text, skip_slash}
use os_ax.MetaFs.Path.Normal.{
  skip_slashes, component, step_into, walk, build, starting_point, behind_current, is_absolute,
  metafs_normalize_path,
}

component-length : (room : ℕ) (s : CString) → length (component room s).1 ≤ length s
unfolding component
component-length zero s = omega arith
component-length (suc room) [] = omega arith
component-length (suc room) (c ∷ s) = elim (Bool-cases (c == slash)) [
  | inl e ↦ simp e (omega arith)
  | inr e ↦ simp e (omega (arith, component-length room s))
]

-- A component takes at least one character.
component-skip_slashes :
    (room : ℕ) (p : CString)
    → length (skip_slashes p) ≢ 0
    → length (component (suc room) (skip_slashes p)).1 < length p
unfolding component skip_slashes
component-skip_slashes room [] h = absurd (h refl)
component-skip_slashes room (c ∷ p) h = elim (Bool-cases (c == slash)) [
  | inl e ↦ simp e (omega (arith, component-skip_slashes room p (simp e at h)))
  | inr e ↦ simp e (omega (arith, component-length room p))
]

-- One round for each character is enough.
walk-returns :
    (fuel : ℕ) (p : CString) (comps : List CString)
    → length p < fuel
    → walk fuel p comps ≢ out_of_fuel
unfolding walk
walk-returns zero p comps h = elim h [ ]
walk-returns (suc fuel) p comps h =
    if_returns ((length p == 0) || leb 8 (length comps)) _ _ (λ e. cc)
      (elim (Bool-cases (length (skip_slashes p) == 0)) [
        | inl e ↦ simp e (λ x. cc)
        | inr e ↦
            let shorter = component-skip_slashes 62 p (==_false→ne (length (skip_slashes p)) 0 e) in
            simp e (walk-returns fuel _ _ (omega (arith, shorter)))
      ])

skip_slash-length : (s : CString) → length (skip_slash s) ≤ length s
skip_slash-length [] = omega arith
skip_slash-length (c ∷ s) = elim (Bool-cases (c == slash)) [
  | inl e ↦ simp e (omega arith)
  | inr e ↦ simp e (omega arith)
]

behind_current-returns :
    (current_dir path : CString) → behind_current current_dir path ≢ out_of_fuel
unfolding behind_current
behind_current-returns current_dir path =
    if_returns (same_text current_dir (slash ∷ [])) _ _
      (ksprintf-returns (47 ∷ 37 ∷ 115 ∷ []) (text (some path) ∷ []))
      (ksprintf-returns (37 ∷ 115 ∷ 47 ∷ 37 ∷ 115 ∷ [])
        (text (some current_dir) ∷ text (some path) ∷ []))

starting_point-returns :
    (current_dir path : CString) → starting_point current_dir path ≢ out_of_fuel
unfolding starting_point
starting_point-returns current_dir path =
    if_returns (is_absolute path) _ _ (λ e. cc)
      (bind_returns (behind_current current_dir path) _ (behind_current-returns current_dir path)
        (λ temp eq. if_returns (ltb (length temp) 256) _ _ (λ e. cc) (λ e. cc)))

-- One round for each character is enough for `metafs_normalize_path`; a relative path that overruns
-- its buffer is a fault.
pub metafs_normalize_path-returns :
    (current_dir path : CString) (max_len : ℕ)
    → metafs_normalize_path current_dir path max_len ≢ out_of_fuel
unfolding metafs_normalize_path
metafs_normalize_path-returns current_dir path max_len =
    if_returns (max_len == 0) _ _ (λ e. cc)
      (bind_returns (starting_point current_dir path) _ (starting_point-returns current_dir path)
        (λ input eq.
          bind_returns (walk (suc (length input)) (skip_slash input) []) _
            (walk-returns (suc (length input)) (skip_slash input) []
              (omega (arith, skip_slash-length input)))
            (λ comps eq e. cc)))

-- A component that stands for itself: no slash in it, and neither `.` nor `..`.
pub Plain : CString → Type 0
Plain c = Absent slash c × (same_text c (46 ∷ []) ≡ false) × (same_text c (46 ∷ 46 ∷ []) ≡ false)

pub ArePlain : List CString → Type 0
ArePlain [] = Unit
ArePlain (c ∷ comps) = Plain c × ArePlain comps

component-Absent : (room : ℕ) (s : CString) → Absent slash (component room s).0
unfolding component Absent
component-Absent zero s = tt
component-Absent (suc room) [] = tt
component-Absent (suc room) (c ∷ s) = elim (Bool-cases (c == slash)) [
  | inl e ↦ simp e tt
  | inr e ↦ simp e (==_false→ne c slash e, component-Absent room s)
]

step_into-ArePlain :
    (c : CString) (comps : List CString)
    → Absent slash c
    → ArePlain comps
    → ArePlain (step_into c comps)
unfolding ArePlain Plain
step_into-ArePlain c comps absent plain = elim (Bool-cases (same_text c (46 ∷ []))) [
  | inl dot ↦ rw dot plain
  | inr not_dot ↦ elim (Bool-cases (same_text c (46 ∷ 46 ∷ []))) [
    | inl up ↦ rw (not_dot, up) (behind comps plain)
    | inr not_up ↦ rw (not_dot, not_up) ((absent, not_dot, not_up), plain)
  ]
]
  where
    behind : (comps : List CString) → ArePlain comps → ArePlain (drop 1 comps)
    behind [] plain = tt
    behind (c ∷ comps) plain = plain.1

walk-ArePlain :
    (fuel : ℕ) (p : CString) (comps r : List CString)
    → ArePlain comps
    → walk fuel p comps ≡ done r
    → ArePlain r
unfolding walk ArePlain
walk-ArePlain zero p comps r plain e = cc
walk-ArePlain (suc fuel) p comps r plain e =
    elim (Bool-cases ((length p == 0) || leb 8 (length comps))) [
      | inl end ↦ let same_end : r ≡ comps = cc (simp end at e) in rw same_end plain
      | inr more ↦ elim (Bool-cases (length (skip_slashes p) == 0)) [
        | inl nothing ↦
            let same_nothing : r ≡ comps = cc (simp nothing at (simp more at e)) in
            rw same_nothing plain
        | inr some_left ↦
            walk-ArePlain fuel _ _ r
              (step_into-ArePlain _ comps (component-Absent 63 (skip_slashes p)) plain)
              (simp some_left at (simp more at e))
      ]
    ]

-- What is returned by a chain of which every step is done.
bind_done :
    {A B : Type 0} (r : Outcome A) (f : A → Outcome B) (b : B)
    → r >>= f ≡ done b
    → (a : A) × (r ≡ done a) × (f a ≡ done b)
bind_done (done a) f b e = (a, refl, e)
bind_done fault f b e = cc
bind_done out_of_fuel f b e = cc

-- A path that is returned is what `build` makes of plain components: before it cuts them, none has a
-- slash or is `.` or `..`.
pub metafs_normalize_path-ArePlain :
    (current_dir path p : CString) (max_len : ℕ)
    → metafs_normalize_path current_dir path max_len ≡ done (some p)
    → (comps : List CString) × ArePlain comps × (build comps max_len ≡ some p)
unfolding metafs_normalize_path ArePlain
metafs_normalize_path-ArePlain current_dir path p max_len e = elim (Bool-cases (max_len == 0)) [
  | inl none_fits ↦ cc (simp none_fits at e)
  | inr some_fits ↦
      let (input, _, e') =
        bind_done (starting_point current_dir path) _ (some p) (simp some_fits at e) in
      let (comps, walked, built) =
        bind_done (walk (suc (length input)) (skip_slash input) []) _ (some p) e' in
      (comps, walk-ArePlain (suc (length input)) (skip_slash input) [] comps tt walked, cc)
]
