-- ===== src/Kstring/Compare.antt =====
-- What `strcmp`, `strncmp` of kernel/lib tell of two strings.
use os_ax.Base.{
  ℕ, zero, suc, ◌≡◌, refl, ap, ◌↔◌, inl, inr, some, [], ◌∷◌, arith, ◌==◌, ==→eq, ==_refl,
  ==_false→ne, Bool-cases, length, take, ◌++◌,
}
use os_ax.Base.Int.{pos, sub_ℕ-zero}
use os_ax.Kstring.{CString, IsCString, contents, strlen, strcmp, strcmp_from, strncmp, strncmp_from}

strcmp_from-zero : (s t : CString) → IsCString s → IsCString t → strcmp_from s t ≡ pos 0 → s ≡ t
unfolding strcmp_from
strcmp_from-zero [] [] ok_s ok_t h = refl
strcmp_from-zero [] (d ∷ t) ok_s ok_t h =
    absurd (==_false→ne d 0 ok_t.0 (omega (arith, sub_ℕ-zero 0 d h)))
strcmp_from-zero (c ∷ s) [] ok_s ok_t h =
    absurd (==_false→ne c 0 ok_s.0 (omega (arith, sub_ℕ-zero c 0 h)))
strcmp_from-zero (c ∷ s) (d ∷ t) ok_s ok_t h = elim (Bool-cases (c == d)) [
  | inl e ↦
      let same = ==→eq c d e in rw (same, strcmp_from-zero s t ok_s.1 ok_t.1 (simp e at h)) refl
  | inr n ↦ absurd (==_false→ne c d n (sub_ℕ-zero c d (simp n at h)))
]

strcmp_from_refl : (s : CString) → strcmp_from s s ≡ pos 0
unfolding strcmp_from
strcmp_from_refl [] = refl
strcmp_from_refl (c ∷ s) = rw (==_refl c) (strcmp_from_refl s)

pub strcmp_refl : (s : CString) → strcmp (some s) (some s) ≡ pos 0
unfolding strcmp
strcmp_refl s = strcmp_from_refl s

-- `strcmp` returns 0 exactly for equal strings.
pub strcmp-zero :
    (s t : CString) → IsCString s → IsCString t → (strcmp (some s) (some t) ≡ pos 0) ↔ (s ≡ t)
unfolding strcmp
strcmp-zero s t ok_s ok_t = (strcmp_from-zero s t ok_s ok_t, λ e. rw e (strcmp_from_refl t))

IsCString-take : (n : ℕ) (s : CString) → IsCString s → IsCString (take n s)
IsCString-take zero s ok = tt
IsCString-take (suc n) [] ok = tt
IsCString-take (suc n) (c ∷ s) ok = (ok.0, IsCString-take n s ok.1)

-- `strncmp` is `strcmp` of what the strings begin with.
pub strncmp-strcmp :
    (n : ℕ) (s t : CString)
    → strncmp (some s) (some t) n ≡ strcmp (some (take n s)) (some (take n t))
unfolding strcmp strncmp strcmp_from strncmp_from
strncmp-strcmp zero s t = refl
strncmp-strcmp (suc n) [] [] = refl
strncmp-strcmp (suc n) [] (d ∷ t) = refl
strncmp-strcmp (suc n) (c ∷ s) [] = refl
strncmp-strcmp (suc n) (c ∷ s) (d ∷ t) = rw (strncmp-strcmp n s t) refl

-- `strncmp` returns 0 exactly if the first `n` bytes are equal.
pub strncmp-zero :
    (n : ℕ) (s t : CString)
    → IsCString s
    → IsCString t
    → (strncmp (some s) (some t) n ≡ pos 0) ↔ (take n s ≡ take n t)
strncmp-zero n s t ok_s ok_t =
    rw (strncmp-strcmp n s t)
      (strcmp-zero (take n s) (take n t) (IsCString-take n s ok_s) (IsCString-take n t ok_t))

pub IsCString-append : (s t : CString) → IsCString s → IsCString t → IsCString (s ++ t)
IsCString-append [] t a b = b
IsCString-append (c ∷ s) t (here, rest) b = (here, IsCString-append s t rest b)

-- A string in memory is all that stands in front of its NUL.
pub contents-IsCString_eq : (s : CString) → IsCString s → contents s ≡ s
unfolding contents
contents-IsCString_eq [] ok = refl
contents-IsCString_eq (c ∷ s) (here, rest) =
    rw here (ap (λ t. c ∷ t) (contents-IsCString_eq s rest))

pub strlen-length : (s : CString) → strlen s ≡ length s
unfolding strlen
strlen-length [] = refl
strlen-length (c ∷ s) = ap suc (strlen-length s)
