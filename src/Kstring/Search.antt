-- ===== src/Kstring/Search.antt =====
-- What the searches of kernel/lib find: `strstr`, `strchr` and `strrchr`.
use os_ax.Base.{
  ℕ, suc, ◌≤◌, ◌≡◌, ◌≢◌, refl, sym, ap, ◌∙◌, inl, inr, true, false, none, some, [], ◌∷◌, ◌++◌,
  arith, ◌==◌, ==→eq, ==_refl, ==_false→ne, ne→==_false, Bool-cases, length,
}
use os_ax.Base.Words.{u8}
use os_ax.Kstring.{CString, matches, strstr, strstr_from, strchr, strchr_from}

matches-append : (n t : CString) → matches (n ++ t) n ≡ true
unfolding matches
matches-append [] [] = refl
matches-append [] (d ∷ t) = refl
matches-append (c ∷ n) t = rw (==_refl c) (matches-append n t)

matches_sound : (h n : CString) → matches h n ≡ true → (t : CString) × (h ≡ n ++ t)
unfolding matches
matches_sound h [] e = (h, refl)
matches_sound [] (c ∷ n) e = cc
matches_sound (d ∷ h) (c ∷ n) e = elim (Bool-cases (d == c)) [
  | inl same ↦ let (t, p) = matches_sound h n (simp same at e) in (t, rw (p, ==→eq d c same) refl)
  | inr other ↦ cc (simp other at e)
]

-- Where a needle first stands in a haystack: `front` lies before it, and no occurrence has less in
-- front of it.
pub record First (h n r : CString) : Type 0 where
  pub front : CString
  pub behind : CString
  pub splits : h ≡ front ++ r
  pub stands : r ≡ n ++ behind
  pub first : (p q : CString) → h ≡ p ++ n ++ q → length front ≤ length p

-- One byte further on, an occurrence has one byte more in front of it.
skip-first :
    (d : ℕ) (h n : CString) (k : ℕ)
    → matches (d ∷ h) n ≡ false
    → ((p q : CString) → h ≡ p ++ n ++ q → k ≤ length p)
    → (p q : CString) → d ∷ h ≡ p ++ n ++ q
    → suc k ≤ length p
skip-first d h n k not_here inner [] q x =
    let hit : matches (d ∷ h) n ≡ true = rw x (matches-append n q) in cc
skip-first d h n k not_here inner (b ∷ p) q x = omega (arith, inner p q cc)

strstr_from-some :
    (h : CString) (c : ℕ) (n r : CString) → strstr_from h (c ∷ n) ≡ some r → First h (c ∷ n) r
unfolding strstr_from
strstr_from-some [] c n r e = cc
strstr_from-some (d ∷ h) c n r e = elim (Bool-cases (matches (d ∷ h) (c ∷ n))) [
  | inl here ↦
      let (t, p) = matches_sound (d ∷ h) (c ∷ n) here in
      let same : d ∷ h ≡ r = cc (simp here at e) in
      record {
        front = [];
        behind = t;
        splits = same;
        stands = sym same ∙ p;
        first = λ p q x. omega arith;
      }
  | inr not_here ↦
      let w = strstr_from-some h c n r (simp not_here at e) in
      record {
        front = d ∷ w.front;
        behind = w.behind;
        splits = ap (λ t. d ∷ t) w.splits;
        stands = w.stands;
        first = skip-first d h (c ∷ n) (length w.front) not_here w.first;
      }
]

strstr_from-none :
    (h : CString) (c : ℕ) (n : CString)
    → strstr_from h (c ∷ n) ≡ none
    → (p q : CString) → h ≢ p ++ c ∷ n ++ q
unfolding strstr_from
strstr_from-none [] c n e [] q x = cc
strstr_from-none [] c n e (b ∷ p) q x = cc
strstr_from-none (d ∷ h) c n e p q x = elim (Bool-cases (matches (d ∷ h) (c ∷ n))) [
  | inl here ↦ cc (simp here at e)
  | inr not_here ↦
      let more =
        skip-first d h (c ∷ n) (suc (length p)) not_here
          (λ p' q' y. absurd (strstr_from-none h c n (simp not_here at e) p' q' y)) p q x in
      omega (arith, more)
]

-- `strstr` returns the rest of the haystack from the first occurrence of the needle on, and NULL
-- exactly if there is no occurrence.
pub strstr_lem :
    (h n : CString)
    → ((r : CString) → strstr (some h) (some n) ≡ some r → First h n r)
      × (strstr (some h) (some n) ≡ none → (p q : CString) → h ≢ p ++ n ++ q)
unfolding strstr
strstr_lem h [] = (
  λ r e. record {
    front = [];
    behind = r;
    splits = cc;
    stands = refl;
    first = λ p q x. omega arith;
  },
  λ e p q x. cc,
)
strstr_lem h (c ∷ n) = (strstr_from-some h c n, strstr_from-none h c n)

-- The byte does not occur.
unfoldable pub Absent : ℕ → CString → Type 0
Absent ch [] = Unit
Absent ch (c ∷ s) = (c ≢ ch) × Absent ch s

strchr_from-some :
    (s : CString) (ch : ℕ) (r : CString)
    → strchr_from s ch ≡ some r
    → (p t : CString) × (s ≡ p ++ r) × (r ≡ u8 ch ∷ t) × Absent (u8 ch) p
unfolding strchr_from Absent
strchr_from-some [] ch r e = cc
strchr_from-some (c ∷ s) ch r e = elim (Bool-cases (c == u8 ch)) [
  | inl here ↦
      let same : c ∷ s ≡ r = cc (simp here at e) in
      ([], s, same, sym same ∙ ap (λ t. t ∷ s) (==→eq c (u8 ch) here), tt)
  | inr not_here ↦
      let (p, t, splits, stands, absent) = strchr_from-some s ch r (simp not_here at e) in
      (c ∷ p, t, ap (λ t. c ∷ t) splits, stands, (==_false→ne c (u8 ch) not_here, absent))
]

strchr_from-none : (s : CString) (ch : ℕ) → strchr_from s ch ≡ none → Absent (u8 ch) s
unfolding strchr_from Absent
strchr_from-none [] ch e = tt
strchr_from-none (c ∷ s) ch e = elim (Bool-cases (c == u8 ch)) [
  | inl here ↦ cc (simp here at e)
  | inr not_here ↦ (==_false→ne c (u8 ch) not_here, strchr_from-none s ch (simp not_here at e))
]

-- `strchr` returns the rest of the string from the first byte of that value on, and NULL exactly if
-- there is none in front of the NUL.
pub strchr_lem :
    (s : CString) (ch : ℕ)
    → ((r : CString)
        → strchr (some s) ch ≡ some r
        → (p t : CString) × (s ≡ p ++ r) × (r ≡ u8 ch ∷ t) × Absent (u8 ch) p)
      × (strchr (some s) ch ≡ none → Absent (u8 ch) s)
unfolding strchr
strchr_lem s ch = (strchr_from-some s ch, strchr_from-none s ch)

-- Behind a text without the byte, `strchr` finds it.
pub strchr-append :
    (p t : CString) (ch : ℕ)
    → Absent (u8 ch) p
    → strchr (some (p ++ u8 ch ∷ t)) ch ≡ some (u8 ch ∷ t)
unfolding strchr strchr_from Absent
strchr-append [] t ch absent = rw (==_refl (u8 ch)) refl
strchr-append (c ∷ p) t ch (here, rest) =
    rw (ne→==_false c (u8 ch) here) (strchr-append p t ch rest)
