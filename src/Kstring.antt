-- ===== src/Kstring.antt =====
-- kernel/lib/string.c and the string functions of kernel/lib/kstring_util.c. A C string is the
-- list of the bytes in front of its NUL; a pointer into it is the rest of the string from there on,
-- and a pointer that may be NULL is an option.
pub mod Compare
pub mod Search
pub mod Number
pub mod Hex
pub mod Format
mod Tests
use os_ax.Base.{
  ℕ, zero, suc, ◌≡◌, Option, none, some, List, [], ◌∷◌, ◌++◌, Bool, true, false, ◌==◌,
  if◌then◌else◌, replicate,
}
use os_ax.Base.Words.{u8}
use os_ax.Base.Int.{ℤ, pos, negsuc, sub_ℕ}

abbrev pub CString : Type 0
CString = List ℕ

-- No byte of the string is the NUL that ends it.
abbrev pub IsCString : CString → Type 0
IsCString [] = Unit
IsCString (c ∷ s) = ((c == 0) ≡ false) × IsCString s

unfoldable pub strlen : CString → ℕ
strlen [] = 0
strlen (c ∷ s) = suc (strlen s)

-- The loop of `strcmp`: the difference of the first bytes that differ, or of the bytes where one
-- string ends.
unfoldable pub strcmp_from : CString → CString → ℤ
strcmp_from [] [] = sub_ℕ 0 0
strcmp_from [] (d ∷ t) = sub_ℕ 0 d
strcmp_from (c ∷ s) [] = sub_ℕ c 0
strcmp_from (c ∷ s) (d ∷ t) = let rest = strcmp_from s t in if c == d then rest else sub_ℕ c d

unfoldable pub strcmp : Option CString → Option CString → ℤ
strcmp none none = pos 0
strcmp none (some t) = negsuc 0
strcmp (some s) none = pos 1
strcmp (some s) (some t) = strcmp_from s t

-- The loop of `strncmp`, which stops after `n` bytes.
unfoldable pub strncmp_from : CString → CString → ℕ → ℤ
strncmp_from s t zero = pos 0
strncmp_from [] [] (suc n) = sub_ℕ 0 0
strncmp_from [] (d ∷ t) (suc n) = sub_ℕ 0 d
strncmp_from (c ∷ s) [] (suc n) = sub_ℕ c 0
strncmp_from (c ∷ s) (d ∷ t) (suc n) =
    let rest = strncmp_from s t n in if c == d then rest else sub_ℕ c d

unfoldable pub strncmp : Option CString → Option CString → ℕ → ℤ
strncmp none none n = pos 0
strncmp none (some t) n = negsuc 0
strncmp (some s) none n = pos 1
strncmp (some s) (some t) n = strncmp_from s t n

-- Does the inner loop of `strstr` come to the end of the needle?
unfoldable pub matches : CString → CString → Bool
matches h [] = true
matches [] (c ∷ n) = false
matches (d ∷ h) (c ∷ n) = let rest = matches h n in if d == c then rest else false

-- The outer loop, over the rest of the haystack.
unfoldable pub strstr_from : CString → CString → Option CString
strstr_from [] n = none
strstr_from (d ∷ h) n =
    let rest = strstr_from h n in if matches (d ∷ h) n then some (d ∷ h) else rest

unfoldable pub strstr : Option CString → Option CString → Option CString
strstr (some h) (some []) = some h
strstr (some h) (some (c ∷ n)) = strstr_from h (c ∷ n)
strstr _ _ = none

-- `(char)ch` is the low byte; both sides are compared as `char`.
unfoldable pub strchr_from : CString → ℕ → Option CString
strchr_from [] ch = none
strchr_from (c ∷ s) ch = let rest = strchr_from s ch in if c == u8 ch then some (c ∷ s) else rest

unfoldable pub strchr : Option CString → ℕ → Option CString
strchr none ch = none
strchr (some s) ch = strchr_from s ch

-- The loop of `strrchr`, with the last match.
unfoldable pub strrchr_from : CString → ℕ → Option CString → Option CString
strrchr_from [] ch last = last
strrchr_from (c ∷ s) ch last = strrchr_from s ch (if c == u8 ch then some (c ∷ s) else last)

unfoldable pub strrchr : Option CString → ℕ → Option CString
strrchr none ch = none
strrchr (some s) ch = let last = strrchr_from s ch none in if ch == 0 then some [] else last

-- The bytes of a buffer behind `dest`, when `bytes` are written to its start.
unfoldable pub memcpy : List ℕ → List ℕ → List ℕ
memcpy dest [] = dest
memcpy [] (b ∷ bytes) = []
memcpy (d ∷ dest) (b ∷ bytes) = b ∷ memcpy dest bytes

unfoldable pub memset : List ℕ → ℕ → ℕ → List ℕ
memset dest value zero = dest
memset [] value (suc num) = []
memset (d ∷ dest) value (suc num) = u8 value ∷ memset dest value num

-- `strcpy` writes the string and its NUL, whatever room there is behind `dest`.
unfoldable pub strcpy : List ℕ → CString → List ℕ
strcpy dest src = memcpy dest (src ++ 0 ∷ [])

-- `strncpy` writes exactly `n` bytes: the string cut at `n`, then NULs.
unfoldable pub strncpy : List ℕ → CString → ℕ → List ℕ
strncpy dest src zero = dest
strncpy [] src (suc n) = []
strncpy (d ∷ dest) [] (suc n) = 0 ∷ strncpy dest [] n
strncpy (d ∷ dest) (c ∷ src) (suc n) = c ∷ strncpy dest src n

-- The string that stands at the start of a buffer: its bytes up to the first NUL.
unfoldable pub contents : List ℕ → CString
contents [] = []
contents (c ∷ cs) = let rest = contents cs in if c == 0 then [] else c ∷ rest
