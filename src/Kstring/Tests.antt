-- ===== src/Kstring/Tests.antt =====
-- The strings of kernel/lib at small texts.
use os_ax.Base.{
  take, ◌↔◌, ◌-◌, ◌^◌, ◌<◌, ◌≤◌, ◌≡◌, ◌≢◌, refl, none, some, [], ◌∷◌, ◌++◌, arith, length,
}
use os_ax.Base.Int.{pos}
use os_ax.Base.Outcome.{done, out_of_fuel}
use os_ax.Kstring.{CString, IsCString, strcmp, strncmp, strstr, strchr}
use os_ax.Kstring.Search.{First, Absent, strstr_lem, strchr_lem}
use os_ax.Base.Words.{u8}
use os_ax.Kstring.Compare.{strcmp-zero, strncmp-zero}
use os_ax.Kstring.Number.{itoa, read_decimal, AreDigits, itoa_lem}
use os_ax.Kstring.Hex.{id_digits, ksscanf_hex, ksscanf_hex-id_digits}
use os_ax.Kstring.Format.{Arg, num, text, ksprintf, ksprintf-returns}

-- "abab" and "ba"
abbrev abab : CString
abab = 97 ∷ 98 ∷ 97 ∷ 98 ∷ []

abbrev ba : CString
ba = 98 ∷ 97 ∷ []

abab-IsCString : IsCString abab
abab-IsCString = (refl, (refl, (refl, (refl, tt))))

ba-IsCString : IsCString ba
ba-IsCString = (refl, (refl, tt))

strcmp-zero_example : (strcmp (some abab) (some ba) ≡ pos 0) ↔ (abab ≡ ba)
strcmp-zero_example = strcmp-zero abab ba abab-IsCString ba-IsCString

strncmp-zero_example : (strncmp (some abab) (some ba) 1 ≡ pos 0) ↔ (take 1 abab ≡ take 1 ba)
strncmp-zero_example = strncmp-zero 1 abab ba abab-IsCString ba-IsCString

strstr_lem_example :
    ((r : CString) → strstr (some abab) (some ba) ≡ some r → First abab ba r)
    × (strstr (some abab) (some ba) ≡ none → (p q : CString) → abab ≢ p ++ ba ++ q)
strstr_lem_example = strstr_lem abab ba

strchr_lem_example :
    ((r : CString)
      → strchr (some abab) 98 ≡ some r
      → (p t : CString) × (abab ≡ p ++ r) × (r ≡ u8 98 ∷ t) × Absent (u8 98) p)
    × (strchr (some abab) 98 ≡ none → Absent (u8 98) abab)
strchr_lem_example = strchr_lem abab 98

itoa_lem_example :
    (read_decimal 0 (itoa 4070) ≡ 4070)
    × AreDigits (itoa 4070)
    × (length (itoa 4070) ≤ 10)
    × (1 ≤ length (itoa 4070))
    × (1 < length (itoa 4070) → 10 ^ (length (itoa 4070) - 1) ≤ 4070)
itoa_lem_example = itoa_lem 4070 (omega arith)

itoa-4070 : itoa 4070 ≡ 52 ∷ 48 ∷ 55 ∷ 48 ∷ []
unfolding itoa os_ax.Kstring.Number.write_back os_ax.Kstring.Number.digits
itoa-4070 = refl

ksscanf_hex-id_digits_example :
    ksscanf_hex (id_digits 0xABC 0xDEADBEEF ++ abab) ≡ (pos 0, 0xABC, 0xDEADBEEF)
ksscanf_hex-id_digits_example =
    ksscanf_hex-id_digits 0xABC 0xDEADBEEF abab (omega arith) (omega arith)

-- "%s%04x%"
abbrev format : CString
format = 37 ∷ 115 ∷ 37 ∷ 48 ∷ 52 ∷ 120 ∷ 37 ∷ []

ksprintf-format :
    ksprintf format (text (some ba) ∷ num 0x1F ∷ []) ≡ done (98 ∷ 97 ∷ 48 ∷ 48 ∷ 49 ∷ 102 ∷ 37 ∷ [])
unfolding ksprintf os_ax.Kstring.Format.format_from os_ax.Kstring.Format.take_directive
    os_ax.Kstring.Format.parse_width os_ax.Kstring.Format.convert os_ax.Kstring.Format.next_arg
    os_ax.Kstring.Format.convert_arg os_ax.Kstring.Format.padded os_ax.Kstring.Format.low_digits
    os_ax.Kstring.Number.write_back
ksprintf-format = refl

ksprintf-returns_example : ksprintf format (text none ∷ []) ≢ out_of_fuel
ksprintf-returns_example = ksprintf-returns format (text none ∷ [])
