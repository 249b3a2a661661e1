-- ===== src/Kstring/Hex.antt =====
-- Hexadecimal numbers: `ksscanf_hex` of kernel/lib/kstring_util.c, and the sixteen digits that
-- `object_id_to_filename` of kernel/fs/metafs/metafs.c writes.
use native.Mathlib.Nat.{pow-suc, mul-suc, mul_assoc, add-mul, div-add-mod', div-div-eq-div-mul}
use Prim.Native.Nat.{bit_and, bit_or}
use os_ax.Base.{
  ltb-false, ℕ, zero, suc, ◌+◌, ◌-◌, ◌*◌, ◌/◌, ◌%◌, ◌^◌, ◌≤◌, ◌<◌, ◌≡◌, refl, sym, ap, ◌∙◌, List,
  [], ◌∷◌, ◌++◌, arith, ◌==◌, leb, ltb, ◌&&◌, Bool, true, false, if◌then◌else◌, get_or,
}
use mathlib.Core.List.{append_assoc, append-nil}
use os_ax.Base.Int.{ℤ, pos, negsuc}
use os_ax.Base.Words.{u32}
use os_ax.Base.Masks.{bit_and_low, bit_or_join}
use os_ax.Base.Bits.{pow_pos}
use os_ax.Kstring.{CString, IsCString, strlen}
use os_ax.Kstring.Compare.{IsCString-append}

-- "0123456789abcdef"
abbrev pub hex : List ℕ
hex = 48 ∷ 49 ∷ 50 ∷ 51 ∷ 52 ∷ 53 ∷ 54 ∷ 55 ∷ 56 ∷ 57 ∷ 97 ∷ 98 ∷ 99 ∷ 100 ∷ 101 ∷ 102 ∷ []

-- The loop over `i = 28, 24, .., 0`: `rounds` digits of a word, the highest first.
unfoldable pub hex_digits : ℕ → ℕ → CString
hex_digits zero word = []
hex_digits (suc rounds) word =
    get_or hex (bit_and (word / 2 ^ (4 * rounds)) 0xF) 0 ∷ hex_digits rounds word

-- Both words of an object id.
unfoldable pub id_digits : ℕ → ℕ → CString
id_digits high low = hex_digits 8 (u32 high) ++ hex_digits 8 (u32 low)

unfoldable pub hex_char_to_value : ℕ → ℤ
hex_char_to_value c =
    if leb 48 c && leb c 57
    then pos (c - 48)
    else if leb 97 c && leb c 102
    then pos (c - 97 + 10)
    else if leb 65 c && leb c 70
    then pos (c - 65 + 10)
    else negsuc 0

-- Eight rounds of the loops of `ksscanf_hex`: whether every character was a digit, the word, and the
-- characters left.
unfoldable pub scan_digits : ℕ → CString → ℕ → Bool × ℕ × CString
scan_digits zero s word = (true, word, s)
scan_digits (suc rounds) [] word = (false, word, [])
scan_digits (suc rounds) (c ∷ s) word = elim (hex_char_to_value c) [
  | negsuc n ↦ (false, word, c ∷ s)
  | pos val ↦ scan_digits rounds s (bit_or (u32 (word * 2 ^ 4)) val)
]

-- The status, `*high` and `*low`, once the digits of the low word are read.
unfoldable pub scan_low : ℕ → Bool × ℕ × CString → ℤ × ℕ × ℕ
scan_low high (false, low, rest) = (negsuc 0, high, low)
scan_low high (true, low, rest) = (pos 0, high, low)

unfoldable pub scan_high : Bool × ℕ × CString → ℤ × ℕ × ℕ
scan_high (false, high, rest) = (negsuc 0, high, 0)
scan_high (true, high, rest) = scan_low high (scan_digits 8 rest 0)

unfoldable pub ksscanf_hex : CString → ℤ × ℕ × ℕ
ksscanf_hex str = if ltb (strlen str) 16 then (negsuc 0, 0, 0) else scan_high (scan_digits 8 str 0)

-- A digit reads back as its value.
digit_value : (d : ℕ) → d < 16 → hex_char_to_value (get_or hex d 0) ≡ pos d
unfolding hex_char_to_value
digit_value d h = ground arith

pub pow_digit : (n : ℕ) → 2 ^ (4 * suc n) ≡ 2 ^ (4 * n) * 16
pow_digit n =
    let k = 4 * n in
    let e : 4 * suc n ≡ suc (suc (suc (suc k))) = omega arith in
    rw e (
      omega (
        arith,
        pow-suc 2 k,
        pow-suc 2 (suc k),
        pow-suc 2 (suc (suc k)),
        pow-suc 2 (suc (suc (suc k))),
      ))

word_le : (w p : ℕ) → 0 < p → w ≤ w * p
word_le w zero h = elim h [ ]
word_le w (suc p) h = omega (arith, mul-suc w p)

-- One hexadecimal digit more of a word.
mod_digit : (n x : ℕ) → x % 2 ^ (4 * suc n) ≡ x / 2 ^ (4 * n) % 16 * 2 ^ (4 * n) + x % 2 ^ (4 * n)
mod_digit n x =
    let P = 2 ^ (4 * n) in
    let q = x / P in
    let Q = x / (P * 16) in
    let power : 2 ^ (4 * suc n) ≡ P * 16 = pow_digit n in
    let d : q / 16 ≡ Q = div-div-eq-div-mul x P 16 in
    let whole = div-add-mod' x (P * 16) in
    let low = div-add-mod' x P in
    let split : q ≡ Q * 16 + q % 16 = omega (arith, d) in
    let m = ap (λ t. t * P) split ∙ add-mul (Q * 16) (q % 16) P in
    let assoc : Q * 16 * P ≡ Q * (P * 16) = mul_assoc Q 16 P ∙ ap (λ t. Q * t) (omega arith) in
    rw power (omega (arith, whole, low, m, assoc))

scan_digits-step :
    (n val c : ℕ) (s : CString) (word : ℕ)
    → hex_char_to_value c ≡ pos val
    → scan_digits (suc n) (c ∷ s) word ≡ scan_digits n s (bit_or (u32 (word * 2 ^ 4)) val)
unfolding scan_digits
scan_digits-step n val c s word e = rw (e, scan_digits) refl

-- The digits of a word read back behind what was read already.
scan_digits-hex_digits :
    (n x word : ℕ) (t : CString)
    → word * 2 ^ (4 * n) + x % 2 ^ (4 * n) < 2 ^ 32
    → scan_digits n (hex_digits n x ++ t) word ≡ (true, word * 2 ^ (4 * n) + x % 2 ^ (4 * n), t)
unfolding scan_digits hex_digits
scan_digits-hex_digits zero x word t h = ap (λ v. (true, v, t)) (omega arith)
scan_digits-hex_digits (suc n) x word t h =
    let q = x / 2 ^ (4 * n) in
    let digit : bit_and q 15 ≡ q % 16 = bit_and_low 4 q in
    let next = mod_digit n x in
    let word' = word * 16 + q % 16 in
    let m : word * 2 ^ (4 * suc n) ≡ word * 16 * 2 ^ (4 * n) =
      ap (λ t. word * t) (pow_digit n ∙ omega arith) ∙ sym (mul_assoc word 16 (2 ^ (4 * n))) in
    let p = add-mul (word * 16) (q % 16) (2 ^ (4 * n)) in
    let sum : word' * 2 ^ (4 * n) + x % 2 ^ (4 * n) ≡ word * 2 ^ (4 * suc n) + x % 2 ^ (4 * suc n) =
      omega (arith, p, m, next) in
    let small : word' < 2 ^ 32 =
      omega (arith, h, sum, word_le word' (2 ^ (4 * n)) (pow_pos (4 * n))) in
    let small_word : u32 (word * 16) ≡ word * 16 = omega (arith, small) in
    let join : bit_or (u32 (word * 2 ^ 4)) (q % 16) ≡ word' =
      ap (λ v. bit_or v (q % 16)) small_word ∙ bit_or_join 4 word (q % 16) (omega arith) in
    let here =
      ap (λ d. hex_char_to_value (get_or hex d 0)) digit ∙ digit_value (q % 16) (omega arith) in
    scan_digits-step n (q % 16) (get_or hex (bit_and q 15) 0) (hex_digits n x ++ t) word here
    ∙ ap (scan_digits n (hex_digits n x ++ t)) join
    ∙ scan_digits-hex_digits n x word' t (omega (arith, h, sum))
    ∙ ap (λ v. (true, v, t)) sum

scan_word :
    (x : ℕ) (t : CString) → x < 2 ^ 32 → scan_digits 8 (hex_digits 8 x ++ t) 0 ≡ (true, x, t)
scan_word x t h =
    scan_digits-hex_digits 8 x 0 t (omega arith) ∙ ap (λ v. (true, v, t)) (omega arith)

pub length-hex_digits : (n x : ℕ) → strlen (hex_digits n x) ≡ n
unfolding hex_digits strlen
length-hex_digits zero x = refl
length-hex_digits (suc n) x = ap suc (length-hex_digits n x)

strlen-append : (s t : CString) → strlen (s ++ t) ≡ strlen s + strlen t
unfolding strlen
strlen-append [] t = omega arith
strlen-append (c ∷ s) t = omega (arith, strlen-append s t)

-- `ksscanf_hex` reads back the sixteen digits written for two words, whatever stands behind them.
pub ksscanf_hex-id_digits :
    (high low : ℕ) (t : CString)
    → high < 2 ^ 32
    → low < 2 ^ 32
    → ksscanf_hex (id_digits high low ++ t) ≡ (pos 0, high, low)
unfolding ksscanf_hex id_digits scan_high scan_low
ksscanf_hex-id_digits high low t h l =
    let hs = hex_digits 8 high in
    let ls = hex_digits 8 low in
    let u_high : u32 high ≡ high = omega arith in
    let u_low : u32 low ≡ low = omega arith in
    let long : ltb (strlen ((hs ++ ls) ++ t)) 16 ≡ false = ltb-false (strlen ((hs ++ ls) ++ t)) 16 (
      omega (
        arith,
        strlen-append (hs ++ ls) t,
        strlen-append hs ls,
        length-hex_digits 8 high,
        length-hex_digits 8 low,
      )) in
    let first = scan_word high (ls ++ t) h in
    let second = scan_word low t l in
    rw (u_high, u_low, long, append_assoc hs ls t, first, second) refl

pub strlen-id_digits : (high low : ℕ) → strlen (id_digits high low) ≡ 16
unfolding id_digits
strlen-id_digits high low =
    let first = hex_digits 8 (u32 high) in
    let second = hex_digits 8 (u32 low) in
    omega (
      arith,
      strlen-append first second,
      length-hex_digits 8 (u32 high),
      length-hex_digits 8 (u32 low),
    )

-- The digits alone.
pub ksscanf_hex-id_digits_alone :
    (high low : ℕ)
    → high < 2 ^ 32
    → low < 2 ^ 32
    → ksscanf_hex (id_digits high low) ≡ (pos 0, high, low)
ksscanf_hex-id_digits_alone high low h l =
    ap ksscanf_hex (sym (append-nil (id_digits high low))) ∙ ksscanf_hex-id_digits high low [] h l

hex_nonzero : (d : ℕ) → d < 16 → (get_or hex d 0 == 0) ≡ false
hex_nonzero d h = ground arith

hex_digits-IsCString : (n x : ℕ) → IsCString (hex_digits n x)
unfolding hex_digits
hex_digits-IsCString zero x = tt
hex_digits-IsCString (suc n) x =
    let low = bit_and_low 4 (x / 2 ^ (4 * n)) in
    (hex_nonzero (bit_and (x / 2 ^ (4 * n)) 0xF) (omega (arith, low)), hex_digits-IsCString n x)

pub id_digits-IsCString : (high low : ℕ) → IsCString (id_digits high low)
unfolding id_digits
id_digits-IsCString high low =
    IsCString-append (hex_digits 8 (u32 high)) (hex_digits 8 (u32 low))
      (hex_digits-IsCString 8 (u32 high)) (hex_digits-IsCString 8 (u32 low))
