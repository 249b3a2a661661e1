-- ===== src/MetaFs/Path/ObjectName.antt =====
-- `metafs_object_get_name` of kernel/fs/metafs/metafs_wrappers.c: the name made of an object's id.
use native.Mathlib.Nat.{div-div-eq-div-mul, mul_comm}
use Prim.Native.Nat.{bit_and}
use mathlib.Core.List.{append_assoc, append-nil}
use os_ax.Base.{
  ℕ, zero, suc, ◌-◌, ◌*◌, ◌/◌, ◌^◌, ◌≤◌, ◌<◌, ◌≡◌, refl, sym, ap, ◌∙◌, inl, inr, true, List, [],
  ◌∷◌, ◌++◌, arith, ◌==◌, leb, length, get_or, replicate, Bool-cases, ==→eq,
}
use os_ax.Base.Int.{pos}
use os_ax.Base.Outcome.{done}
use os_ax.Base.Words.{u32}
use os_ax.Kstring.{CString}
use os_ax.Kstring.Number.{write_back, length-write_back}
use os_ax.Kstring.Hex.{
  hex, hex_digits, id_digits, ksscanf_hex, pow_digit, ksscanf_hex-id_digits_alone,
}
use os_ax.Kstring.Format.{
  num, low_digits, some_digit, padded, parse_width, convert_arg, next_arg, convert, take_directive,
  format_from, ksprintf,
}
use os_ax.MetaFs.{ObjectId}
use os_ax.MetaFs.Path.{object_format, metafs_object_get_name}

-- The last digit apart.
hex_digits-last :
    (k x : ℕ) → hex_digits (suc k) x ≡ hex_digits k (x / 2 ^ 4) ++ get_or hex (bit_and x 15) 0 ∷ []
unfolding hex_digits
hex_digits-last zero x =
    let whole : x / 2 ^ (4 * 0) ≡ x = omega arith in
    ap (λ y. get_or hex (bit_and y 15) 0 ∷ []) whole
hex_digits-last (suc k) x =
    let further : x / 2 ^ (4 * suc k) ≡ x / 2 ^ 4 / 2 ^ (4 * k) =
      ap (λ p. x / p) (pow_digit k ∙ mul_comm (2 ^ (4 * k)) 16)
      ∙ sym (div-div-eq-div-mul x 16 (2 ^ (4 * k))) in
    ap (λ y. get_or hex (bit_and y 15) 0 ∷ hex_digits (suc k) x) further
    ∙ ap (λ s. get_or hex (bit_and (x / 2 ^ 4 / 2 ^ (4 * k)) 15) 0 ∷ s) (hex_digits-last k x)

low_digits_zero : (room x : ℕ) → x ≡ 0 → low_digits room x ≡ []
unfolding low_digits
low_digits_zero zero x e = refl
low_digits_zero (suc room) x e = let none_left : (x == 0) ≡ true = ground arith in rw none_left refl

-- The digits that `%x` collects, padded with zeros, are the digits of the word.
low_digits-hex_digits :
    (k room x : ℕ) (out : CString)
    → k ≤ room
    → x < 2 ^ (4 * k)
    → write_back (low_digits room x ++ replicate (k - length (low_digits room x)) 48) out
      ≡ hex_digits k x ++ out
unfolding low_digits write_back hex_digits
low_digits-hex_digits zero room x out le low =
    ap (λ ds. write_back (ds ++ replicate (0 - length ds) 48) out)
      (low_digits_zero room x (omega arith))
low_digits-hex_digits (suc k) zero x out le low = absurd (omega arith)
low_digits-hex_digits (suc k) (suc room) x out le low =
    let d = get_or hex (bit_and x 15) 0 in
    let ds = low_digits room (x / 2 ^ 4) in
    let rest : write_back (ds ++ replicate (k - length ds) 48) (d ∷ out)
        ≡ hex_digits (suc k) x ++ out =
      low_digits-hex_digits k room (x / 2 ^ 4) (d ∷ out) (omega arith) (omega (arith, pow_digit k))
      ∙ sym (
          ap (λ s. s ++ out) (hex_digits-last k x)
          ∙ append_assoc (hex_digits k (x / 2 ^ 4)) (d ∷ []) out) in
    elim (Bool-cases (x == 0)) [
      | inl nothing ↦
          let is_zero : x ≡ 0 = ==→eq x 0 nothing in
          let all : suc k - 0 ≡ suc k = omega arith in
          let none_off : k ≡ k - 0 = omega arith in
          rw nothing (
            ap (λ n. write_back (replicate n 48) out) all
            ∙ ap (λ n. write_back (replicate n 48) (48 ∷ out)) none_off
            ∙ ap (λ l. write_back (l ++ replicate (k - length l) 48) (48 ∷ out))
                (sym (low_digits_zero room (x / 2 ^ 4) (omega arith)))
            ∙ ap
                (λ y.
                  write_back (ds ++ replicate (k - length ds) 48)
                    (get_or hex (bit_and y 15) 0 ∷ out))
                (sym is_zero)
            ∙ rest)
      | inr more ↦
          let one_off : suc k - suc (length ds) ≡ k - length ds = omega arith in
          rw more (ap (λ n. write_back (ds ++ replicate n 48) (d ∷ out)) one_off ∙ rest)
    ]

length_eight : (x : ℕ) → length (hex_digits 8 x) ≡ 8
unfolding hex_digits
length_eight x = refl

some_digit-hex_digits :
    (x : ℕ)
    → x < 2 ^ 32
    → write_back
        (some_digit x (low_digits 16 x)
          ++ replicate (8 - length (some_digit x (low_digits 16 x))) 48)
        []
      ≡ hex_digits 8 x
unfolding write_back
some_digit-hex_digits x low =
    let all : write_back (low_digits 16 x ++ replicate (8 - length (low_digits 16 x)) 48) []
        ≡ hex_digits 8 x =
      low_digits-hex_digits 8 16 x [] (omega arith) low ∙ append-nil (hex_digits 8 x) in
    elim (Bool-cases (x == 0)) [
      | inl nothing ↦ rw nothing (
          ap (λ l. write_back (l ++ replicate (8 - length l) 48) [])
            (sym (low_digits_zero 16 x (==→eq x 0 nothing)))
          ∙ all)
      | inr more ↦ rw more all
    ]

-- What `%08x` writes for a word.
padded-hex_digits :
    (x : ℕ) → x < 2 ^ 32 → padded 8 48 (some_digit x (low_digits 16 x)) ≡ done (hex_digits 8 x)
unfolding padded
padded-hex_digits x low =
    let buf =
      some_digit x (low_digits 16 x)
      ++ replicate (8 - length (some_digit x (low_digits 16 x))) 48 in
    let same : write_back buf [] ≡ hex_digits 8 x = some_digit-hex_digits x low in
    let size : length buf ≡ 8 =
      omega (arith, length-write_back buf [], ap (λ (l : List ℕ). length l) same, length_eight x) in
    let fits : leb (length buf) 16 ≡ true = ground arith in rw fits (ap done same)

ksprintf-object_format :
    (x y : ℕ)
    → ksprintf object_format (num x ∷ num y ∷ [])
      ≡ done (b'o' ∷ b'b' ∷ b'j' ∷ b'_' ∷ (hex_digits 8 (u32 x) ++ (hex_digits 8 (u32 y) ++ [])))
unfolding ksprintf format_from take_directive convert next_arg convert_arg parse_width
ksprintf-object_format x y =
    let first = padded-hex_digits (u32 x) (omega arith) in
    let second = padded-hex_digits (u32 y) (omega arith) in rw (first, second) refl

-- metafs_object_get_name makes a name of every id of two words of 32 bits: "obj_" and digits from which
-- ksscanf_hex reads both words back.
pub metafs_object_get_name-ksscanf_hex :
    (id : ObjectId)
    → id.high < 2 ^ 32
    → id.low < 2 ^ 32
    → (digits : CString) × (metafs_object_get_name id ≡ done (b'o' ∷ b'b' ∷ b'j' ∷ b'_' ∷ digits))
      × (ksscanf_hex digits ≡ (pos 0, id.high, id.low))
unfolding metafs_object_get_name id_digits
metafs_object_get_name-ksscanf_hex id high low =
    let same_high : u32 (u32 id.high) ≡ u32 id.high = omega arith in
    let same_low : u32 (u32 id.low) ≡ u32 id.low = omega arith in
    (
      id_digits id.high id.low,
      ksprintf-object_format (u32 id.high) (u32 id.low)
          ∙ ap (λ (s : CString). done (b'o' ∷ b'b' ∷ b'j' ∷ b'_' ∷ s))
              (ap (λ a. hex_digits 8 a ++ (hex_digits 8 (u32 (u32 id.low)) ++ [])) same_high
                ∙ ap (λ b. hex_digits 8 (u32 id.high) ++ (hex_digits 8 b ++ [])) same_low
                ∙ ap (λ t. hex_digits 8 (u32 id.high) ++ t)
                    (append-nil (hex_digits 8 (u32 id.low)))),
      ksscanf_hex-id_digits_alone id.high id.low high low,
    )
