-- ===== src/Kstring/Number.antt =====
-- Decimal numbers in kernel/lib: `itoa`.
use native.Mathlib.Nat.{pow-suc}
use os_ax.Base.{
  ℕ, zero, suc, ◌+◌, ◌-◌, ◌*◌, ◌/◌, ◌%◌, ◌^◌, ◌≤◌, ◌<◌, ◌≡◌, refl, ◌∙◌, List, [], ◌∷◌, arith, ◌==◌,
  if◌then◌else◌, inl, inr, Bool-cases, ==→eq, eq→==, length, false,
}
use native.Mathlib.Decide.{dec_lt}
use os_ax.Kstring.{CString}

-- The loop that puts the digits into `buf`, lowest first; `room` is what is left of it.
unfoldable pub digits : ℕ → ℕ → List ℕ
digits zero val = []
digits (suc room) val =
    let rest = digits room (val / 10) in if val == 0 then [] else (48 + val % 10) ∷ rest

-- `while (i) out[p++] = buf[--i];` in front of what is written already.
unfoldable pub write_back : List ℕ → List ℕ → List ℕ
write_back [] out = out
write_back (c ∷ buf) out = write_back buf (c ∷ out)

-- `buf` has 16 places.
unfoldable pub itoa : ℕ → CString
itoa val = if val == 0 then 48 ∷ [] else write_back (digits 16 val) []

-- The number that decimal digits stand for, behind those read already.
pub read_decimal : ℕ → CString → ℕ
read_decimal n [] = n
read_decimal n (c ∷ s) = read_decimal (n * 10 + (c - 48)) s

pub AreDigits : CString → Type 0
AreDigits [] = Unit
AreDigits (c ∷ s) = (48 ≤ c) × (c ≤ 57) × AreDigits s

value : List ℕ → ℕ
value [] = 0
value (c ∷ buf) = value buf * 10 + (c - 48)

read_decimal-write_back :
    (buf out : List ℕ) → read_decimal 0 (write_back buf out) ≡ read_decimal (value buf) out
unfolding read_decimal write_back value
read_decimal-write_back [] out = refl
read_decimal-write_back (c ∷ buf) out = read_decimal-write_back buf (c ∷ out)

value-digits : (room val : ℕ) → val < 10 ^ room → value (digits room val) ≡ val
unfolding digits value
value-digits zero val h = omega arith
value-digits (suc room) val h = elim (Bool-cases (val == 0)) [
  | inl e ↦ rw e (omega (arith, ==→eq val 0 e))
  | inr n ↦ rw n (omega (arith, value-digits room (val / 10) (omega (arith, pow-suc 10 room))))
]

pub length-write_back : (buf out : List ℕ) → length (write_back buf out) ≡ length buf + length out
unfolding write_back
length-write_back [] out = omega arith
length-write_back (c ∷ buf) out = omega (arith, length-write_back buf (c ∷ out))

-- No more digits than the power of ten that bounds the number.
length-digits : (room n val : ℕ) → val < 10 ^ n → length (digits room val) ≤ n
unfolding digits
length-digits zero n val h = omega arith
length-digits (suc room) zero val h = rw (eq→== val 0 (omega arith)) (omega arith)
length-digits (suc room) (suc n) val h =
    let rest = length-digits room n (val / 10) (omega (arith, pow-suc 10 n)) in
    elim (Bool-cases (val == 0)) [ inl e ↦ rw e (omega arith) | inr e ↦ rw e (omega arith) ]

AreDigits-digits : (room val : ℕ) → AreDigits (digits room val)
unfolding digits AreDigits
AreDigits-digits zero val = tt
AreDigits-digits (suc room) val =
    let rest = AreDigits-digits room (val / 10) in
    elim (Bool-cases (val == 0)) [ inl e ↦ rw e tt | inr e ↦ rw e (omega arith, omega arith, rest) ]

AreDigits-write_back :
    (buf out : List ℕ) → AreDigits buf → AreDigits out → AreDigits (write_back buf out)
unfolding write_back AreDigits
AreDigits-write_back [] out b o = o
AreDigits-write_back (c ∷ buf) out (low, high, b) o =
    AreDigits-write_back buf (c ∷ out) b (low, high, o)

read_zero : {v : ℕ} → v ≡ 0 → read_decimal 0 (48 ∷ []) ≡ v
unfolding read_decimal
read_zero e = omega (arith, e)

-- A number that is not 0 has a digit, and its last one is not 0.
digits-least :
    (room val : ℕ)
    → 0 < val
    → val < 10 ^ room
    → (n : ℕ) × (length (digits room val) ≡ suc n) × (10 ^ n ≤ val)
unfolding digits
digits-least zero val pos h = absurd (omega arith)
digits-least (suc room) val pos h =
    let more : (val == 0) ≡ false = ground arith in
    elim (dec_lt val 10) [
      | yes one ↦
          let short = length-digits room 0 (val / 10) (omega arith) in
          (0, rw more (omega (arith, short)), omega arith)
      | no ge ↦
          let (n, size, low) =
            digits-least room (val / 10) (omega arith) (omega (arith, pow-suc 10 room)) in
          (suc n, rw more (omega (arith, size)), omega (arith, low, pow-suc 10 n))
    ]

least_places : (n l val : ℕ) → l ≡ suc n → 10 ^ n ≤ val → (1 ≤ l) × (1 < l → 10 ^ (l - 1) ≤ val)
least_places n l val e low =
    let back : l - 1 ≡ n = omega arith in (omega arith, λ more. rw back low)

-- `itoa` of a number of 32 bits writes one to ten characters, digits all and no more than the number
-- has, and they read back as the number.
pub itoa_lem :
    (val : ℕ)
    → val < 2 ^ 32
    → (read_decimal 0 (itoa val) ≡ val)
      × AreDigits (itoa val)
      × (length (itoa val) ≤ 10)
      × (1 ≤ length (itoa val))
      × (1 < length (itoa val) → 10 ^ (length (itoa val) - 1) ≤ val)
unfolding itoa AreDigits read_decimal value
itoa_lem val h = elim (Bool-cases (val == 0)) [
  | inl e ↦ rw e (
    read_zero (==→eq val 0 e),
    (omega arith, omega arith, tt),
    omega arith,
    omega arith,
    λ more. absurd (omega arith),
  )
  | inr some_digit ↦
      let d = digits 16 val in
      let written_back : length (write_back d []) ≡ length d + 0 = length-write_back d [] in
      let (n, size, low) = digits-least 16 val (ground arith) (omega arith) in
      let places =
        least_places n (length (write_back d [])) val (omega (arith, written_back, size)) low in
      rw some_digit (
        read_decimal-write_back d [] ∙ value-digits 16 val (omega arith),
        AreDigits-write_back d [] (AreDigits-digits 16 val) tt,
        omega (arith, length-write_back d [], length-digits 16 10 val (omega arith)),
        places.0,
        places.1,
      )
]
