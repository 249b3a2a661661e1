-- ===== src/Base/Bits.antt =====
-- The bit operations of C on unsigned words, read one bit at a time.
use Prim.Native.Nat.{
  ℕ, zero, suc, ◌+◌, ◌-◌, ◌*◌, ◌/◌, ◌%◌, ◌^◌, ◌≤◌, ◌<◌, min, max, bit_and, bit_or, digits,
  bit_and-bitwise, bit_or-bitwise,
}
use mathlib.Core.Path.{◌≡◌, refl, ap, ◌∙◌, sym}
use mathlib.Core.Bool.{Bool, false, not, ◌&&◌, ◌||◌}
use native.Mathlib.Nat.{pow-suc, mul_assoc, div-div-eq-div-mul}
use native.Mathlib.Nat.{zero-add}
use native.Mathlib.Numerals.{add-one}
use native.Mathlib.Omega.{arith}
use os_ax.Base.Tests.{◌==◌, ltb, if◌then◌else◌}

-- Bit `b` of a word.
unfoldable pub bit : ℕ → ℕ → Bool
bit w zero = w % 2 == 1
bit w (suc b) = bit (w / 2) b

-- Operations digit by digit. `tail` is what is left of the second word when the first is used up,
-- and must itself be what the digit operation makes of it.
module _ (op : ℕ → ℕ → ℕ) (tail : ℕ → ℕ)
    (tail_digits : (y : ℕ) → tail y ≡ tail (y / 2) * 2 + op 0 (y % 2)) where
  -- Rounds beyond the first word's value change nothing.
  digits_enough : (k x y : ℕ) → x ≤ k → digits tail op k x y ≡ digits tail op (k + 1) x y
  digits_enough zero zero y small = refl
  digits_enough (suc k) zero y small = rw add-one refl
  digits_enough zero (suc x) y small = elim small [ ]
  digits_enough (suc k) (suc x) y small = rw add-one (
      ap (λ r. r * 2 + op (suc x % 2) (y % 2))
        (digits_enough k (suc x / 2) (y / 2) (omega arith) ∙ rw add-one))

  digits_shrink : (d x y : ℕ) → digits tail op (d + x) x y ≡ digits tail op x x y
  digits_shrink zero x y = rw zero-add
  digits_shrink (suc d) x y =
      let more : suc d + x ≡ d + x + 1 = omega arith in
      rw more (sym (digits_enough (d + x) x y (omega arith)) ∙ digits_shrink d x y)

  lowest_digit :
      (x y : ℕ)
      → digits tail op x x y ≡ digits tail op (x / 2) (x / 2) (y / 2) * 2 + op (x % 2) (y % 2)
  lowest_digit zero y = tail_digits y
  lowest_digit (suc x) y =
      let room : x ≡ (x - suc x / 2) + suc x / 2 = omega arith in
      ap (λ r. r * 2 + op (suc x % 2) (y % 2))
        (ap (λ k. digits tail op k (suc x / 2) (y / 2)) room
          ∙ digits_shrink (x - suc x / 2) (suc x / 2) (y / 2))

pub bit_and_step : (a b : ℕ) → bit_and a b ≡ bit_and (a / 2) (b / 2) * 2 + min (a % 2) (b % 2)
bit_and_step a b =
    rw (bit_and-bitwise a b, bit_and-bitwise (a / 2) (b / 2))
      (lowest_digit min (λ _. 0) (λ y. omega arith) a b)

pub bit_or_step : (a b : ℕ) → bit_or a b ≡ bit_or (a / 2) (b / 2) * 2 + max (a % 2) (b % 2)
bit_or_step a b =
    rw (bit_or-bitwise a b, bit_or-bitwise (a / 2) (b / 2))
      (lowest_digit max (λ y. y) (λ y. omega arith) a b)

zero-bit_and : (b : ℕ) → bit_and 0 b ≡ 0
zero-bit_and = bit_and-bitwise 0

zero-bit_or : (b : ℕ) → bit_or 0 b ≡ b
zero-bit_or = bit_or-bitwise 0

-- Bit by bit.
pub bit-bit_and : (a b c : ℕ) → bit (bit_and a b) c ≡ (bit a c && bit b c)
unfolding bit
bit-bit_and a b zero = ground (arith, bit_and_step a b)
bit-bit_and a b (suc c) =
    let e : bit_and a b / 2 ≡ bit_and (a / 2) (b / 2) = omega (arith, bit_and_step a b) in
    rw e (bit-bit_and (a / 2) (b / 2) c)

pub bit-bit_or : (a b c : ℕ) → bit (bit_or a b) c ≡ (bit a c || bit b c)
unfolding bit
bit-bit_or a b zero = ground (arith, bit_or_step a b)
bit-bit_or a b (suc c) =
    let e : bit_or a b / 2 ≡ bit_or (a / 2) (b / 2) = omega (arith, bit_or_step a b) in
    rw e (bit-bit_or (a / 2) (b / 2) c)

pub bit-zero : (c : ℕ) → bit 0 c ≡ false
unfolding bit
bit-zero zero = refl
bit-zero (suc c) = bit-zero c

pub bit-pow : (b c : ℕ) → bit (2 ^ b) c ≡ (b == c)
unfolding bit
bit-pow zero zero = refl
bit-pow zero (suc c) = bit-zero c ∙ ground arith
bit-pow (suc b) zero = ground (arith, pow-suc 2 b)
bit-pow (suc b) (suc c) =
    let e : 2 ^ suc b / 2 ≡ 2 ^ b = omega (arith, pow-suc 2 b) in rw e (bit-pow b c ∙ ground arith)

-- The complement of a word of `n` bits.
pub bit-complement :
    (n w c : ℕ) → w < 2 ^ n → bit (2 ^ n - 1 - w) c ≡ (if ltb c n then not (bit w c) else false)
unfolding bit
bit-complement zero w c h =
    let e : 2 ^ 0 - 1 - w ≡ 0 = omega arith in rw e (bit-zero c ∙ ground arith)
bit-complement (suc n) w zero h = ground (arith, pow-suc 2 n)
bit-complement (suc n) w (suc c) h =
    let e : (2 ^ suc n - 1 - w) / 2 ≡ 2 ^ n - 1 - w / 2 = omega (arith, pow-suc 2 n) in
    rw e (bit-complement n (w / 2) c (omega (arith, pow-suc 2 n)) ∙ ground arith)

-- Words are equal if their bits are.
bit_zero_eq : (a b : ℕ) → bit a 0 ≡ bit b 0 → a % 2 ≡ b % 2
unfolding bit
bit_zero_eq a b h = ground arith

eq_of_bits_fuel : (k a b : ℕ) → a ≤ k → b ≤ k → ((c : ℕ) → bit a c ≡ bit b c) → a ≡ b
unfolding bit
eq_of_bits_fuel zero a b p q h = omega arith
eq_of_bits_fuel (suc k) a b p q h =
    let half : a / 2 ≡ b / 2 =
      eq_of_bits_fuel k (a / 2) (b / 2) (omega arith) (omega arith) (λ c. h (suc c)) in
    omega (arith, half, bit_zero_eq a b (h 0))

pub eq_of_bits : (a b : ℕ) → ((c : ℕ) → bit a c ≡ bit b c) → a ≡ b
eq_of_bits a b h = eq_of_bits_fuel (a + b) a b (omega arith) (omega arith) h

pub bit_and-zero : (a : ℕ) → bit_and a 0 ≡ 0
bit_and-zero a = eq_of_bits _ _ (λ c. ground (arith, bit-bit_and a 0 c, bit-zero c))

pub bit_or-zero : (a : ℕ) → bit_or a 0 ≡ a
bit_or-zero a = eq_of_bits _ _ (λ c. ground (arith, bit-bit_or a 0 c, bit-zero c))

-- `w & (1u << b)` is the test of bit `b`.
pub bit_and-pow : (w b : ℕ) → (bit_and w (2 ^ b) == 0) ≡ not (bit w b)
unfolding bit
bit_and-pow w zero = ground (arith, bit_and_step w 1, bit_and-zero (w / 2))
bit_and-pow w (suc b) =
    ground (arith, bit_and_step w (2 ^ suc b), pow_half b, pow_even b, bit_and-pow (w / 2) b)
  where
    pow_half : (b : ℕ) → 2 ^ suc b / 2 ≡ 2 ^ b
    pow_half b = omega (arith, pow-suc 2 b)

    pow_even : (b : ℕ) → 2 ^ suc b % 2 ≡ 0
    pow_even b = omega (arith, pow-suc 2 b)

pub bit_and-lt : (n a b : ℕ) → a < 2 ^ n → bit_and a b < 2 ^ n
bit_and-lt zero a b h = let e : a ≡ 0 = omega arith in rw (e, zero-bit_and) (omega arith)
bit_and-lt (suc n) a b h = omega (
  arith,
  bit_and_step a b,
  pow-suc 2 n,
  bit_and-lt n (a / 2) (b / 2) (omega (arith, pow-suc 2 n)),
)

pub bit_or-lt : (n a b : ℕ) → a < 2 ^ n → b < 2 ^ n → bit_or a b < 2 ^ n
bit_or-lt zero a b h k = let e : a ≡ 0 = omega arith in rw (e, zero-bit_or) k
bit_or-lt (suc n) a b h k = omega (
  arith,
  bit_or_step a b,
  pow-suc 2 n,
  bit_or-lt n (a / 2) (b / 2) (omega (arith, pow-suc 2 n)) (omega (arith, pow-suc 2 n)),
)

pub pow_pos : (n : ℕ) → 0 < 2 ^ n
pow_pos zero = omega arith
pow_pos (suc n) = omega (arith, pow-suc 2 n, pow_pos n)

pub pow-lt : (b n : ℕ) → b < n → 2 ^ b < 2 ^ n
pow-lt b zero h = elim h [ ]
pow-lt zero (suc n) h = omega (arith, pow-suc 2 n, pow_pos n)
pow-lt (suc b) (suc n) h = omega (arith, pow-suc 2 n, pow-suc 2 b, pow-lt b n (omega arith))

bit_and-ones : (n x : ℕ) → x < 2 ^ n → bit_and x (2 ^ n - 1) ≡ x
bit_and-ones zero x h = let e : x ≡ 0 = omega arith in rw (e, zero-bit_and)
bit_and-ones (suc n) x h =
    let e : (2 ^ suc n - 1) / 2 ≡ 2 ^ n - 1 = omega (arith, pow-suc 2 n, pow_pos n) in
    let s = bit_and_step x (2 ^ suc n - 1) in
    let ih = bit_and-ones n (x / 2) (omega (arith, pow-suc 2 n)) in
    omega (arith, rw e at s, ih, pow-suc 2 n, pow_pos n)

-- `x & ~(2 ^ k - 1)` on words of `n + k` bits rounds down to a multiple of `2 ^ k`.
pub bit_and-mask :
    (k n x : ℕ) → x < 2 ^ n * 2 ^ k → bit_and x ((2 ^ n - 1) * 2 ^ k) ≡ x / 2 ^ k * 2 ^ k
bit_and-mask zero n x h =
    let e : (2 ^ n - 1) * 2 ^ 0 ≡ 2 ^ n - 1 = omega arith in
    rw e (bit_and-ones n x (omega arith) ∙ omega arith)
bit_and-mask (suc k) n x h =
    let m = ap (λ t. (2 ^ n - 1) * t) (pow-suc 2 k) ∙ sym (mul_assoc (2 ^ n - 1) (2 ^ k) 2) in
    let l = ap (λ t. 2 ^ n * t) (pow-suc 2 k) ∙ sym (mul_assoc (2 ^ n) (2 ^ k) 2) in
    let e : (2 ^ n - 1) * 2 ^ suc k / 2 ≡ (2 ^ n - 1) * 2 ^ k = rw m (omega arith) in
    let s = bit_and_step x ((2 ^ n - 1) * 2 ^ suc k) in
    let ih = bit_and-mask k n (x / 2) (omega (arith, l)) in
    let d : x / 2 ^ suc k ≡ x / 2 / 2 ^ k =
      sym (div-div-eq-div-mul x 2 (2 ^ k) ∙ ap (λ t. x / t) (omega (arith, pow-suc 2 k))) in
    let q = ap (λ t. x / 2 / 2 ^ k * t) (pow-suc 2 k) ∙ sym (mul_assoc (x / 2 / 2 ^ k) (2 ^ k) 2) in
    rw d (omega (arith, rw e at s, m, ih, q))
