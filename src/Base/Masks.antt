-- ===== src/Base/Masks.antt =====
-- Low bits and joined fields of a word.
use Prim.Native.Nat.{ℕ, zero, suc, ◌+◌, ◌-◌, ◌*◌, ◌/◌, ◌%◌, ◌^◌, ◌<◌, bit_and, bit_or}
use mathlib.Core.Path.{◌≡◌, sym, ap, ◌∙◌}
use native.Mathlib.Nat.{pow-suc, mul_assoc, div-add-mod, div-div-eq-div-mul}
use native.Mathlib.Omega.{arith}
use os_ax.Base.Bits.{bit_and_step, bit_or_step, bit_and-zero, bit_or-zero, pow_pos}

mod_half : (n x : ℕ) → x % 2 ^ suc n ≡ x / 2 % 2 ^ n * 2 + x % 2
mod_half n x =
    let q = x / 2 / 2 ^ n in
    let d : x / 2 ^ suc n ≡ q =
      sym (div-div-eq-div-mul x 2 (2 ^ n) ∙ ap (λ t. x / t) (omega (arith, pow-suc 2 n))) in
    let whole = div-add-mod x (2 ^ suc n) in
    let half = div-add-mod (x / 2) (2 ^ n) in
    let m = ap (λ t. q * t) (pow-suc 2 n) ∙ sym (mul_assoc q (2 ^ n) 2) in
    omega (arith, rw d at whole, half, m)

-- `x & (2 ^ n - 1)`
pub bit_and_low : (n x : ℕ) → bit_and x (2 ^ n - 1) ≡ x % 2 ^ n
bit_and_low zero x = bit_and-zero x ∙ omega arith
bit_and_low (suc n) x =
    let e : (2 ^ suc n - 1) / 2 ≡ 2 ^ n - 1 = omega (arith, pow-suc 2 n, pow_pos n) in
    let s = bit_and_step x (2 ^ suc n - 1) in
    let m : x % 2 ^ suc n ≡ x / 2 % 2 ^ n * 2 + x % 2 = mod_half n x in
    omega (arith, rw e at s, bit_and_low n (x / 2), m, pow-suc 2 n, pow_pos n)

-- `(k << n) | v` for a `v` of `n` bits.
pub bit_or_join : (n k v : ℕ) → v < 2 ^ n → bit_or (k * 2 ^ n) v ≡ k * 2 ^ n + v
bit_or_join zero k v h =
    let e : k * 2 ^ 0 ≡ k = omega arith in
    let v_zero : v ≡ 0 = omega arith in rw (e, v_zero) (bit_or-zero k ∙ omega arith)
bit_or_join (suc n) k v h =
    let m = ap (λ t. k * t) (pow-suc 2 n) ∙ sym (mul_assoc k (2 ^ n) 2) in
    let e : k * 2 ^ suc n / 2 ≡ k * 2 ^ n = omega (arith, m) in
    let s = bit_or_step (k * 2 ^ suc n) v in
    omega (arith, rw e at s, m, bit_or_join n k (v / 2) (omega (arith, pow-suc 2 n)))
