-- ===== src/Base/Count.antt =====
-- How many numbers below a bound pass a test.
use Prim.Native.Nat.{ℕ, zero, suc, ◌+◌, ◌≤◌, ◌<◌}
use mathlib.Core.Path.{◌≡◌, refl}
use mathlib.Core.Logic.{◌≢◌}
use mathlib.Core.Bool.{Bool, true, false}
use native.Mathlib.Decide.{ℕ_discrete}
use native.Mathlib.Omega.{arith}
use os_ax.Base.Tests.{if◌then◌else◌}

unfoldable pub count : (ℕ → Bool) → ℕ → ℕ
count p zero = 0
count p (suc n) = count p n + (if p n then 1 else 0)

pub count-le : (p : ℕ → Bool) (n : ℕ) → count p n ≤ n
unfolding count
count-le p zero = omega arith
count-le p (suc n) = ground (arith, count-le p n)

-- The bound leaves a number that fails the test out of the count.
pub count-lt : (p : ℕ → Bool) (n i : ℕ) → i < n → p i ≡ false → count p n < n
unfolding count
count-lt p zero i h f = elim h [ ]
count-lt p (suc n) i h f = grind (arith, count-le p n, λ (k : i < n). count-lt p n i k f)

pub count_ext : (p q : ℕ → Bool) (n : ℕ) → ((j : ℕ) → j < n → p j ≡ q j) → count p n ≡ count q n
unfolding count
count_ext p q zero h = refl
count_ext p q (suc n) h =
    ground (arith, h n (omega arith), count_ext p q n (λ j k. h j (omega arith)))

-- Turning one number's test from false to true adds one.
pub count_flip :
    (p q : ℕ → Bool) (n i : ℕ)
    → i < n
    → p i ≡ false
    → q i ≡ true
    → ((j : ℕ) → j ≢ i → p j ≡ q j)
    → count q n ≡ count p n + 1
unfolding count
count_flip p q zero i h f t same = elim h [ ]
count_flip p q (suc n) i h f t same = elim (ℕ_discrete n i) [
  | yes e ↦ ground (
    arith,
    rw (← e) at f,
    rw (← e) at t,
    count_ext p q n (λ j k. same j (λ d. absurd (omega arith))),
  )
  | no d ↦ ground (arith, same n d, count_flip p q n i (omega arith) f t same)
]
