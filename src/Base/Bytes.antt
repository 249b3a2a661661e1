-- ===== src/Base/Bytes.antt =====
-- Numbers as bytes in memory, the lowest first.
use native.Mathlib.Nat.{pow-suc}
use os_ax.Base.Lists.{length}
use Prim.Native.Nat.{ℕ, zero, suc, ◌+◌, ◌*◌, ◌/◌, ◌%◌, ◌^◌, ◌<◌}
use mathlib.Core.Path.{◌≡◌, refl, ap}
use mathlib.Core.List.{List, [], ◌∷◌}
use native.Mathlib.Omega.{arith}

abbrev pub le_bytes : ℕ → ℕ → List ℕ
le_bytes zero x = []
le_bytes (suc n) x = x % 256 ∷ le_bytes n (x / 256)

abbrev pub of_bytes : List ℕ → ℕ
of_bytes [] = 0
of_bytes (b ∷ bs) = b + 256 * of_bytes bs

pub length-le_bytes : (n x : ℕ) → length (le_bytes n x) ≡ n
length-le_bytes zero x = refl
length-le_bytes (suc n) x = ap suc (length-le_bytes n (x / 256))

pub of_bytes-le_bytes : (n x : ℕ) → x < 256 ^ n → of_bytes (le_bytes n x) ≡ x
of_bytes-le_bytes zero x h = omega arith
of_bytes-le_bytes (suc n) x h =
    omega (arith, of_bytes-le_bytes n (x / 256) (omega (arith, pow-suc 256 n)))
