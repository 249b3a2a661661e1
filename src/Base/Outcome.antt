-- ===== src/Base/Outcome.antt =====
-- What running code that follows pointers comes to: a value, a fault (a read through a pointer to
-- nothing), or more rounds of a loop than the fuel that the model was given.
use mathlib.Core.Path.{◌≡◌, refl}
use mathlib.Core.Logic.{◌≢◌}
use mathlib.Core.Bool.{Bool, true, false}
use os_ax.Base.Tests.{if◌then◌else◌}
use mathlib.Core.Option.{Option, none, some}

pub data Outcome (A : Type 0) : Type 0 where
  done : A → Outcome A
  fault : Outcome A
  out_of_fuel : Outcome A

infixl 5 ◌>>=◌
abbrev pub ◌>>=◌ : {A B : Type 0} → Outcome A → (A → Outcome B) → Outcome B
done a >>= f = f a
fault >>= f = fault
out_of_fuel >>= f = out_of_fuel

-- The value behind a pointer.
abbrev pub read : {A : Type 0} → Option A → Outcome A
read none = fault
read (some a) = done a

-- A chain has fuel enough if each of its parts has.
pub bind_returns :
    {A B : Type 0} (r : Outcome A) (f : A → Outcome B)
    → r ≢ out_of_fuel
    → ((a : A) → r ≡ done a → f a ≢ out_of_fuel)
    → r >>= f ≢ out_of_fuel
bind_returns (done a) f h more = more a refl
bind_returns fault f h more = λ e. cc
bind_returns out_of_fuel f h more = λ e. h refl

pub if_returns :
    {A : Type 0} (b : Bool) (r r' : Outcome A)
    → r ≢ out_of_fuel
    → r' ≢ out_of_fuel
    → (if b then r else r') ≢ out_of_fuel
if_returns true r r' h h' = h
if_returns false r r' h h' = h'
