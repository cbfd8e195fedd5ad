-- ===== src/Base/Countdown.antt =====
-- The numbers below n, from the largest to 0.
use Prim.Native.Nat.{ℕ, zero, suc, ◌≤◌, ◌<◌}
use mathlib.Core.Path.{◌≡◌, refl, ap}
use mathlib.Core.Bool.{true, false}
use mathlib.Core.List.{List, [], ◌∷◌}
use native.Mathlib.Omega.{arith}
use ixgbe82599_driver.Base.Lists.{length}
use ixgbe82599_driver.Base.Distinct.{has, Distinct, AllBelow}

-- n - 1, .., 0.
abbrev pub down_from : ℕ → List ℕ
down_from zero = []
down_from (suc n) = n ∷ down_from n

pub length-down_from : (n : ℕ) → length (down_from n) ≡ n
length-down_from zero = refl
length-down_from (suc n) = ap suc (length-down_from n)

has-down_from : (a n : ℕ) → n ≤ a → has a (down_from n) ≡ false
has-down_from a zero h = refl
has-down_from a (suc n) h = ground (arith, has-down_from a n)

-- All numbers below n are there.
pub has-down_from_below : (a n : ℕ) → a < n → has a (down_from n) ≡ true
has-down_from_below a zero h = absurd (omega arith)
has-down_from_below a (suc n) h = ground (arith, has-down_from_below a n)

pub Distinct-down_from : (n : ℕ) → Distinct (down_from n)
Distinct-down_from zero = tt
Distinct-down_from (suc n) = (has-down_from n n (omega arith), Distinct-down_from n)

pub AllBelow-down_from : (m n : ℕ) → n ≤ m → AllBelow m (down_from n)
AllBelow-down_from m zero h = tt
AllBelow-down_from m (suc n) h = (h, AllBelow-down_from m n (omega arith))
