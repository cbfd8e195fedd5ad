-- ===== src/Base/Distinct.antt =====
-- Lists of numbers without repetition, and their size below a bound.
use Prim.Native.Nat.{ℕ, zero, suc, ◌≤◌, ◌<◌}
use mathlib.Core.Path.{◌≡◌, refl}
use mathlib.Core.Logic.{inl, inr}
use mathlib.Core.Bool.{Bool, true, false, ◌||◌}
use mathlib.Core.List.{List, [], ◌∷◌}
use native.Mathlib.Omega.{arith}
use ixgbe82599_driver.Base.Tests.{Bool-cases, ◌==◌, if◌then◌else◌}
use ixgbe82599_driver.Base.Lists.{take, length, drop}

abbrev pub has : ℕ → List ℕ → Bool
has a [] = false
has a (x ∷ xs) = (a == x) || has a xs

abbrev pub Distinct : List ℕ → Type 0
Distinct [] = Unit
Distinct (x ∷ xs) = (has x xs ≡ false) × Distinct xs

abbrev pub AllBelow : ℕ → List ℕ → Type 0
AllBelow n [] = Unit
AllBelow n (x ∷ xs) = (x < n) × AllBelow n xs

pub has-drop : (k a : ℕ) (xs : List ℕ) → has a xs ≡ false → has a (drop k xs) ≡ false
has-drop zero a xs h = h
has-drop (suc k) a [] h = refl
has-drop (suc k) a (x ∷ xs) h = has-drop k a xs (ground arith)

pub Distinct-drop : (k : ℕ) (xs : List ℕ) → Distinct xs → Distinct (drop k xs)
Distinct-drop zero xs h = h
Distinct-drop (suc k) [] h = tt
Distinct-drop (suc k) (x ∷ xs) h = Distinct-drop k xs h.1

pub AllBelow-drop : (k n : ℕ) (xs : List ℕ) → AllBelow n xs → AllBelow n (drop k xs)
AllBelow-drop zero n xs h = h
AllBelow-drop (suc k) n [] h = tt
AllBelow-drop (suc k) n (x ∷ xs) h = AllBelow-drop k n xs h.1

pub AllBelow-has : (n a : ℕ) (xs : List ℕ) → AllBelow n xs → has a xs ≡ true → a < n
AllBelow-has n a [] h m = absurd (ground arith)
AllBelow-has n a (x ∷ xs) h m = ground (arith, AllBelow-has n a xs h.1)

-- What was taken from the front is not left.
pub has-take-drop :
    (k a : ℕ) (xs : List ℕ) → Distinct xs → has a (take k xs) ≡ true → has a (drop k xs) ≡ false
has-take-drop zero a xs d h = absurd (ground arith)
has-take-drop (suc k) a [] d h = refl
has-take-drop (suc k) a (x ∷ xs) d h = elim (Bool-cases (a == x)) [
  | inl same ↦ has-drop k a xs (ground (arith, d.0))
  | inr other ↦ has-take-drop k a xs d.1 (ground (arith, h))
]

has-take : (k a : ℕ) (xs : List ℕ) → has a xs ≡ false → has a (take k xs) ≡ false
has-take zero a xs h = refl
has-take (suc k) a [] h = refl
has-take (suc k) a (x ∷ xs) h = ground (arith, has-take k a xs)

pub Distinct-take : (k : ℕ) (xs : List ℕ) → Distinct xs → Distinct (take k xs)
Distinct-take zero xs d = tt
Distinct-take (suc k) [] d = tt
Distinct-take (suc k) (x ∷ xs) d = (has-take k x xs d.0, Distinct-take k xs d.1)

without : ℕ → List ℕ → List ℕ
without a [] = []
without a (x ∷ xs) = if x == a then without a xs else x ∷ without a xs

has-without : (a b : ℕ) (xs : List ℕ) → has b xs ≡ false → has b (without a xs) ≡ false
unfolding without
has-without a b [] h = refl
has-without a b (x ∷ xs) h = ground (arith, has-without a b xs)

without-eq : (a : ℕ) (xs : List ℕ) → has a xs ≡ false → without a xs ≡ xs
unfolding without
without-eq a [] h = refl
without-eq a (x ∷ xs) h = ground (arith, without-eq a xs)

Distinct-without : (a : ℕ) (xs : List ℕ) → Distinct xs → Distinct (without a xs)
unfolding without
Distinct-without a [] h = tt
Distinct-without a (x ∷ xs) h = ground (arith, Distinct-without a xs h.1, has-without a x xs h.0)

AllBelow-without : (n : ℕ) (xs : List ℕ) → AllBelow (suc n) xs → AllBelow n (without n xs)
unfolding without
AllBelow-without n [] h = tt
AllBelow-without n (x ∷ xs) h = ground (arith, AllBelow-without n xs h.1)

length-without : (a : ℕ) (xs : List ℕ) → Distinct xs → length xs ≤ suc (length (without a xs))
unfolding without
length-without a [] h = omega arith
length-without a (x ∷ xs) h = ground (arith, length-without a xs h.1, without-eq a xs)

-- Different numbers below n are at most n numbers.
pub length-le : (n : ℕ) (xs : List ℕ) → Distinct xs → AllBelow n xs → length xs ≤ n
length-le zero [] d b = omega arith
length-le zero (x ∷ xs) d b = absurd (omega arith)
length-le (suc n) xs d b = omega (
  arith,
  length-without n xs d,
  length-le n (without n xs) (Distinct-without n xs d) (AllBelow-without n xs b),
)
