-- ===== src/Base/Count.antt =====
-- How often a number occurs in a list.
use Prim.Native.Nat.{ℕ, suc, ◌+◌, ◌≤◌}
use mathlib.Core.Path.{◌≡◌, refl, ap, sym, ◌∙◌}
use mathlib.Core.Logic.{inl, inr}
use mathlib.Core.Bool.{true, false}
use mathlib.Core.List.{List, [], ◌∷◌, ◌++◌}
use native.Mathlib.Omega.{arith}
use native.Mathlib.Decide.{dec_lt}
use ixgbe82599_driver.Base.Tests.{Bool-cases, lt→ltb, ltb, ◌==◌, if◌then◌else◌}
use ixgbe82599_driver.Base.Lists.{take, length, drop, take-append-drop}
use ixgbe82599_driver.Base.Distinct.{has, Distinct, AllBelow, length-le, AllBelow-has}

unfoldable pub count : ℕ → List ℕ → ℕ
count a [] = 0
count a (x ∷ xs) = if a == x then suc (count a xs) else count a xs

pub count-append : (a : ℕ) (xs ys : List ℕ) → count a (xs ++ ys) ≡ count a xs + count a ys
unfolding count
count-append a [] ys = omega arith
count-append a (x ∷ xs) ys = ground (arith, count-append a xs ys)

pub count-take-drop :
    (k a : ℕ) (xs : List ℕ) → count a (take k xs) + count a (drop k xs) ≡ count a xs
count-take-drop k a xs =
    sym (count-append a (take k xs) (drop k xs)) ∙ ap (count a) (take-append-drop k xs)

pub count-middle :
    (a x : ℕ) (xs ys : List ℕ) → count a (xs ++ x ∷ ys) ≡ count a (x ∷ xs) + count a ys
unfolding count
count-middle a x xs ys = ground (arith, count-append a xs (x ∷ ys))

pub count-cons : (a x : ℕ) (xs : List ℕ) → count a (x ∷ xs) ≡ count a (x ∷ []) + count a xs
unfolding count
count-cons a x xs = ground arith

pub count_self : (a : ℕ) (xs : List ℕ) → count a (a ∷ xs) ≡ suc (count a xs)
unfolding count
count_self a xs = ground arith

pub has-count_zero : (a : ℕ) (xs : List ℕ) → count a xs ≡ 0 → has a xs ≡ false
unfolding count
has-count_zero a [] h = refl
has-count_zero a (x ∷ xs) h = ground (arith, has-count_zero a xs)

pub count-has : (a : ℕ) (xs : List ℕ) → has a xs ≡ false → count a xs ≡ 0
unfolding count
count-has a [] h = refl
count-has a (x ∷ xs) h = ground (arith, count-has a xs)

pub count-tail : (a x : ℕ) (xs : List ℕ) → count a xs ≤ count a (x ∷ xs)
unfolding count
count-tail a x xs = ground arith

pub Distinct-count : (xs : List ℕ) → ((a : ℕ) → count a xs ≤ 1) → Distinct xs
Distinct-count [] h = tt
Distinct-count (x ∷ xs) h = (
  has-count_zero x xs (omega (arith, h x, count_self x xs)),
  Distinct-count xs (λ a. omega (arith, h a, count-tail a x xs)),
)

count-Distinct : (a : ℕ) (xs : List ℕ) → Distinct xs → has a xs ≡ true → count a xs ≡ 1
unfolding count
count-Distinct a [] d h = absurd (cc h)
count-Distinct a (x ∷ xs) d h = ground (arith, d.0, count-has x xs, count-Distinct a xs d.1)

count-AllBelow : (n a : ℕ) (xs : List ℕ) → AllBelow n xs → n ≤ a → count a xs ≡ 0
unfolding count
count-AllBelow n a [] b h = refl
count-AllBelow n a (x ∷ xs) b h = ground (arith, b.0, count-AllBelow n a xs b.1)

-- n different numbers below n are all of them.
pub count_all :
    (n a : ℕ) (xs : List ℕ)
    → Distinct xs
    → AllBelow n xs
    → length xs ≡ n
    → count a xs ≡ (if ltb a n then 1 else 0)
count_all n a xs d b e = elim (Bool-cases (has a xs)) [
  | inl in_list ↦
      rw (count-Distinct a xs d in_list, lt→ltb a n (AllBelow-has n a xs b in_list)) refl
  | inr missing ↦ rw (count-has a xs missing) (ground (arith, more missing))
]
  where
    more : has a xs ≡ false → n ≤ a
    more missing = elim (dec_lt a n) [
      | no h ↦ omega arith
      | yes h ↦ absurd (omega (arith, length-le n (a ∷ xs) (missing, d) (h, b), e))
    ]

pub AllBelow-count : (n : ℕ) (xs : List ℕ) → ((a : ℕ) → n ≤ a → count a xs ≡ 0) → AllBelow n xs
AllBelow-count n [] h = tt
AllBelow-count n (x ∷ xs) h = (
  elim (dec_lt x n) [ yes lt ↦ lt | no ge ↦ absurd (omega (arith, h x, count_self x xs)) ],
  AllBelow-count n xs (λ a ge. omega (arith, h a ge, count-tail a x xs)),
)
