-- ===== src/Base/Triple.antt =====
-- What holds after every successful run of a computation that starts where a condition holds.
use mathlib.Core.Path.{◌≡◌, refl, subst}
use mathlib.Core.Option.{Option, none, some}
use mathlib.Core.Bool.{Bool, true, false}
use ixgbe82599_driver.Base.Tests.{if◌then◌else◌}
use ixgbe82599_driver.Base.Fault.{M, ◌>>=◌, pure, get}

abbrev pub Triple : {S A : Type 0} → (S → Type 0) → M S A → (A → S → Type 0) → Type 0
Triple {S} {A} P m Q = (s s' : S) (a : A) → P s → m s ≡ some (a, s') → Q a s'

module _ {S : Type 0} where
  pub Triple-bind :
      {A B : Type 0} (P : S → Type 0) (Q : A → S → Type 0) (R : B → S → Type 0) (m : M S A)
      (k : A → M S B)
      → Triple P m Q
      → ((a : A) → Triple (Q a) (k a) R)
      → Triple P (m >>= k) R
  Triple-bind P Q R m k hm hk s s' b p h = go (m s) refl h
    where
      go :
          (o : Option _)
          → m s ≡ o
          → elim o [ none ↦ none | some (a, t) ↦ k a t ] ≡ some (b, s')
          → R b s'
      go none e r = absurd (cc r)
      go (some (a, t)) e r = hk a t s' b (hm s t a p e) r

  pub Triple-pure :
      {A : Type 0} (P : S → Type 0) (Q : A → S → Type 0) (a : A)
      → ((s : S) → P s → Q a s)
      → Triple P (pure a) Q
  Triple-pure P Q a k s s' b p h =
      subst (λ (o : Option _). elim o [ none ↦ Unit | some (c, t) ↦ Q c t ]) h (k s p)

  pub Triple-get : (P : S → Type 0) → Triple P get (λ u s. P u × P s)
  Triple-get P s s' b p h =
      subst (λ (o : Option (S × S)). elim o [ none ↦ Unit | some (c, t) ↦ P c × P t ]) h (p, p)

  pub Triple-if :
      {A : Type 0} (P : S → Type 0) (Q : A → S → Type 0) (b : Bool) (m n : M S A)
      → Triple P m Q
      → Triple P n Q
      → Triple P (if b then m else n) Q
  Triple-if P Q true m n h k = h
  Triple-if P Q false m n h k = k
