-- ===== src/Base/Keeps.antt =====
-- What a computation leaves alone: an observation of the state that no successful run changes.
use mathlib.Core.Path.{◌≡◌, refl, ap, sym, ◌∙◌}
use mathlib.Core.Option.{Option, none, some}
use ixgbe82599_driver.Base.Fault.{M, ◌>>=◌, pure, modify, get, lift}

abbrev pub Keeps : {S X : Type 0} → (S → X) → {A : Type 0} → M S A → Type 0
Keeps {S} f {A} m = (s s' : S) (a : A) → m s ≡ some (a, s') → f s' ≡ f s

module _ {S X : Type 0} (f : S → X) where
  pub Keeps-pure : {A : Type 0} (a : A) → Keeps f (pure {S = S} a)
  Keeps-pure a s s' b h = ap f (cc h)

  pub Keeps-get : Keeps f (get {S = S})
  Keeps-get s s' b h = ap f (cc h)

  pub Keeps-modify : (g : S → S) → ((s : S) → f (g s) ≡ f s) → Keeps f (modify g)
  Keeps-modify g k s s' b h = ap f (cc h) ∙ k s

  pub Keeps-lift : {A : Type 0} (o : Option A) → Keeps f (lift {S = S} o)
  Keeps-lift none s s' b h = absurd (cc h)
  Keeps-lift (some a) s s' b h = ap f (cc h)

  pub Keeps-bind :
      {A B : Type 0} (m : M S A) (k : A → M S B)
      → Keeps f m
      → ((a : A) → Keeps f (k a))
      → Keeps f (m >>= k)
  Keeps-bind m k hm hk s s' b h = go (m s) refl h
    where
      go :
          (o : Option _)
          → m s ≡ o
          → elim o [ none ↦ none | some (a, t) ↦ k a t ] ≡ some (b, s')
          → f s' ≡ f s
      go none e r = absurd (cc r)
      go (some (a, t)) e r = hk a t s' b r ∙ hm s t a e

  -- A run with only one outcome.
  pub Keeps-outcome :
      {A : Type 0} (m : M S A)
      → ((s : S) → (a : A) × (s' : S) × (m s ≡ some (a, s')) × (f s' ≡ f s))
      → Keeps f m
  Keeps-outcome m h s s' b e =
      let (a, t, run, same) = h s in let end : t ≡ s' = cc (run, e) in ap f (sym end) ∙ same
