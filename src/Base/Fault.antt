-- ===== src/Base/Fault.antt =====
-- Computations over a state that may fault: `none` is a fault (a wild pointer, an access out of
-- bounds) or, for a polling loop on fuel, a loop that has not ended yet.
use mathlib.Core.Path.{◌≡◌, refl}
use mathlib.Core.Option.{Option, none, some}

abbrev pub M : Type 0 → Type 0 → Type 0
M S A = S → Option (A × S)

module _ {S : Type 0} where
  abbrev pub pure : {A : Type 0} → A → M S A
  pure a s = some (a, s)

  abbrev pub fault : {A : Type 0} → M S A
  fault s = none

  infixl 5 ◌>>=◌ ◌>>◌
  abbrev pub ◌>>=◌ : {A B : Type 0} → M S A → (A → M S B) → M S B
  ◌>>=◌ m f s = elim (m s) [ none ↦ none | some (a, s') ↦ f a s' ]

  abbrev pub ◌>>◌ : {A B : Type 0} → M S A → M S B → M S B
  m >> k = m >>= λ _. k

  abbrev pub get : M S S
  get s = some (s, s)

  abbrev pub modify : (S → S) → M S (Unit {0})
  modify f s = some (tt, f s)

  abbrev pub lift : {A : Type 0} → Option A → M S A
  lift o s = elim o [ none ↦ none | some a ↦ some (a, s) ]

-- A step that succeeds hands its result and its state on.
pub bind-some :
    {S A B : Type 0} (m : M S A) (f : A → M S B) {s s' : S} {a : A}
    → m s ≡ some (a, s')
    → (m >>= f) s ≡ f a s'
bind-some m f e = rw (e, ◌>>=◌)

-- A run that succeeds has succeeded in its first step.
pub some-bind :
    {S A B : Type 0} (m : M S A) (f : A → M S B) (s s' : S) (b : B)
    → (m >>= f) s ≡ some (b, s')
    → (a : A) × (t : S) × (m s ≡ some (a, t)) × (f a t ≡ some (b, s'))
some-bind m f s s' b h = go (m s) refl h
  where
    go :
        (o : Option _)
        → m s ≡ o
        → elim o [ none ↦ none | some (a, t) ↦ f a t ] ≡ some (b, s')
        → (a : _) × (t : _) × (m s ≡ some (a, t)) × (f a t ≡ some (b, s'))
    go none e r = absurd (cc r)
    go (some (a, t)) e r = (a, t, e, r)
