-- ===== src/Mmio/Talks.antt =====
-- Runs that only talk to the device: they make the trace longer and change nothing else.
use ixgbe82599_driver.Base.{
  ℕ, zero, suc, Bool, true, false, ◌+◌, ◌%◌, ◌^◌, if◌then◌else◌, ◌≡◌, refl, sym, ap, ◌∙◌, [], ◌∷◌,
  ◌++◌, some, pure, modify, ◌>>=◌, some-bind, bit_or, bit_and, ◌>>◌,
}
use mathlib.Core.List.{append_assoc}
use mathlib.Core.Path.{subst}
use ixgbe82599_driver.World.{Event, Trace, Env, World, Run, emit}
use ixgbe82599_driver.Mmio.{
  set_reg32, get_reg32, set_flag32, unset_flag32, sleep_us, poll_reg32, wait_clear_reg32,
  wait_set_reg32, complement32,
}

-- The second trace goes on from the first.
abbrev pub Extends : Trace → Trace → Type 0
Extends t t' = (new : Trace) × (t' ≡ new ++ t)

Extends-trans : (t u v : Trace) → Extends t u → Extends u v → Extends t v
Extends-trans t u v (a, p) (b, q) = (b ++ a, q ∙ (ap (λ x. b ++ x) p ∙ sym (append_assoc b a t)))

-- A run that returns has made the trace longer.
abbrev pub Grows : {A : Type 0} → Run A → Type 0
Grows {A} m = (w w' : World) (a : A) → m w ≡ some (a, w') → Extends w.trace w'.trace

-- A run that returns has done no more than that to the world.
abbrev pub Talks : {A : Type 0} → Run A → Type 0
Talks {A} m =
    (w w' : World) (a : A)
    → m w ≡ some (a, w')
    → Extends w.trace w'.trace × (w' ≡ record w { trace = w'.trace })

pub Talks-Grows : {A : Type 0} (m : Run A) → Talks m → Grows m
Talks-Grows m h w w' a e = (h w w' a e).0

pub Grows-bind :
    {A B : Type 0} (m : Run A) (k : A → Run B) → Grows m → ((a : A) → Grows (k a)) → Grows (m >>= k)
Grows-bind m k hm hk w w' b e =
    let (a, u, first, rest) = some-bind m k w w' b e in
    Extends-trans w.trace u.trace w'.trace (hm w u a first) (hk a u w' b rest)

pub Talks-bind :
    {A B : Type 0} (m : Run A) (k : A → Run B) → Talks m → ((a : A) → Talks (k a)) → Talks (m >>= k)
Talks-bind m k hm hk w w' b e =
    let (a, u, first, rest) = some-bind m k w w' b e in
    let h = hm w u a first in
    let g = hk a u w' b rest in
    (
      Extends-trans w.trace u.trace w'.trace h.0 g.0,
      g.1 ∙ ap (λ (v : World). record v { trace = w'.trace }) h.1,
    )

pub Talks-pure : {A : Type 0} (a : A) → Talks (pure a)
Talks-pure a w w' b e =
    let same : w ≡ w' = cc e in
    subst (λ v. Extends w.trace v.trace × (v ≡ record w { trace = v.trace })) same
      (([], refl), refl)

pub Talks-emit : (e : Event) → Talks (modify (emit e))
Talks-emit e w w' b h =
    let same : emit e w ≡ w' = cc h in
    subst (λ v. Extends w.trace v.trace × (v ≡ record w { trace = v.trace })) same
      ((e ∷ [], refl), refl)

pub Talks-if :
    {A : Type 0} (b : Bool) (m n : Run A) → Talks m → Talks n → Talks (if b then m else n)
Talks-if true m n h k = h
Talks-if false m n h k = k

pub Talks-set_reg32 : (addr reg value : ℕ) → Talks (set_reg32 addr reg value)
unfolding set_reg32
Talks-set_reg32 addr reg value = Talks-emit _

pub Talks-sleep_us : (us : ℕ) → Talks (sleep_us us)
unfolding sleep_us
Talks-sleep_us us = Talks-emit _

-- A step, and what comes after it.
pub set_reg32_then :
    {B : Type 0} (addr reg value : ℕ) (k : Run B) → Talks k → Talks (set_reg32 addr reg value >> k)
set_reg32_then addr reg value k h =
    Talks-bind (set_reg32 addr reg value) (λ _. k) (Talks-set_reg32 addr reg value) (λ _. h)

module _ (env : Env) where
  pub Talks-get_reg32 : (addr reg : ℕ) → Talks (get_reg32 env addr reg)
  unfolding get_reg32
  Talks-get_reg32 addr reg w w' b h =
      let e = Event.load32 (addr + reg) (env.read w.trace (addr + reg) % 2 ^ 32) in
      Talks-emit e w w' tt (cc h)

  pub Talks-set_flag32 : (addr reg flag : ℕ) → Talks (set_flag32 env addr reg flag)
  unfolding set_flag32
  Talks-set_flag32 addr reg flag =
      Talks-bind (get_reg32 env addr reg) _ (Talks-get_reg32 addr reg)
        λ value. Talks-set_reg32 addr reg (bit_or value flag)

  pub Talks-unset_flag32 : (addr reg flag : ℕ) → Talks (unset_flag32 env addr reg flag)
  unfolding unset_flag32
  Talks-unset_flag32 addr reg flag =
      Talks-bind (get_reg32 env addr reg) _ (Talks-get_reg32 addr reg)
        λ value. Talks-set_reg32 addr reg (bit_and value (complement32 flag))

  pub get_reg32_then :
      {B : Type 0} (addr reg : ℕ) (k : ℕ → Run B)
      → ((value : ℕ) → Talks (k value))
      → Talks (get_reg32 env addr reg >>= k)
  get_reg32_then addr reg k h = Talks-bind (get_reg32 env addr reg) k (Talks-get_reg32 addr reg) h

  pub set_flag32_then :
      {B : Type 0} (addr reg flag : ℕ) (k : Run B)
      → Talks k
      → Talks (set_flag32 env addr reg flag >> k)
  set_flag32_then addr reg flag k h =
      Talks-bind (set_flag32 env addr reg flag) (λ _. k) (Talks-set_flag32 addr reg flag) (λ _. h)

  Talks-poll_reg32 :
      (fuel addr reg : ℕ) (waiting : ℕ → Bool) → Talks (poll_reg32 env fuel addr reg waiting)
  unfolding poll_reg32
  Talks-poll_reg32 zero addr reg waiting w w' b h = absurd (cc h)
  Talks-poll_reg32 (suc fuel) addr reg waiting w w' b h =
      Talks-bind (get_reg32 env addr reg) _ (Talks-get_reg32 addr reg)
        (λ cur.
          Talks-if (waiting cur) _ (pure tt)
            (Talks-bind (sleep_us 10000) _ (Talks-sleep_us 10000)
              (λ _. Talks-poll_reg32 fuel addr reg waiting))
            (Talks-pure tt))
        w w' b h

  pub Talks-wait_set_reg32 :
      (fuel addr reg mask : ℕ) → Talks (wait_set_reg32 env fuel addr reg mask)
  unfolding wait_set_reg32
  Talks-wait_set_reg32 fuel addr reg mask = Talks-poll_reg32 fuel addr reg _

  pub Talks-wait_clear_reg32 :
      (fuel addr reg mask : ℕ) → Talks (wait_clear_reg32 env fuel addr reg mask)
  unfolding wait_clear_reg32
  Talks-wait_clear_reg32 fuel addr reg mask = Talks-poll_reg32 fuel addr reg _

pub Extends-refl : (t : Trace) → Extends t t
Extends-refl t = ([], refl)

pub Extends-cons : (e : Event) {t t' : Trace} → Extends t t' → Extends t (e ∷ t')
Extends-cons e (new, p) = (e ∷ new, ap (λ u. e ∷ u) p)

-- A run with only one outcome.
pub Grows-outcome :
    {A : Type 0} (m : Run A)
    → ((w : World) → (a : A) × (w' : World) × (m w ≡ some (a, w')) × Extends w.trace w'.trace)
    → Grows m
Grows-outcome m h w w' a e =
    let (b, u, run, more) = h w in
    let same : u ≡ w' = cc (run, e) in subst (λ v. Extends w.trace v.trace) same more
