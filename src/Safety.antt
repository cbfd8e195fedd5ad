-- ===== src/Safety.antt =====
-- Which accesses of the program are safe: those to a register of the device, and those within the
-- memory that the program has mapped for DMA.
pub mod Init
pub mod Queues
pub mod Rings
pub mod Transmit
pub mod Start
pub mod Sending
use mathlib.Core.Path.{subst}
use ixgbe82599_driver.Base.{
  ℕ, zero, suc, ◌+◌, ◌-◌, ◌%◌, ◌≤◌, ◌<◌, ◌≡◌, ◌⊎◌, inl, inr, refl, [], ◌∷◌, ◌++◌, Bool, true, false,
  some, pure, modify, ◌>>=◌, ◌>>◌, some-bind, if◌then◌else◌, arith,
}
use ixgbe82599_driver.World.{
  Event, store32, store64, load32, load16, usleep, memset, malloc, mmap, pagemap, call, Trace, Env,
  World, Run, emit,
}
use ixgbe82599_driver.Mmio.{
  set_reg32, get_reg32, set_flag32, unset_flag32, sleep_us, poll_reg32, wait_clear_reg32,
  wait_set_reg32,
}

-- The registers of the 82599 take 128 KiB from `addr` on, and are accessed as aligned words.
abbrev pub Register : (addr x : ℕ) → Type 0
Register addr x = (addr ≤ x) × (x + 4 ≤ addr + 0x20000) × ((x - addr) % 4 ≡ 0)

-- The n bytes from x on lie in the memory that an event maps.
abbrev pub InRegion : (x n : ℕ) → Event → Type 0
InRegion x n (store32 _ _) = ⊥
InRegion x n (store64 _ _) = ⊥
InRegion x n (load32 _ _) = ⊥
InRegion x n (load16 _ _) = ⊥
InRegion x n (usleep _) = ⊥
InRegion x n (memset _ _ _) = ⊥
InRegion x n (malloc _ _) = ⊥
InRegion x n (mmap _ size p) = (p ≤ x) × (x + n ≤ p + size)
InRegion x n (pagemap _ _) = ⊥
InRegion x n (call _ _) = ⊥

-- They lie in memory that was mapped before.
abbrev pub Mapped : (x n : ℕ) → Trace → Type 0
Mapped x n [] = ⊥
Mapped x n (e ∷ t) = InRegion x n e ⊎ Mapped x n t

-- An event is safe after the trace.
abbrev pub Safe : (addr : ℕ) → Event → Trace → Type 0
Safe addr (store32 x _) t = Register addr x ⊎ Mapped x 4 t
Safe addr (store64 x _) t = Mapped x 8 t
Safe addr (load32 x _) t = Register addr x ⊎ Mapped x 4 t
Safe addr (load16 x _) t = Mapped x 2 t
Safe addr (usleep _) t = Unit
Safe addr (memset x _ n) t = Mapped x n t
Safe addr (malloc _ _) t = Unit
Safe addr (mmap _ _ _) t = Unit
Safe addr (pagemap _ _) t = Unit
Safe addr (call _ _) t = Unit

-- Every event of the trace was safe.
abbrev pub AllSafe : (addr : ℕ) → Trace → Type 0
AllSafe addr [] = Unit
AllSafe addr (e ∷ t) = Safe addr e t × AllSafe addr t

pub Mapped-extended : (x n : ℕ) (new t : Trace) → Mapped x n t → Mapped x n (new ++ t)
Mapped-extended x n [] t h = h
Mapped-extended x n (e ∷ new) t h = inr (Mapped-extended x n new t h)

InRegion-part : (x n y k : ℕ) (e : Event) → InRegion x n e → x ≤ y → y + k ≤ x + n → InRegion y k e
InRegion-part x n y k (store32 _ _) h lo hi = elim h [ ]
InRegion-part x n y k (store64 _ _) h lo hi = elim h [ ]
InRegion-part x n y k (load32 _ _) h lo hi = elim h [ ]
InRegion-part x n y k (load16 _ _) h lo hi = elim h [ ]
InRegion-part x n y k (usleep _) h lo hi = elim h [ ]
InRegion-part x n y k (memset _ _ _) h lo hi = elim h [ ]
InRegion-part x n y k (malloc _ _) h lo hi = elim h [ ]
InRegion-part x n y k (pagemap _ _) h lo hi = elim h [ ]
InRegion-part x n y k (call _ _) h lo hi = elim h [ ]
InRegion-part x n y k (mmap file size p) h lo hi = omega (arith, h)

pub Mapped-part : (x n y k : ℕ) (t : Trace) → Mapped x n t → x ≤ y → y + k ≤ x + n → Mapped y k t
Mapped-part x n y k [] h lo hi = elim h [ ]
Mapped-part x n y k (e ∷ t) (inl h) lo hi = inl (InRegion-part x n y k e h lo hi)
Mapped-part x n y k (e ∷ t) (inr h) lo hi = inr (Mapped-part x n y k t h lo hi)

module _ (addr : ℕ) where
  -- A run that returns has done nothing unsafe.
  abbrev pub StaysSafe : {A : Type 0} → Run A → Type 0
  StaysSafe {A} m =
      (w w' : World) (a : A) → AllSafe addr w.trace → m w ≡ some (a, w') → AllSafe addr w'.trace

  pub StaysSafe-bind :
      {A B : Type 0} (m : Run A) (k : A → Run B)
      → StaysSafe m
      → ((a : A) → StaysSafe (k a))
      → StaysSafe (m >>= k)
  StaysSafe-bind m k hm hk w w' b s e =
      let (a, u, first, rest) = some-bind m k w w' b e in hk a u w' b (hm w u a s first) rest

  -- A run with only one outcome.
  pub StaysSafe-outcome :
      {A : Type 0} (m : Run A)
      → ((w : World)
          → (a : A) × (w' : World) × (m w ≡ some (a, w'))
            × (AllSafe addr w.trace → AllSafe addr w'.trace))
      → StaysSafe m
  StaysSafe-outcome m h w w' a s e =
      let (b, u, run, safe) = h w in
      let same : u ≡ w' = cc (run, e) in subst (λ (v : World). AllSafe addr v.trace) same (safe s)

  pub StaysSafe-pure : {A : Type 0} (a : A) → StaysSafe (pure a)
  StaysSafe-pure a = StaysSafe-outcome (pure a) (λ w. (a, w, refl, λ s. s))

  pub StaysSafe-if :
      {A : Type 0} (b : Bool) (m n : Run A)
      → StaysSafe m
      → StaysSafe n
      → StaysSafe (if b then m else n)
  StaysSafe-if true m n h k = h
  StaysSafe-if false m n h k = k

  pub StaysSafe-set_reg32 :
      (reg value : ℕ) → Register addr (addr + reg) → StaysSafe (set_reg32 addr reg value)
  unfolding set_reg32
  StaysSafe-set_reg32 reg value ok = StaysSafe-outcome _ (λ w. (tt, _, refl, λ s. (inl ok, s)))

  pub StaysSafe-sleep_us : (us : ℕ) → StaysSafe (sleep_us us)
  unfolding sleep_us
  StaysSafe-sleep_us us = StaysSafe-outcome _ (λ w. (tt, _, refl, λ s. (tt, s)))

  module _ (env : Env) (reg : ℕ) (ok : Register addr (addr + reg)) where
    pub StaysSafe-get_reg32 : StaysSafe (get_reg32 env addr reg)
    unfolding get_reg32
    StaysSafe-get_reg32 = StaysSafe-outcome _ (λ w. (_, _, refl, λ s. (inl ok, s)))

    pub StaysSafe-set_flag32 : (flag : ℕ) → StaysSafe (set_flag32 env addr reg flag)
    unfolding set_flag32 get_reg32 set_reg32
    StaysSafe-set_flag32 flag = StaysSafe-outcome _ (λ w. (tt, _, refl, λ s. (inl ok, (inl ok, s))))

    pub StaysSafe-unset_flag32 : (flag : ℕ) → StaysSafe (unset_flag32 env addr reg flag)
    unfolding unset_flag32 get_reg32 set_reg32
    StaysSafe-unset_flag32 flag =
        StaysSafe-outcome _ (λ w. (tt, _, refl, λ s. (inl ok, (inl ok, s))))

    StaysSafe-poll_reg32 :
        (fuel : ℕ) (waiting : ℕ → Bool) → StaysSafe (poll_reg32 env fuel addr reg waiting)
    unfolding poll_reg32
    StaysSafe-poll_reg32 zero waiting w w' a s e = absurd (cc e)
    StaysSafe-poll_reg32 (suc fuel) waiting w w' a s e =
        StaysSafe-bind (get_reg32 env addr reg) _ StaysSafe-get_reg32
          (λ cur.
            StaysSafe-if (waiting cur) _ (pure tt)
              (StaysSafe-bind (sleep_us 10000) _ (StaysSafe-sleep_us 10000)
                (λ _. StaysSafe-poll_reg32 fuel waiting))
              (StaysSafe-pure tt))
          w w' a s e

    pub StaysSafe-wait_set_reg32 :
        (fuel mask : ℕ) → StaysSafe (wait_set_reg32 env fuel addr reg mask)
    unfolding wait_set_reg32
    StaysSafe-wait_set_reg32 fuel mask = StaysSafe-poll_reg32 fuel _

    pub StaysSafe-wait_clear_reg32 :
        (fuel mask : ℕ) → StaysSafe (wait_clear_reg32 env fuel addr reg mask)
    unfolding wait_clear_reg32
    StaysSafe-wait_clear_reg32 fuel mask = StaysSafe-poll_reg32 fuel _
