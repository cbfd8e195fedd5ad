-- ===== src/Mmio/Polling.antt =====
-- When the polling loops of lib.h end, and what the device answered then.
use ixgbe82599_driver.Base.{
  ℕ, zero, suc, ◌+◌, ◌%◌, ◌^◌, ◌<◌, ◌≡◌, ◌≢◌, inl, inr, Bool, true, false, Bool-cases, some, ◌∷◌,
  ne→==, arith, bit_and,
}
use ixgbe82599_driver.World.{Event, Trace, Env, World}
use ixgbe82599_driver.Mmio.{get_reg32, poll_reg32, sleep_us, wait_clear_reg32, wait_set_reg32}

module _ (env : Env) (addr reg : ℕ) where
  -- What a load of the register gives after a trace.
  abbrev pub answer : Trace → ℕ
  answer t = env.read t (addr + reg) % 2 ^ 32

  -- The trace after n rounds of a loop that loads the register and sleeps.
  abbrev pub polled : ℕ → Trace → Trace
  polled zero t = t
  polled (suc n) t = polled n (Event.usleep 10000 ∷ Event.load32 (addr + reg) (answer t) ∷ t)

  -- The world in which the loop ends when round n is the first that need not wait.
  abbrev pub ended : ℕ → World → World
  ended n w =
      let t = polled n w.trace in record w { trace = Event.load32 (addr + reg) (answer t) ∷ t }

  module _ (waiting : ℕ → Bool) where
    poll-ended :
        (fuel n : ℕ) (w : World)
        → n < fuel
        → ((k : ℕ) → k < n → waiting (answer (polled k w.trace)) ≡ true)
        → waiting (answer (polled n w.trace)) ≡ false
        → poll_reg32 env fuel addr reg waiting w ≡ some (tt, ended n w)
    unfolding poll_reg32 get_reg32 sleep_us
    poll-ended zero n w h before now = absurd (omega arith)
    poll-ended (suc fuel) zero w h before now = rw now
    poll-ended (suc fuel) (suc n) w h before now =
        rw (before 0 (omega arith))
          (poll-ended fuel n _ (omega arith) (λ k lt. before (suc k) (omega arith)) now)

    -- A loop that returns has seen an answer that ends it, in the last of its loads.
    poll_sound :
        (fuel : ℕ) (w w' : World)
        → poll_reg32 env fuel addr reg waiting w ≡ some (tt, w')
        → (n : ℕ) × (n < fuel) × (waiting (answer (polled n w.trace)) ≡ false) × (w' ≡ ended n w)
    unfolding poll_reg32 get_reg32 sleep_us
    poll_sound zero w w' h = cc
    poll_sound (suc fuel) w w' h = elim (Bool-cases (waiting (answer w.trace))) [
      | inl more ↦
          let (n, lt, now, e) = poll_sound fuel _ w' (rw more at h) in (suc n, omega arith, now, e)
      | inr done ↦ (zero, omega arith, done, cc (rw done at h))
    ]

  -- wait_set_reg32 returns, with one load and one sleep for each earlier round and one last load,
  -- when round n is the first whose load shows all bits of the mask set, given more than n rounds
  -- of fuel.
  pub wait_set-returns :
      (mask fuel n : ℕ) (w : World)
      → n < fuel
      → ((k : ℕ) → k < n → bit_and (answer (polled k w.trace)) mask ≢ mask)
      → bit_and (answer (polled n w.trace)) mask ≡ mask
      → wait_set_reg32 env fuel addr reg mask w ≡ some (tt, ended n w)
  unfolding wait_set_reg32
  wait_set-returns mask fuel n w lt before now =
      poll-ended _ fuel n w lt (λ k below. rw (ne→== _ _ (before k below))) (ground (arith, now))

  -- When wait_set_reg32 returns, its last access is a load that saw all bits of the mask set.
  pub wait_set_sound :
      (mask fuel : ℕ) (w w' : World)
      → wait_set_reg32 env fuel addr reg mask w ≡ some (tt, w')
      → (n : ℕ) × (n < fuel) × (bit_and (answer (polled n w.trace)) mask ≡ mask) × (w' ≡ ended n w)
  unfolding wait_set_reg32
  wait_set_sound mask fuel w w' h =
      let (n, lt, now, e) = poll_sound _ fuel w w' h in (n, lt, ground (arith, now), e)

  -- wait_clear_reg32 returns, with one load and one sleep for each earlier round and one last
  -- load, when round n is the first whose load shows all bits of the mask clear, given more than
  -- n rounds of fuel.
  pub wait_clear-returns :
      (mask fuel n : ℕ) (w : World)
      → n < fuel
      → ((k : ℕ) → k < n → bit_and (answer (polled k w.trace)) mask ≢ 0)
      → bit_and (answer (polled n w.trace)) mask ≡ 0
      → wait_clear_reg32 env fuel addr reg mask w ≡ some (tt, ended n w)
  unfolding wait_clear_reg32
  wait_clear-returns mask fuel n w lt before now =
      poll-ended _ fuel n w lt (λ k below. rw (ne→== _ _ (before k below))) (ground (arith, now))

  -- When wait_clear_reg32 returns, its last access is a load that saw all bits of the mask clear.
  pub wait_clear_sound :
      (mask fuel : ℕ) (w w' : World)
      → wait_clear_reg32 env fuel addr reg mask w ≡ some (tt, w')
      → (n : ℕ) × (n < fuel) × (bit_and (answer (polled n w.trace)) mask ≡ 0) × (w' ≡ ended n w)
  unfolding wait_clear_reg32
  wait_clear_sound mask fuel w w' h =
      let (n, lt, now, e) = poll_sound _ fuel w w' h in (n, lt, ground (arith, now), e)
