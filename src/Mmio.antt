-- ===== src/Mmio.antt =====
-- send/lib.h: the accesses to the device registers. Register `reg` of the device that is mapped at
-- `addr` is the memory at `addr + reg`; a load may see another value each time.
pub mod Polling
pub mod Talks
use ixgbe82599_driver.Base.{
  ℕ, zero, suc, ◌+◌, ◌-◌, ◌%◌, ◌^◌, ◌≡◌, Bool, M, pure, fault, ◌>>=◌, ◌>>◌, modify, some, bit_and,
  bit_or, ◌==◌, if◌then◌else◌,
}
use ixgbe82599_driver.World.{Event, Env, World, Run, emit}

unfoldable pub set_reg32 : (addr reg value : ℕ) → Run (Unit {0})
set_reg32 addr reg value = modify (emit (Event.store32 (addr + reg) (value % 2 ^ 32)))

-- usleep() and the memory barrier around it.
unfoldable pub sleep_us : ℕ → Run (Unit {0})
sleep_us us = modify (emit (Event.usleep us))

-- `~flag` of a uint32_t.
abbrev pub complement32 : ℕ → ℕ
complement32 flag = 2 ^ 32 - 1 - flag

module _ (env : Env) where
  unfoldable pub get_reg32 : (addr reg : ℕ) → Run ℕ
  get_reg32 addr reg w =
      let value = env.read w.trace (addr + reg) % 2 ^ 32 in
      some (value, emit (Event.load32 (addr + reg) value) w)

  unfoldable pub set_flag32 : (addr reg flag : ℕ) → Run (Unit {0})
  unfolding set_reg32 get_reg32
  set_flag32 addr reg flag = do value ← get_reg32 addr reg; set_reg32 addr reg (bit_or value flag)

  unfoldable pub unset_flag32 : (addr reg flag : ℕ) → Run (Unit {0})
  unfolding set_reg32 get_reg32
  unset_flag32 addr reg flag = do
    value ← get_reg32 addr reg
    set_reg32 addr reg (bit_and value (complement32 flag))

  -- `while (cur = *(addr + reg), waiting(cur)) usleep(10000);` on fuel.
  unfoldable pub poll_reg32 : (fuel addr reg : ℕ) (waiting : ℕ → Bool) → Run (Unit {0})
  poll_reg32 zero addr reg waiting = fault
  poll_reg32 (suc fuel) addr reg waiting = do
    cur ← get_reg32 addr reg
    if waiting cur then sleep_us 10000 >> poll_reg32 fuel addr reg waiting else pure tt

  unfoldable pub wait_clear_reg32 : (fuel addr reg mask : ℕ) → Run (Unit {0})
  unfolding poll_reg32
  wait_clear_reg32 fuel addr reg mask =
      poll_reg32 fuel addr reg (λ cur. if bit_and cur mask == 0 then Bool.false else Bool.true)

  unfoldable pub wait_set_reg32 : (fuel addr reg mask : ℕ) → Run (Unit {0})
  unfolding poll_reg32
  wait_set_reg32 fuel addr reg mask =
      poll_reg32 fuel addr reg (λ cur. if bit_and cur mask == mask then Bool.false else Bool.true)
