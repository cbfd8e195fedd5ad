-- ===== src/Recv/Mmio.antt =====
-- recv/lib.h: the accesses to the device registers. The text is that of send/, and so are the definitions.
use ixgbe82599_driver.Base.{ℕ}
use ixgbe82599_driver.World.{Env, Run}
use ixgbe82599_driver.Mmio

abbrev pub set_reg32 : (addr reg value : ℕ) → Run (Unit {0})
set_reg32 = Mmio.set_reg32

abbrev pub get_reg32 : Env → (addr reg : ℕ) → Run ℕ
get_reg32 = Mmio.get_reg32

abbrev pub wait_clear_reg32 : Env → (fuel addr reg mask : ℕ) → Run (Unit {0})
wait_clear_reg32 = Mmio.wait_clear_reg32

abbrev pub wait_set_reg32 : Env → (fuel addr reg mask : ℕ) → Run (Unit {0})
wait_set_reg32 = Mmio.wait_set_reg32

abbrev pub set_flag32 : Env → (addr reg flag : ℕ) → Run (Unit {0})
set_flag32 = Mmio.set_flag32

abbrev pub unset_flag32 : Env → (addr reg flag : ℕ) → Run (Unit {0})
unset_flag32 = Mmio.unset_flag32
