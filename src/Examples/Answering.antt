-- ===== src/Examples/Answering.antt =====
-- The start of the receiver's device.
use ixgbe82599_driver.Base.{
  ℕ, ◌/◌, ◌%◌, ◌-◌, ◌^◌, ◌≡◌, refl, arith, length, bit_and, ◌==◌, if◌then◌else◌, Bool-cases, inl,
  inr, [], some,
}
use ixgbe82599_driver.Ixgbe.Flags
use ixgbe82599_driver.Ixgbe.Registers
use ixgbe82599_driver.World.{Env, World}
use ixgbe82599_driver.Init.Returns.{SetsWithin, ClearsWithin}
use ixgbe82599_driver.Rx.{Device}
use ixgbe82599_driver.RxStart.{do_ixgbe}
use ixgbe82599_driver.RxStart.Ready.{Allocates}
use ixgbe82599_driver.RxStart.One.{Receives}
use ixgbe82599_driver.RxStart.Returns.{Answers, do_ixgbe-returns}
use ixgbe82599_driver.Examples.Data.{ready, ring_world}

-- A device whose registers show zeros and ones by turns.
abbrev blinking : Env
blinking = record ready { read = λ t a. if length t / 2 % 2 == 0 then 0 else 2 ^ 32 - 1 }

blinking-Allocates : Allocates blinking
blinking-Allocates = record { address = λ t size. omega arith; lucky = λ w. refl }

sets_by_turns :
    (addr reg mask : ℕ) → bit_and (2 ^ 32 - 1) mask ≡ mask → SetsWithin blinking 2 addr reg mask
sets_by_turns addr reg mask full t = elim (Bool-cases (length t / 2 % 2 == 0)) [
  | inl zeros ↦ (1, omega arith, ground (arith, full))
  | inr ones ↦ (0, omega arith, rw ones full)
]

clears_by_turns : (addr reg mask : ℕ) → bit_and 0 mask ≡ 0 → ClearsWithin blinking 2 addr reg mask
clears_by_turns addr reg mask none t = elim (Bool-cases (length t / 2 % 2 == 0)) [
  | inl zeros ↦ (0, omega arith, rw zeros none)
  | inr ones ↦ (1, omega arith, ground (arith, none))
]

blinking-Answers : Answers blinking 2
blinking-Answers = record {
  reset = λ addr. clears_by_turns addr Registers.ctrl Flags.ctrl_rst_mask refl;
  eeprom = λ addr. sets_by_turns addr Registers.eec Flags.eec_ard refl;
  dma = λ addr. sets_by_turns addr Registers.rdrxctl Flags.rdrxctl_dmaidone refl;
  queue = λ addr. sets_by_turns addr (Registers.rxdctl 0) Flags.rxdctl_enable refl;
}

do_ixgbe-returns_example :
    (dev : Device) × (w' : World) × (do_ixgbe blinking 2 [] 1 1 ring_world ≡ some (dev, w'))
    × Receives dev w'
do_ixgbe-returns_example =
    do_ixgbe-returns blinking blinking-Allocates 2 blinking-Answers [] 1 ring_world
