-- ===== src/Safety/Init.antt =====
-- The accesses of the initialisation for sending.
use ixgbe82599_driver.Base.{
  ℕ, zero, suc, ◌+◌, ◌-◌, ◌%◌, ◌^◌, ◌≤◌, arith, ltb, ◌==◌, ◌&&◌, pure, ◌>>=◌, ◌>>◌,
}
use ixgbe82599_driver.Ixgbe.Flags
use ixgbe82599_driver.Ixgbe.Registers
use ixgbe82599_driver.World.{Env, Run}
use ixgbe82599_driver.Mmio.{set_reg32, get_reg32, set_flag32, sleep_us}
use ixgbe82599_driver.Stats.{read_counters}
use ixgbe82599_driver.Link.{
  link_speed_of, ixgbe_get_link_speed, wait_for_link_loop, wait_for_link, poll_interval_us,
  max_wait_us,
}
use ixgbe82599_driver.Init.{init_link, init_stats, init_tx_packet_buffers, init_tx_reg}
use ixgbe82599_driver.Safety.{
  Register, StaysSafe, StaysSafe-bind, StaysSafe-pure, StaysSafe-if, StaysSafe-set_reg32,
  StaysSafe-sleep_us, StaysSafe-get_reg32, StaysSafe-set_flag32, StaysSafe-unset_flag32,
}

module _ (env : Env) (addr : ℕ) where
  -- Steps, and what comes after them.
  pub set_reg32_then :
      {B : Type 0} (reg value : ℕ) (k : Run B)
      → Register addr (addr + reg)
      → StaysSafe addr k
      → StaysSafe addr (set_reg32 addr reg value >> k)
  set_reg32_then reg value k ok h =
      StaysSafe-bind addr (set_reg32 addr reg value) (λ _. k)
        (StaysSafe-set_reg32 addr reg value ok) (λ _. h)

  pub set_flag32_then :
      {B : Type 0} (reg flag : ℕ) (k : Run B)
      → Register addr (addr + reg)
      → StaysSafe addr k
      → StaysSafe addr (set_flag32 env addr reg flag >> k)
  set_flag32_then reg flag k ok h =
      StaysSafe-bind addr (set_flag32 env addr reg flag) (λ _. k)
        (StaysSafe-set_flag32 addr env reg ok flag) (λ _. h)

  pub get_reg32_then :
      {B : Type 0} (reg : ℕ) (k : ℕ → Run B)
      → Register addr (addr + reg)
      → ((value : ℕ) → StaysSafe addr (k value))
      → StaysSafe addr (get_reg32 env addr reg >>= k)
  get_reg32_then reg k ok h =
      StaysSafe-bind addr (get_reg32 env addr reg) k (StaysSafe-get_reg32 addr env reg ok) h

  pub StaysSafe-init_link : StaysSafe addr (init_link env addr)
  unfolding init_link
  StaysSafe-init_link = get_reg32_then Registers.autoc _ (omega arith) λ mode.
      set_reg32_then Registers.autoc _ _ (omega arith) (
        get_reg32_then Registers.autoc _ (omega arith) λ pma.
          set_reg32_then Registers.autoc _ _ (omega arith)
            (StaysSafe-set_flag32 addr env Registers.autoc (omega arith) Flags.autoc_an_restart))

  pub StaysSafe-read_counters : StaysSafe addr (read_counters env addr)
  unfolding read_counters
  StaysSafe-read_counters = get_reg32_then Registers.gprc _ (omega arith) λ rx_pkts.
      get_reg32_then Registers.gptc _ (omega arith) λ tx_pkts.
        get_reg32_then Registers.gorcl _ (omega arith) λ rx_lo.
          get_reg32_then Registers.gorch _ (omega arith) λ rx_hi.
            get_reg32_then Registers.gotcl _ (omega arith)
              λ tx_lo. get_reg32_then Registers.gotch _ (omega arith) λ tx_hi. StaysSafe-pure addr _

  pub StaysSafe-init_stats : StaysSafe addr (init_stats env addr)
  unfolding init_stats
  StaysSafe-init_stats =
      StaysSafe-bind addr (read_counters env addr) _ StaysSafe-read_counters
        λ _. StaysSafe-pure addr tt

  StaysSafe-init_tx_packet_buffers :
      (rounds i : ℕ) → i + rounds ≤ 8 → StaysSafe addr (init_tx_packet_buffers env rounds i addr)
  unfolding init_tx_packet_buffers
  StaysSafe-init_tx_packet_buffers zero i le = StaysSafe-pure addr tt
  StaysSafe-init_tx_packet_buffers (suc rounds) i le =
      set_flag32_then (Registers.txpbsize i) 0 _ (omega arith)
        (StaysSafe-init_tx_packet_buffers rounds (i + 1) (omega arith))

  pub StaysSafe-init_tx_reg : StaysSafe addr (init_tx_reg env addr)
  unfolding init_tx_reg
  StaysSafe-init_tx_reg = set_flag32_then Registers.hlreg0 _ _ (omega arith) (
      set_reg32_then (Registers.txpbsize 0) _ _ (omega arith) (
        StaysSafe-bind addr (init_tx_packet_buffers env 7 1 addr) _
          (StaysSafe-init_tx_packet_buffers 7 1 (omega arith))
          λ _.
            set_reg32_then Registers.dtxmxszrq _ _ (omega arith)
              (StaysSafe-unset_flag32 addr env Registers.rttdcs (omega arith) Flags.rttdcs_arbdis)))

  StaysSafe-get_link_speed : StaysSafe addr (ixgbe_get_link_speed env addr)
  unfolding ixgbe_get_link_speed
  StaysSafe-get_link_speed =
      get_reg32_then Registers.links _ (omega arith)
        λ speed. StaysSafe-pure addr (link_speed_of speed)

  StaysSafe-wait_for_link_loop :
      (fuel max_wait : ℕ) → StaysSafe addr (wait_for_link_loop env addr fuel max_wait)
  unfolding wait_for_link_loop
  StaysSafe-wait_for_link_loop zero max_wait w w' a s e = absurd (cc e)
  StaysSafe-wait_for_link_loop (suc fuel) max_wait w w' a s e =
      StaysSafe-bind addr (ixgbe_get_link_speed env addr) _ StaysSafe-get_link_speed
        (λ speed.
          StaysSafe-if addr ((speed == 0) && ltb 0 max_wait) _ (pure speed)
            (StaysSafe-bind addr (sleep_us poll_interval_us) _
              (StaysSafe-sleep_us addr poll_interval_us)
              (λ _.
                StaysSafe-wait_for_link_loop fuel
                  ((max_wait + 2 ^ 32 - poll_interval_us) % 2 ^ 32)))
            (StaysSafe-pure addr speed))
        w w' a s e

  pub StaysSafe-wait_for_link : StaysSafe addr (wait_for_link env addr)
  unfolding wait_for_link
  StaysSafe-wait_for_link = StaysSafe-wait_for_link_loop 101 max_wait_us
