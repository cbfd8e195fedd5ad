-- ===== src/Init/Order.antt =====
-- The order of do_init_seq: the device is reset, and has read its EEPROM and initialised its DMA,
-- before anything else is done to it.
use ixgbe82599_driver.Base.{
  ℕ, zero, suc, ◌+◌, ◌%◌, ◌^◌, ◌≡◌, refl, ap, sym, ◌∙◌, ◌∷◌, some, pure, ◌>>◌, bit_or, bit_and,
  some-bind,
}
use ixgbe82599_driver.Ixgbe.Flags
use ixgbe82599_driver.Ixgbe.Registers
use ixgbe82599_driver.World.{Run, Event, Env, World}
use ixgbe82599_driver.Mmio.{
  set_reg32, get_reg32, set_flag32, sleep_us, wait_set_reg32, wait_clear_reg32,
}
use ixgbe82599_driver.Mmio.Polling.{answer, polled, ended, wait_set_sound, wait_clear_sound}
use ixgbe82599_driver.Mmio.Talks.{
  Extends, Extends-refl, Extends-cons, Talks-pure, Grows, Talks-Grows, Grows-bind, Grows-outcome,
  Talks-set_reg32,
}
use ixgbe82599_driver.Dma.{allocate_dma_address, virt_to_phys}
use ixgbe82599_driver.Link.{wait_for_link}
use ixgbe82599_driver.TxQueue.{Device}
use ixgbe82599_driver.Init.Steps.{
  Talks-init_link, Talks-init_stats, Talks-init_tx_reg, Talks-go_live,
}
use ixgbe82599_driver.Init.{
  init_link, init_stats, init_tx_reg, init_one_tx_queue, init_tx_queues_from, init_tx_queue,
  init_tx, start_tx_queues_from, do_init_seq,
}

module _ (env : Env) where
  Grows-init_one_tx_queue : (dev : Device) (i : ℕ) → Grows (init_one_tx_queue env dev i)
  unfolding init_one_tx_queue set_reg32 get_reg32 allocate_dma_address virt_to_phys
  Grows-init_one_tx_queue dev i = Grows-outcome (init_one_tx_queue env dev i) λ w. (
    tt,
    _,
    refl,
    Extends-cons _ (
        Extends-cons _ (
          Extends-cons _ (
            Extends-cons _ (
              Extends-cons _
                (Extends-cons _ (Extends-cons _ (Extends-cons _ (Extends-refl w.trace)))))))),
  )

  Grows-init_tx_queues_from :
      (rounds i : ℕ) (dev : Device) → Grows (init_tx_queues_from env rounds i dev)
  unfolding init_tx_queues_from
  Grows-init_tx_queues_from zero i dev = Talks-Grows (pure tt) (Talks-pure tt)
  Grows-init_tx_queues_from (suc rounds) i dev =
      Grows-bind (init_one_tx_queue env dev i) _ (Grows-init_one_tx_queue dev i)
        λ _. Grows-init_tx_queues_from rounds (i + 1) dev

  Grows-init_tx : (dev : Device) → Grows (init_tx env dev)
  unfolding init_tx init_tx_queue
  Grows-init_tx dev =
      Grows-bind (init_tx_reg env dev.addr) _
        (Talks-Grows (init_tx_reg env dev.addr) (Talks-init_tx_reg env dev.addr))
        λ _.
          Grows-bind (init_tx_queues_from env dev.num_tx_queues 0 dev) _
            (Grows-init_tx_queues_from dev.num_tx_queues 0 dev)
            λ _.
              Talks-Grows (set_reg32 dev.addr Registers.dmatxctl Flags.dmatxctl_te)
                (Talks-set_reg32 dev.addr Registers.dmatxctl Flags.dmatxctl_te)

  -- What do_init_seq does after the three waits.
  abbrev pub after_reset : (fuel : ℕ) → Device → Run (Unit {0})
  after_reset fuel dev = do
    init_link env dev.addr
    init_stats env dev.addr
    init_tx env dev
    start_tx_queues_from env fuel dev.num_tx_queues 0 dev
    set_flag32 env dev.addr Registers.fctrl (bit_or Flags.fctrl_mpe Flags.fctrl_upe)
    wait_for_link env dev.addr
    pure tt

  Grows-after_reset : (fuel : ℕ) (dev : Device) → Grows (after_reset fuel dev)
  Grows-after_reset fuel dev =
      Grows-bind (init_link env dev.addr) _
        (Talks-Grows (init_link env dev.addr) (Talks-init_link env dev.addr))
        λ _.
          Grows-bind (init_stats env dev.addr) _
            (Talks-Grows (init_stats env dev.addr) (Talks-init_stats env dev.addr))
            λ _. Grows-bind (init_tx env dev) _ (Grows-init_tx dev) λ _.
              Talks-Grows
                (do
                  start_tx_queues_from env fuel dev.num_tx_queues 0 dev
                  set_flag32 env dev.addr Registers.fctrl (bit_or Flags.fctrl_mpe Flags.fctrl_upe)
                  wait_for_link env dev.addr
                  pure tt)
                (Talks-go_live env fuel dev)

  -- A polling loop that returns, and what comes after it.
  wait_clear_then :
      (fuel addr reg mask : ℕ) (k : Run (Unit {0})) (w w' : World)
      → (wait_clear_reg32 env fuel addr reg mask >> k) w ≡ some (tt, w')
      → (n : ℕ) × (bit_and (answer env addr reg (polled env addr reg n w.trace)) mask ≡ 0)
        × (k (ended env addr reg n w) ≡ some (tt, w'))
  wait_clear_then fuel addr reg mask k w w' h =
      let (u, w1, first, rest) =
        some-bind (wait_clear_reg32 env fuel addr reg mask) (λ _. k) w w' tt h in
      let (n, lt, now, e) = wait_clear_sound env addr reg mask fuel w w1 first in
      (n, now, ap k (sym e) ∙ rest)

  wait_set_then :
      (fuel addr reg mask : ℕ) (k : Run (Unit {0})) (w w' : World)
      → (wait_set_reg32 env fuel addr reg mask >> k) w ≡ some (tt, w')
      → (n : ℕ) × (bit_and (answer env addr reg (polled env addr reg n w.trace)) mask ≡ mask)
        × (k (ended env addr reg n w) ≡ some (tt, w'))
  wait_set_then fuel addr reg mask k w w' h =
      let (u, w1, first, rest) =
        some-bind (wait_set_reg32 env fuel addr reg mask) (λ _. k) w w' tt h in
      let (n, lt, now, e) = wait_set_sound env addr reg mask fuel w w1 first in
      (n, now, ap k (sym e) ∙ rest)

-- The device has shown, in this order and in answer to the last load of a polling loop: the end of
-- the reset that the driver asked for with interrupts masked, the end of the reading of the EEPROM,
-- after 10 ms and a second masking, and the end of the initialisation of its DMA. All other events
-- of w' came after these.
abbrev pub InOrder : Env → (addr : ℕ) → (w w' : World) → Type 0
InOrder env a w w' =
    let reset : World = record w {
      trace =
          Event.store32 (a + Registers.ctrl) (Flags.ctrl_rst_mask % 2 ^ 32)
          ∷ Event.store32 (a + Registers.eimc) 0x7fffffff
          ∷ w.trace;
    } in
    (n1 n2 n3 : ℕ) × (let back = ended env a Registers.ctrl n1 reset in
      let masked : World = record back {
        trace = Event.store32 (a + Registers.eimc) 0x7fffffff ∷ Event.usleep 10000 ∷ back.trace;
      } in
      let loaded = ended env a Registers.eec n2 masked in
      let ready = ended env a Registers.rdrxctl n3 loaded in
      (bit_and (answer env a Registers.ctrl (polled env a Registers.ctrl n1 reset.trace))
          Flags.ctrl_rst_mask
        ≡ 0)
      × (bit_and (answer env a Registers.eec (polled env a Registers.eec n2 masked.trace))
            Flags.eec_ard
          ≡ Flags.eec_ard)
      × (bit_and (answer env a Registers.rdrxctl (polled env a Registers.rdrxctl n3 loaded.trace))
            Flags.rdrxctl_dmaidone
          ≡ Flags.rdrxctl_dmaidone)
      × Extends ready.trace w'.trace)

-- When do_init_seq returns, it has gone through these steps in order: it masked the interrupts, asked
-- for a reset and polled until the device showed its end; it slept 10 ms, masked the interrupts
-- again, and polled until the device had read its EEPROM and then until it had initialised its DMA.
-- The configuration of the link, the queues and the rest came after that.
pub do_init_seq_order :
    (env : Env) (fuel : ℕ) (dev : Device) (w w' : World)
    → do_init_seq env fuel dev w ≡ some (tt, w')
    → InOrder env dev.addr w w'
unfolding do_init_seq set_reg32 sleep_us
do_init_seq_order env fuel dev w w' h =
    let a = dev.addr in
    let (n1, clear, h1) = wait_clear_then env fuel a Registers.ctrl Flags.ctrl_rst_mask _ _ w' h in
    let (n2, read, h2) = wait_set_then env fuel a Registers.eec Flags.eec_ard _ _ w' h1 in
    let (n3, done, h3) =
      wait_set_then env fuel a Registers.rdrxctl Flags.rdrxctl_dmaidone _ _ w' h2 in
    (n1, n2, n3, (clear, read, done, Grows-after_reset env fuel dev _ w' tt h3))
