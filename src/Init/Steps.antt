-- ===== src/Init/Steps.antt =====
-- The steps of do_init_seq only talk to the device, but for init_tx_queue, which allocates memory and
-- writes the queue structures.
use ixgbe82599_driver.Base.{
  ℕ, zero, suc, ◌+◌, ◌-◌, ◌%◌, ◌^◌, ◌>>◌, pure, bit_or, bit_and, ltb, ◌==◌, ◌&&◌,
}
use ixgbe82599_driver.Ixgbe.Flags
use ixgbe82599_driver.Ixgbe.Registers
use ixgbe82599_driver.World.{Env}
use ixgbe82599_driver.Mmio.{complement32, set_flag32, sleep_us}
use ixgbe82599_driver.Mmio.Talks.{
  Talks, Talks-bind, Talks-pure, set_reg32_then, get_reg32_then, set_flag32_then, Talks-if,
  Talks-sleep_us, Talks-set_flag32, Talks-unset_flag32, Talks-wait_set_reg32,
}
use ixgbe82599_driver.Stats.{read_counters, wide}
use ixgbe82599_driver.Link.{
  link_speed_of, ixgbe_get_link_speed, wait_for_link_loop, wait_for_link, poll_interval_us,
  max_wait_us,
}
use ixgbe82599_driver.TxQueue.{Device}
use ixgbe82599_driver.Init.{
  init_link, init_stats, init_tx_packet_buffers, init_tx_reg, start_tx_queue, start_tx_queues_from,
}

module _ (env : Env) where
  pub Talks-init_link : (addr : ℕ) → Talks (init_link env addr)
  unfolding init_link
  Talks-init_link addr = get_reg32_then env addr Registers.autoc _ λ mode.
      set_reg32_then addr Registers.autoc
        (bit_or (bit_and mode (complement32 Flags.autoc_lms_mask)) Flags.autoc_lms_10g_serial) _
        (get_reg32_then env addr Registers.autoc _ λ pma.
          set_reg32_then addr Registers.autoc
            (bit_or (bit_and pma (complement32 Flags.autoc_10g_pma_pmd_mask)) Flags.autoc_10g_xaui)
            _ (Talks-set_flag32 env addr Registers.autoc Flags.autoc_an_restart))

  pub Talks-read_counters : (addr : ℕ) → Talks (read_counters env addr)
  unfolding read_counters
  Talks-read_counters addr = get_reg32_then env addr Registers.gprc _ λ rx_pkts.
      get_reg32_then env addr Registers.gptc _ λ tx_pkts.
        get_reg32_then env addr Registers.gorcl _ λ rx_lo.
          get_reg32_then env addr Registers.gorch _ λ rx_hi.
            get_reg32_then env addr Registers.gotcl _ λ tx_lo.
              get_reg32_then env addr Registers.gotch _ λ tx_hi. Talks-pure (record {
                rx_pkts = rx_pkts;
                tx_pkts = tx_pkts;
                rx_bytes = wide rx_lo rx_hi;
                tx_bytes = wide tx_lo tx_hi;
              })

  pub Talks-init_stats : (addr : ℕ) → Talks (init_stats env addr)
  unfolding init_stats
  Talks-init_stats addr =
      Talks-bind (read_counters env addr) _ (Talks-read_counters addr) λ _. Talks-pure tt

  Talks-init_tx_packet_buffers :
      (rounds i addr : ℕ) → Talks (init_tx_packet_buffers env rounds i addr)
  unfolding init_tx_packet_buffers
  Talks-init_tx_packet_buffers zero i addr = Talks-pure tt
  Talks-init_tx_packet_buffers (suc rounds) i addr =
      set_flag32_then env addr (Registers.txpbsize i) 0 _
        (Talks-init_tx_packet_buffers rounds (i + 1) addr)

  pub Talks-init_tx_reg : (addr : ℕ) → Talks (init_tx_reg env addr)
  unfolding init_tx_reg
  Talks-init_tx_reg addr =
      set_flag32_then env addr Registers.hlreg0 (bit_or Flags.hlreg0_txcrcen Flags.hlreg0_txpaden) _
        (set_reg32_then addr (Registers.txpbsize 0) Flags.txpbsize_40kb _ (
          Talks-bind (init_tx_packet_buffers env 7 1 addr) _ (Talks-init_tx_packet_buffers 7 1 addr)
            λ _.
              set_reg32_then addr Registers.dtxmxszrq 0xffff _
                (Talks-unset_flag32 env addr Registers.rttdcs Flags.rttdcs_arbdis)))

  pub Talks-start_tx_queue :
      (fuel : ℕ) (dev : Device) (i : ℕ) → Talks (start_tx_queue env fuel dev i)
  unfolding start_tx_queue
  Talks-start_tx_queue fuel dev i = set_reg32_then dev.addr (Registers.tdh i) 0 _ (
      set_reg32_then dev.addr (Registers.tdt i) 0 _ (
        set_flag32_then env dev.addr (Registers.txdctl i) Flags.txdctl_enable _
          (Talks-wait_set_reg32 env fuel dev.addr (Registers.txdctl i) Flags.txdctl_enable)))

  pub Talks-start_tx_queues_from :
      (fuel rounds i : ℕ) (dev : Device) → Talks (start_tx_queues_from env fuel rounds i dev)
  unfolding start_tx_queues_from
  Talks-start_tx_queues_from fuel zero i dev = Talks-pure tt
  Talks-start_tx_queues_from fuel (suc rounds) i dev =
      Talks-bind (start_tx_queue env fuel dev i) _ (Talks-start_tx_queue fuel dev i)
        λ _. Talks-start_tx_queues_from fuel rounds (i + 1) dev

  Talks-get_link_speed : (addr : ℕ) → Talks (ixgbe_get_link_speed env addr)
  unfolding ixgbe_get_link_speed
  Talks-get_link_speed addr =
      get_reg32_then env addr Registers.links _ λ speed. Talks-pure (link_speed_of speed)

  Talks-wait_for_link_loop :
      (addr fuel max_wait : ℕ) → Talks (wait_for_link_loop env addr fuel max_wait)
  unfolding wait_for_link_loop
  Talks-wait_for_link_loop addr zero max_wait w w' b h = absurd (cc h)
  Talks-wait_for_link_loop addr (suc fuel) max_wait w w' b h =
      Talks-bind (ixgbe_get_link_speed env addr) _ (Talks-get_link_speed addr)
        (λ speed.
          Talks-if ((speed == 0) && ltb 0 max_wait) _ (pure speed)
            (Talks-bind (sleep_us poll_interval_us) _ (Talks-sleep_us poll_interval_us) (λ _.
              Talks-wait_for_link_loop addr fuel ((max_wait + 2 ^ 32 - poll_interval_us) % 2 ^ 32)))
            (Talks-pure speed))
        w w' b h

  pub Talks-wait_for_link : (addr : ℕ) → Talks (wait_for_link env addr)
  unfolding wait_for_link
  Talks-wait_for_link addr = Talks-wait_for_link_loop addr 101 max_wait_us

  -- The last steps of do_init_seq.
  pub Talks-go_live :
      (fuel : ℕ) (dev : Device)
      → Talks (do
        start_tx_queues_from env fuel dev.num_tx_queues 0 dev
        set_flag32 env dev.addr Registers.fctrl (bit_or Flags.fctrl_mpe Flags.fctrl_upe)
        wait_for_link env dev.addr
        pure tt)
  Talks-go_live fuel dev =
      Talks-bind (start_tx_queues_from env fuel dev.num_tx_queues 0 dev) _
        (Talks-start_tx_queues_from fuel dev.num_tx_queues 0 dev)
        λ _.
          set_flag32_then env dev.addr Registers.fctrl (bit_or Flags.fctrl_mpe Flags.fctrl_upe) _ (
            Talks-bind (wait_for_link env dev.addr) _ (Talks-wait_for_link dev.addr)
              λ _. Talks-pure tt)
