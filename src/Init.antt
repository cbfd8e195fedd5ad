-- ===== src/Init.antt =====
-- send/init.c: the initialisation of the device for sending.
pub mod Queues
pub mod Steps
pub mod Order
pub mod Returns
use ixgbe82599_driver.Base.{
  ℕ, zero, suc, ◌+◌, ◌*◌, ◌/◌, ◌%◌, ◌^◌, pure, ◌>>=◌, ◌>>◌, modify, bit_and, bit_or,
}
use ixgbe82599_driver.Ixgbe.Flags
use ixgbe82599_driver.Ixgbe.Registers
use ixgbe82599_driver.World.{Event, Env, Run, emit}
use ixgbe82599_driver.Mmio.{
  complement32, set_reg32, get_reg32, set_flag32, unset_flag32, wait_clear_reg32, wait_set_reg32,
  sleep_us,
}
use ixgbe82599_driver.Dma.{allocate_dma_address}
use ixgbe82599_driver.TxQueue.{Device, queue_at, set_num_entries, set_descriptors}
use ixgbe82599_driver.Link.{wait_for_link}
use ixgbe82599_driver.Stats.{read_counters}

abbrev pub num_tx_queue_entries : ℕ
num_tx_queue_entries = 512

-- sizeof(union ixgbe_adv_tx_desc) * NUM_TX_QUEUE_ENTRIES.
abbrev pub tx_ring_size : ℕ
tx_ring_size = 16 * num_tx_queue_entries

-- The three thresholds of TXDCTL: the fields, and what the driver puts there.
abbrev pub txdctl_thresholds_mask : ℕ
txdctl_thresholds_mask = bit_or (bit_or 0x3f (0x3f * 2 ^ 8)) (0x3f * 2 ^ 16)

abbrev pub txdctl_thresholds : ℕ
txdctl_thresholds = bit_or (bit_or 36 (8 * 2 ^ 8)) (4 * 2 ^ 16)

module _ (env : Env) where
  unfoldable pub init_link : (addr : ℕ) → Run (Unit {0})
  init_link addr = do
    mode ← get_reg32 env addr Registers.autoc
    set_reg32 addr Registers.autoc
        (bit_or (bit_and mode (complement32 Flags.autoc_lms_mask)) Flags.autoc_lms_10g_serial)
    pma ← get_reg32 env addr Registers.autoc
    set_reg32 addr Registers.autoc
        (bit_or (bit_and pma (complement32 Flags.autoc_10g_pma_pmd_mask)) Flags.autoc_10g_xaui)
    set_flag32 env addr Registers.autoc Flags.autoc_an_restart

  -- The counters are read, which clears them, and dropped.
  unfoldable pub init_stats : (addr : ℕ) → Run (Unit {0})
  init_stats addr = read_counters env addr >> pure tt

  -- The loop over the packet buffers i .. i + rounds - 1, which sets no bit.
  unfoldable pub init_tx_packet_buffers : (rounds i addr : ℕ) → Run (Unit {0})
  init_tx_packet_buffers zero i addr = pure tt
  init_tx_packet_buffers (suc rounds) i addr = do
    set_flag32 env addr (Registers.txpbsize i) 0
    init_tx_packet_buffers rounds (i + 1) addr

  unfoldable pub init_tx_reg : (addr : ℕ) → Run (Unit {0})
  init_tx_reg addr = do
    set_flag32 env addr Registers.hlreg0 (bit_or Flags.hlreg0_txcrcen Flags.hlreg0_txpaden)
    set_reg32 addr (Registers.txpbsize 0) Flags.txpbsize_40kb
    init_tx_packet_buffers 7 1 addr
    set_reg32 addr Registers.dtxmxszrq 0xffff
    unset_flag32 env addr Registers.rttdcs Flags.rttdcs_arbdis

  -- One round of init_tx_queue.
  unfoldable pub init_one_tx_queue : Device → (i : ℕ) → Run (Unit {0})
  init_one_tx_queue dev i = do
    dma_addr ← allocate_dma_address env tx_ring_size
    modify (emit (Event.memset dma_addr.virt_addr 0xff tx_ring_size))
    set_reg32 dev.addr (Registers.tdbal i) (dma_addr.phy_addr % 2 ^ 32)
    set_reg32 dev.addr (Registers.tdbah i) (dma_addr.phy_addr / 2 ^ 32)
    set_reg32 dev.addr (Registers.tdlen i) tx_ring_size
    old ← get_reg32 env dev.addr (Registers.txdctl i)
    set_reg32 dev.addr (Registers.txdctl i)
        (bit_or (bit_and old (complement32 txdctl_thresholds_mask)) txdctl_thresholds)
    let txq = queue_at dev.tx_queues i
    modify (λ u. record u { queues = set_num_entries txq num_tx_queue_entries u.queues })
    modify (λ u. record u { queues = set_descriptors txq dma_addr.virt_addr u.queues })

  -- The loop, with the rounds left.
  unfoldable pub init_tx_queues_from : (rounds i : ℕ) → Device → Run (Unit {0})
  init_tx_queues_from zero i dev = pure tt
  init_tx_queues_from (suc rounds) i dev = do
    init_one_tx_queue dev i
    init_tx_queues_from rounds (i + 1) dev

  unfoldable pub init_tx_queue : Device → Run (Unit {0})
  init_tx_queue dev = init_tx_queues_from dev.num_tx_queues 0 dev

  unfoldable pub init_tx : Device → Run (Unit {0})
  init_tx dev = do
    init_tx_reg dev.addr
    init_tx_queue dev
    set_reg32 dev.addr Registers.dmatxctl Flags.dmatxctl_te

  -- `fuel` bounds the rounds of each polling loop.
  unfoldable pub start_tx_queue : (fuel : ℕ) → Device → (i : ℕ) → Run (Unit {0})
  start_tx_queue fuel dev i = do
    set_reg32 dev.addr (Registers.tdh i) 0
    set_reg32 dev.addr (Registers.tdt i) 0
    set_flag32 env dev.addr (Registers.txdctl i) Flags.txdctl_enable
    wait_set_reg32 env fuel dev.addr (Registers.txdctl i) Flags.txdctl_enable

  unfoldable pub start_tx_queues_from : (fuel rounds i : ℕ) → Device → Run (Unit {0})
  start_tx_queues_from fuel zero i dev = pure tt
  start_tx_queues_from fuel (suc rounds) i dev = do
    start_tx_queue fuel dev i
    start_tx_queues_from fuel rounds (i + 1) dev

  unfoldable pub do_init_seq : (fuel : ℕ) → Device → Run (Unit {0})
  do_init_seq fuel dev = do
    set_reg32 dev.addr Registers.eimc 0x7fffffff
    set_reg32 dev.addr Registers.ctrl Flags.ctrl_rst_mask
    wait_clear_reg32 env fuel dev.addr Registers.ctrl Flags.ctrl_rst_mask
    sleep_us 10000
    set_reg32 dev.addr Registers.eimc 0x7fffffff
    wait_set_reg32 env fuel dev.addr Registers.eec Flags.eec_ard
    wait_set_reg32 env fuel dev.addr Registers.rdrxctl Flags.rdrxctl_dmaidone
    init_link dev.addr
    init_stats dev.addr
    init_tx dev
    start_tx_queues_from fuel dev.num_tx_queues 0 dev
    set_flag32 env dev.addr Registers.fctrl (bit_or Flags.fctrl_mpe Flags.fctrl_upe)
    wait_for_link env dev.addr
    pure tt
