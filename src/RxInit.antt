-- ===== src/RxInit.antt =====
-- recv/init.c: the initialisation of the device for receiving.
pub mod Queues
pub mod Filled
pub mod Started
use ixgbe82599_driver.Base.{
  ℕ, zero, suc, ◌+◌, ◌-◌, ◌*◌, ◌/◌, ◌%◌, ◌^◌, pure, ◌>>=◌, ◌>>◌, modify, get, lift, bit_and, bit_or,
  ltb, if◌then◌else◌,
}
use ixgbe82599_driver.Base.Memory.{Memory, store}
use ixgbe82599_driver.Ixgbe.Flags
use ixgbe82599_driver.Ixgbe.Registers
use ixgbe82599_driver.World.{Event, Env, Run, emit}
use ixgbe82599_driver.Mmio.{complement32, sleep_us}
use ixgbe82599_driver.Dma.{offsetof_data}
use ixgbe82599_driver.Recv.Mmio.{
  set_reg32, get_reg32, set_flag32, unset_flag32, wait_clear_reg32, wait_set_reg32,
}
use ixgbe82599_driver.Recv.Pool.{alloc_pkt_buf}
use ixgbe82599_driver.Recv.Dma.{allocate_dma_address, allocate_mempool_mem}
use ixgbe82599_driver.Recv.Link.{init_link, init_stats, wait_for_link}
use ixgbe82599_driver.Rx.{
  Device, queue_at, descriptors, mempool, num_entries, descriptor_at, offsetof_hdr_addr,
  set_rx_index, set_virtual_address,
}
use ixgbe82599_driver.Rx.Stuck.{num_rx_queue_entries}

abbrev pub pkt_buf_entry_size : ℕ
pkt_buf_entry_size = 2048

abbrev pub num_tx_queue_entries : ℕ
num_tx_queue_entries = 512

abbrev pub min_mempool_entries : ℕ
min_mempool_entries = 4096

-- sizeof(union ixgbe_adv_rx_desc) * NUM_RX_QUEUE_ENTRIES.
abbrev pub rx_ring_size : ℕ
rx_ring_size = 16 * num_rx_queue_entries

unfoldable pub set_descriptors : ℕ → ℕ → Memory → Memory
set_descriptors rxq p m = store 8 rxq p m

unfoldable pub set_mempool : ℕ → ℕ → Memory → Memory
set_mempool rxq p m = store 8 (rxq + 8) p m

unfoldable pub set_num_entries : ℕ → ℕ → Memory → Memory
set_num_entries rxq n m = store 2 (rxq + 16) (n % 2 ^ 16) m

-- The three assignments to the fields of a queue.
unfoldable pub set_queue : (rxq virt_addr : ℕ) → Memory → Memory
set_queue rxq virt_addr m =
    set_descriptors rxq virt_addr (set_rx_index rxq 0 (set_num_entries rxq num_rx_queue_entries m))

-- The loop over the packet buffers i .. i + rounds - 1, which get no room.
unfoldable pub init_rx_packet_buffers : (rounds i addr : ℕ) → Run (Unit {0})
init_rx_packet_buffers zero i addr = pure tt
init_rx_packet_buffers (suc rounds) i addr = do
  set_reg32 addr (Registers.rxpbsize i) 0
  init_rx_packet_buffers rounds (i + 1) addr

-- The number of buffers of a queue's pool.
abbrev pub rx_mempool_size : ℕ
rx_mempool_size =
    let mempool_size = num_rx_queue_entries + num_tx_queue_entries in
    if ltb mempool_size min_mempool_entries then min_mempool_entries else mempool_size

-- The loop of start_rx_queue over the entries i .. i + rounds - 1. The source only reports a NULL
-- pointer and then follows it.
unfoldable pub fill_rx_ring : (rounds i rxq : ℕ) → Run (Unit {0})
fill_rx_ring zero i rxq = pure tt
fill_rx_ring (suc rounds) i rxq = do
  w ← get
  let rxd = descriptor_at (descriptors rxq w.queues) i
  buf ← alloc_pkt_buf (mempool rxq w.queues)
  v ← get
  b ← lift (v.bufs buf)
  modify (emit (Event.store64 rxd ((b.buf_addr_phy + offsetof_data) % 2 ^ 64)))
  modify (emit (Event.store64 (rxd + offsetof_hdr_addr) 0))
  modify (λ u. record u { queues = set_virtual_address rxq i buf u.queues })
  fill_rx_ring rounds (i + 1) rxq

module _ (env : Env) where
  unfoldable pub init_rx_reg : (addr : ℕ) → Run (Unit {0})
  init_rx_reg addr = do
    set_reg32 addr (Registers.rxpbsize 0) Flags.rxpbsize_128kb
    init_rx_packet_buffers 7 1 addr
    set_flag32 env addr Registers.hlreg0 Flags.hlreg0_rxcrcstrp
    set_flag32 env addr Registers.rdrxctl Flags.rdrxctl_crcstrip
    set_flag32 env addr Registers.fctrl Flags.fctrl_bam

  -- One round of the first loop of init_rx_queue.
  unfoldable pub init_one_rx_queue : Device → (i : ℕ) → Run (Unit {0})
  init_one_rx_queue dev i = do
    old ← get_reg32 env dev.addr (Registers.srrctl i)
    set_reg32 dev.addr (Registers.srrctl i) (
        bit_or (bit_and old (complement32 Flags.srrctl_desctype_mask))
          Flags.srrctl_desctype_adv_onebuf)
    set_flag32 env dev.addr (Registers.srrctl i) Flags.srrctl_drop_en
    dma_addr ← allocate_dma_address env rx_ring_size
    modify (emit (Event.memset dma_addr.virt_addr 0xff rx_ring_size))
    set_reg32 dev.addr (Registers.rdbal i) (dma_addr.phy_addr % 2 ^ 32)
    set_reg32 dev.addr (Registers.rdbah i) (dma_addr.phy_addr / 2 ^ 32)
    set_reg32 dev.addr (Registers.rdlen i) rx_ring_size
    set_reg32 dev.addr (Registers.rdh i) 0
    set_reg32 dev.addr (Registers.rdt i) 0
    modify (λ u. record u {
      queues = set_queue (queue_at dev.rx_queues i) dma_addr.virt_addr u.queues;
    })

  -- Its two loops, with the rounds left.
  unfoldable pub init_rx_queues_from : (rounds i : ℕ) → Device → Run (Unit {0})
  init_rx_queues_from zero i dev = pure tt
  init_rx_queues_from (suc rounds) i dev = do
    init_one_rx_queue dev i
    init_rx_queues_from rounds (i + 1) dev

  unfoldable pub clear_dca_from : (rounds i addr : ℕ) → Run (Unit {0})
  clear_dca_from zero i addr = pure tt
  clear_dca_from (suc rounds) i addr = do
    unset_flag32 env addr (Registers.dca_rxctrl i) (2 ^ 12)
    clear_dca_from rounds (i + 1) addr

  unfoldable pub init_rx_queue : Device → Run (Unit {0})
  init_rx_queue dev = do
    init_rx_queues_from dev.num_rx_queues 0 dev
    set_flag32 env dev.addr Registers.ctrl_ext Flags.ctrl_ext_ns_dis
    clear_dca_from dev.num_rx_queues 0 dev.addr

  unfoldable pub init_rx : Device → Run (Unit {0})
  init_rx dev = do
    unset_flag32 env dev.addr Registers.rxctrl Flags.rxctrl_rxen
    init_rx_reg dev.addr
    init_rx_queue dev
    set_flag32 env dev.addr Registers.rxctrl Flags.rxctrl_rxen

  -- `fuel` bounds the rounds of each polling loop. The stores of the loop leave num_entries alone.
  unfoldable pub start_rx_queue : (fuel : ℕ) → Device → (queue : ℕ) → Run (Unit {0})
  start_rx_queue fuel dev queue = do
    let rxq = queue_at dev.rx_queues queue
    pool ← allocate_mempool_mem env rx_mempool_size pkt_buf_entry_size
    modify (λ u. record u { queues = set_mempool rxq pool u.queues })
    w ← get
    fill_rx_ring (num_entries rxq w.queues) 0 rxq
    set_flag32 env dev.addr (Registers.rxdctl queue) Flags.rxdctl_enable
    wait_set_reg32 env fuel dev.addr (Registers.rxdctl queue) Flags.rxdctl_enable
    set_reg32 dev.addr (Registers.rdh queue) 0
    v ← get
    set_reg32 dev.addr (Registers.rdt queue) ((num_entries rxq v.queues + 2 ^ 32 - 1) % 2 ^ 32)

  unfoldable pub start_rx_queues_from : (fuel rounds i : ℕ) → Device → Run (Unit {0})
  start_rx_queues_from fuel zero i dev = pure tt
  start_rx_queues_from fuel (suc rounds) i dev = do
    start_rx_queue fuel dev i
    start_rx_queues_from fuel rounds (i + 1) dev

  unfoldable pub do_init_seq : (fuel : ℕ) → Device → Run (Unit {0})
  do_init_seq fuel dev = do
    set_reg32 dev.addr Registers.eimc 0x7fffffff
    set_reg32 dev.addr Registers.ctrl Flags.ctrl_rst_mask
    wait_clear_reg32 env fuel dev.addr Registers.ctrl Flags.ctrl_rst_mask
    sleep_us 10000
    set_reg32 dev.addr Registers.eimc 0x7fffffff
    wait_set_reg32 env fuel dev.addr Registers.eec Flags.eec_ard
    wait_set_reg32 env fuel dev.addr Registers.rdrxctl Flags.rdrxctl_dmaidone
    init_link env dev.addr
    init_stats env dev.addr
    init_rx dev
    start_rx_queues_from fuel dev.num_rx_queues 0 dev
    set_flag32 env dev.addr Registers.fctrl (bit_or Flags.fctrl_mpe Flags.fctrl_upe)
    wait_for_link env dev.addr
    pure tt
