-- ===== src/Tx.antt =====
-- send/through.c: tx_clean gives the sent buffers back to their pool, and transmit puts a batch of
-- buffers on the descriptor ring.
pub mod Ring
pub mod Clean
pub mod Post
pub mod Kept
use ixgbe82599_driver.Base.{
  ℕ, zero, suc, ◌+◌, ◌-◌, ◌*◌, ◌/◌, ◌%◌, ◌^◌, List, Option, some, M, pure, fault, ◌>>=◌, ◌>>◌,
  modify, get, lift, bit_and, bit_or, ◌==◌, ltb, leb, if◌then◌else◌, get_elem?,
}
use ixgbe82599_driver.Ixgbe.Flags
use ixgbe82599_driver.Ixgbe.Registers.{tdt}
use ixgbe82599_driver.World.{Event, Env, World, Run, emit}
use ixgbe82599_driver.Mmio.{set_reg32}
use ixgbe82599_driver.Pool.{pkt_buf_free}
use ixgbe82599_driver.Dma.{offsetof_data}
use ixgbe82599_driver.TxQueue.{
  Device, queue_at, descriptors, num_entries, clean_index, tx_index, virtual_address, set_tx_index,
  set_virtual_address,
}

abbrev pub clean_batch : ℕ
clean_batch = 64

-- `(uint16_t)((index + 1) & (ring_size - 1))`; the mask is that of a 32-bit int.
unfoldable pub wrap_ring : ℕ → ℕ → ℕ
wrap_ring index ring_size = bit_and (index + 1) ((ring_size + 2 ^ 32 - 1) % 2 ^ 32) % 2 ^ 16

-- DCMD_DTYPE_FLAGS.
abbrev pub dcmd_dtype_flags : ℕ
dcmd_dtype_flags =
    bit_or (bit_or (bit_or Flags.advtxd_dtyp_data Flags.advtxd_dcmd_ifcs) Flags.advtxd_dcmd_dext)
      Flags.advtxd_dcmd_eop

-- union ixgbe_adv_tx_desc has 16 bytes. The word that the driver writes as read.olinfo_status is
-- the word that the device writes back as wb.status.
abbrev pub descriptor_at : ℕ → ℕ → ℕ
descriptor_at ring i = ring + i * 16

abbrev pub offsetof_cmd_type_len : ℕ
offsetof_cmd_type_len = 8

abbrev pub offsetof_olinfo_status : ℕ
offsetof_olinfo_status = 12

-- `clean_up`: what lies between the two indices on the ring. Where the int64_t of the source stays
-- negative, this is 0: both are below the batch.
abbrev pub cleanable : (tx clean num : ℕ) → ℕ
cleanable tx clean num = if ltb tx clean then num + tx - clean else tx - clean

-- `cleanup_to`: the last entry of the batch.
abbrev pub cleanup_end : (clean num : ℕ) → ℕ
cleanup_end clean num = let end = clean + clean_batch - 1 in if leb num end then end - num else end

-- buf_free has the body of pkt_buf_free.
abbrev pub buf_free : ℕ → Run (Unit {0})
buf_free = pkt_buf_free

-- The inner loop of tx_clean, on fuel: the entries from `clean` to `cleanup_to`.
unfoldable pub free_batch : (fuel txq num cleanup_to clean : ℕ) → Run (Unit {0})
free_batch zero txq num cleanup_to clean = fault
free_batch (suc fuel) txq num cleanup_to clean = do
  w ← get
  buf_free (virtual_address txq clean w.queues)
  if clean == cleanup_to then pure tt else free_batch fuel txq num cleanup_to (wrap_ring clean num)

-- The body of the loop of transmit, behind its test: buffer `buf` goes to entry `tx`.
unfoldable pub post : (txq tx next buf : ℕ) → Run (Unit {0})
post txq tx next buf = do
  modify (λ u. record u { queues = set_virtual_address txq tx buf u.queues })
  w ← get
  let txd = descriptor_at (descriptors txq w.queues) tx
  modify (λ u. record u { queues = set_tx_index txq next u.queues })
  b ← lift (w.bufs buf)
  modify (emit (Event.store64 txd ((b.buf_addr_phy + offsetof_data) % 2 ^ 64)))
  modify (emit (Event.store32 (txd + offsetof_cmd_type_len) (bit_or dcmd_dtype_flags b.size)))
  modify (
      emit (
        Event.store32 (txd + offsetof_olinfo_status)
          (b.size * 2 ^ Flags.advtxd_paylen_shift % 2 ^ 32)))

-- The loop, with the rounds left.
unfoldable pub transmit_loop : (rounds sent txq : ℕ) → List ℕ → Run (Unit {0})
transmit_loop zero sent txq bufs = pure tt
transmit_loop (suc rounds) sent txq bufs = do
  w ← get
  let tx = tx_index txq w.queues
  let next = wrap_ring tx (num_entries txq w.queues)
  if tx == next then pure tt else do
    buf ← lift (get_elem? bufs sent)
    post txq tx next buf
    transmit_loop rounds (sent + 1) txq bufs

module _ (env : Env) where
  -- A load of a descriptor's status, which the device writes.
  unfoldable pub load_status : (txd : ℕ) → Run ℕ
  load_status txd w =
      let a = txd + offsetof_olinfo_status in
      let status = env.read w.trace a % 2 ^ 32 in some (status, emit (Event.load32 a status) w)

  -- The outer loop, on fuel; the fuel of the inner loop is the number of values of its index. The
  -- loops write no queue structure, so the fields that they read are arguments.
  unfoldable pub clean_loop : (fuel txq ring num tx clean : ℕ) → Run ℕ
  clean_loop zero txq ring num tx clean = fault
  clean_loop (suc fuel) txq ring num tx clean =
      if ltb (cleanable tx clean num) clean_batch then pure clean else do
        let cleanup_to = cleanup_end clean num
        status ← load_status (descriptor_at ring cleanup_to)
        if bit_and status Flags.advtxd_stat_dd == 0 then pure clean else do
          free_batch (2 ^ 16) txq num cleanup_to clean
          clean_loop fuel txq ring num tx (wrap_ring cleanup_to num)

  -- The index goes into the global variable, not into the queue.
  unfoldable pub tx_clean : (txq : ℕ) → Run (Unit {0})
  tx_clean txq = do
    w ← get
    let q = w.queues
    clean ←
        clean_loop (2 ^ 16) txq (descriptors txq q) (num_entries txq q) (tx_index txq q)
          (clean_index txq q)
    modify (λ u. record u { clean_index = clean })

  unfoldable pub transmit : Device → (queue_id : ℕ) → List ℕ → (num_bufs : ℕ) → Run (Unit {0})
  transmit dev queue_id bufs num_bufs = do
    let txq = queue_at dev.tx_queues queue_id
    tx_clean txq
    transmit_loop num_bufs 0 txq bufs
    w ← get
    set_reg32 dev.addr (tdt queue_id) (tx_index txq w.queues)
