-- ===== src/Rx.antt =====
-- recv/struct.h, recv/init.c: struct rx_queue, and rx_batch, which takes received buffers off the
-- descriptor ring.
pub mod Refill
pub mod Batch
pub mod FourEntries
pub mod Returned
pub mod Stuck
use ixgbe82599_driver.Base.{
  ℕ, zero, suc, ◌+◌, ◌-◌, ◌*◌, ◌%◌, ◌^◌, List, Option, none, some, M, pure, ◌>>=◌, ◌>>◌, modify,
  get, lift, bit_and, ◌==◌, if◌then◌else◌, set?, update,
}
use ixgbe82599_driver.Base.Memory.{Memory, load, store}
use ixgbe82599_driver.Ixgbe.Flags
use ixgbe82599_driver.Ixgbe.Registers.{rdt}
use ixgbe82599_driver.World.{Event, Env, PktBuf, World, Run, emit}
use ixgbe82599_driver.Recv.Mmio.{set_reg32}
use ixgbe82599_driver.Recv.Pool.{alloc_pkt_buf}
use ixgbe82599_driver.Pool.{null}
use ixgbe82599_driver.Dma.{offsetof_data}
use ixgbe82599_driver.Tx.{wrap_ring}

-- What rx_batch uses of struct ixgbe_device of the receiver.
pub record Device : Type 0 where
  pub addr : ℕ
  pub rx_queues : ℕ
  pub num_rx_queues : ℕ

abbrev pub sizeof_rx_queue : ℕ
sizeof_rx_queue = 24

abbrev pub queue_at : ℕ → ℕ → ℕ
queue_at rx_queues queue_id = rx_queues + queue_id * sizeof_rx_queue

unfoldable pub descriptors : ℕ → Memory → ℕ
descriptors rxq m = load 8 rxq m

unfoldable pub mempool : ℕ → Memory → ℕ
mempool rxq m = load 8 (rxq + 8) m

unfoldable pub num_entries : ℕ → Memory → ℕ
num_entries rxq m = load 2 (rxq + 16) m

unfoldable pub rx_index : ℕ → Memory → ℕ
rx_index rxq m = load 2 (rxq + 18) m

unfoldable pub virtual_address : ℕ → ℕ → Memory → ℕ
virtual_address rxq i m = load 8 (rxq + 24 + i * 8) m

unfoldable pub set_rx_index : ℕ → ℕ → Memory → Memory
set_rx_index rxq i m = store 2 (rxq + 18) (i % 2 ^ 16) m

unfoldable pub set_virtual_address : ℕ → ℕ → ℕ → Memory → Memory
set_virtual_address rxq i p m = store 8 (rxq + 24 + i * 8) p m

-- union ixgbe_adv_rx_desc: read.pkt_addr and read.hdr_addr, and over the latter the status, the
-- length and the tag that the device writes back.
abbrev pub descriptor_at : ℕ → ℕ → ℕ
descriptor_at ring i = ring + i * 16

abbrev pub offsetof_hdr_addr : ℕ
offsetof_hdr_addr = 8

abbrev pub offsetof_status_error : ℕ
offsetof_status_error = 8

abbrev pub offsetof_length : ℕ
offsetof_length = 12

-- `buf->size = length`.
unfoldable pub set_size : (buf size : ℕ) → Run (Unit {0})
set_size buf size w = elim (w.bufs buf) [
  | none ↦ none
  | some b ↦ some (tt, record w { bufs = update w.bufs buf (some (record b { size = size })) })
]

-- What the loop of rx_batch keeps in its variables.
pub record Taking : Type 0 where
  pub i : ℕ
  pub rx_index : ℕ
  pub prev_rx_index : ℕ
  pub bufs : List ℕ

-- The loop goes on, or the function has returned -1 for want of a buffer; the caller's array is as
-- the loop left it.
pub data Outcome : Type 0 where
  taking : Taking → Outcome
  exhausted : List ℕ → Outcome

abbrev pub go_on : (Taking → Run Outcome) → Outcome → Run Outcome
go_on k (taking t) = k t
go_on k (exhausted bufs) = pure (exhausted bufs)

-- `return -1` of a uint32_t function.
abbrev pub minus_one : ℕ
minus_one = 2 ^ 32 - 1

-- What follows the loop: the new tail and the new index, if the index moved; `return i`.
unfoldable pub finish : Device → (queue_id : ℕ) → Outcome → Run (ℕ × List ℕ)
finish dev queue_id (exhausted bufs) = pure (minus_one, bufs)
finish dev queue_id (taking t) = if t.rx_index == t.prev_rx_index then pure (t.i, t.bufs) else do
  set_reg32 dev.addr (rdt queue_id) t.prev_rx_index
  modify (λ u. record u {
    queues = set_rx_index (queue_at dev.rx_queues queue_id) t.rx_index u.queues;
  })
  pure (t.i, t.bufs)

module _ (env : Env) where
  unfoldable pub load_status_error : (rxd : ℕ) → Run ℕ
  load_status_error rxd w =
      let a = rxd + offsetof_status_error in
      let status = env.read w.trace a % 2 ^ 32 in some (status, emit (Event.load32 a status) w)

  unfoldable pub load_length : (rxd : ℕ) → Run ℕ
  load_length rxd w =
      let a = rxd + offsetof_length in
      let length = env.read w.trace a % 2 ^ 16 in some (length, emit (Event.load16 a length) w)

  -- The body of the loop for a descriptor that is done.
  unfoldable pub take_one : (rxq : ℕ) → Taking → Run Outcome
  take_one rxq t = do
    w ← get
    let rxd = descriptor_at (descriptors rxq w.queues) t.rx_index
    length ← load_length rxd
    let buf = virtual_address rxq t.rx_index w.queues
    set_size buf length
    p_buf ← alloc_pkt_buf (mempool rxq w.queues)
    if p_buf == null then pure (exhausted t.bufs) else do
      v ← get
      p ← lift (v.bufs p_buf)
      modify (emit (Event.store64 rxd ((p.buf_addr_phy + offsetof_data) % 2 ^ 64)))
      modify (emit (Event.store64 (rxd + offsetof_hdr_addr) 0))
      modify (λ u. record u { queues = set_virtual_address rxq t.rx_index p_buf u.queues })
      bufs' ← lift (set? t.bufs t.i buf)
      u ← get
      pure (
          taking (record {
            i = t.i + 1;
            rx_index = wrap_ring t.rx_index (num_entries rxq u.queues);
            prev_rx_index = t.rx_index;
            bufs = bufs';
          }))

  -- The loop, with the rounds left. A round whose descriptor is not done only counts.
  unfoldable pub rx_loop : (rounds rxq : ℕ) → Taking → Run Outcome
  rx_loop zero rxq t = pure (taking t)
  rx_loop (suc rounds) rxq t = do
    w ← get
    status ← load_status_error (descriptor_at (descriptors rxq w.queues) t.rx_index)
    if bit_and status Flags.rxdadv_stat_dd == 0
        then rx_loop rounds rxq (record t { i = t.i + 1 })
        else do o ← take_one rxq t; go_on (rx_loop rounds rxq) o

  unfoldable pub rx_batch : Device → (queue_id : ℕ) → List ℕ → (num_buf : ℕ) → Run (ℕ × List ℕ)
  rx_batch dev queue_id bufs num_buf = do
    let rxq = queue_at dev.rx_queues queue_id
    w ← get
    let start = rx_index rxq w.queues
    o ← rx_loop num_buf rxq (record { i = 0; rx_index = start; prev_rx_index = start; bufs = bufs })
    finish dev queue_id o
