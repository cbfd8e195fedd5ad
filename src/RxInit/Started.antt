-- ===== src/RxInit/Started.antt =====
-- start_rx_queue of recv/init.c: the queue that it leaves to the device.
use mathlib.Core.Path.{subst}
use ixgbe82599_driver.Base.{
  length, ℕ, ◌+◌, ◌%◌, ◌^◌, ◌<◌, ◌≡◌, refl, sym, ap, ◌∙◌, some, arith, take, map, ◌>>=◌, bit_or,
}
use ixgbe82599_driver.Base.Memory.{Memory, load-store, load-store-Apart}
use ixgbe82599_driver.Base.Distinct.{Distinct, Distinct-take}
use ixgbe82599_driver.Ixgbe.Flags
use ixgbe82599_driver.Ixgbe.Registers
use ixgbe82599_driver.World.{Event, Env, Mempool, World, emit}
use ixgbe82599_driver.Mmio.{set_reg32, get_reg32, set_flag32, wait_set_reg32}
use ixgbe82599_driver.Mmio.Talks.{Talks-wait_set_reg32}
use ixgbe82599_driver.Dma.{allocate_mempool_mem}
use ixgbe82599_driver.Dma.NewPool.{allocate_mempool_mem-IsValid, pool_address, stale_buf_size}
use ixgbe82599_driver.Base.Countdown.{down_from, length-down_from}
use ixgbe82599_driver.Dma.Kept.{allocate_mempool_mem-queues}
use ixgbe82599_driver.Pool.{buf_at}
use ixgbe82599_driver.Pool.Stack.{stack, length-stack_of}
use ixgbe82599_driver.Pool.Alloc.{taken}
use ixgbe82599_driver.Pool.Valid.{IsValid}
use ixgbe82599_driver.Init.Returns.{SetsWithin, Returns-wait_set}
use ixgbe82599_driver.Rx.{Device, queue_at, descriptors, mempool, num_entries, rx_index}
use ixgbe82599_driver.RxInit.{fill_rx_ring, set_mempool, start_rx_queue}
use ixgbe82599_driver.RxInit.Queues.{Started}
use ixgbe82599_driver.RxInit.Filled.{Header, Offered, fill_rx_ring-Offered}

set_mempool-Header :
    (rxq pool : ℕ) (m : Memory)
    → pool < 2 ^ 64
    → Started rxq m
    → Header rxq (descriptors rxq m) pool 1012 0 (set_mempool rxq pool m)
unfolding set_mempool descriptors mempool num_entries rx_index
set_mempool-Header rxq pool m lt (n, z) = record {
  ring_at = load-store-Apart 8 8 _ pool _ m (omega arith);
  pool_at = load-store 8 _ pool m lt;
  size = load-store-Apart 2 8 _ pool _ m (omega arith) ∙ n;
  next = load-store-Apart 2 8 _ pool _ m (omega arith) ∙ z;
}

-- The world once the queue has its pool.
abbrev pub pooled : (rxq pool : ℕ) → World → World
pooled rxq pool w = record w { queues = set_mempool rxq pool w.queues }

pooled-IsValid :
    {n p : ℕ} {m : Mempool} {w : World} (rxq : ℕ) → IsValid n p m w → IsValid n p m (pooled rxq p w)
pooled-IsValid rxq v = record {
  here = v.here;
  array = v.array;
  small = v.small;
  top_le = v.top_le;
  below = v.below;
  distinct = v.distinct;
  header = v.header;
}

-- The flag, before the polling.
abbrev pub enabled : Env → Device → (queue : ℕ) → World → World
enabled env dev queue w =
    let a = dev.addr + Registers.rxdctl queue in
    let old = env.read w.trace a % 2 ^ 32 in
    emit (Event.store32 a (bit_or old Flags.rxdctl_enable % 2 ^ 32)) (emit (Event.load32 a old) w)

-- Head 0 and tail 1011.
abbrev pub whole_ring : Device → (queue : ℕ) → World → World
whole_ring dev queue w =
    emit (Event.store32 (dev.addr + Registers.rdt queue) 1011)
      (emit (Event.store32 (dev.addr + Registers.rdh queue) 0) w)

module _ (env : Env) (fuel : ℕ) (dev : Device) (queue : ℕ) where
  -- The parts of start_rx_queue, put together.
  start_rx_queue-parts :
      (pool : ℕ) (w w1 w2 w3 : World)
      → let rxq = queue_at dev.rx_queues queue in
        allocate_mempool_mem env 4096 2048 w ≡ some (pool, w1)
        → num_entries rxq (set_mempool rxq pool w1.queues) ≡ 1012
        → fill_rx_ring 1012 0 rxq (pooled rxq pool w1) ≡ some (tt, w2)
        → wait_set_reg32 env fuel dev.addr
            (Registers.rxdctl queue)
            Flags.rxdctl_enable
            (enabled env dev queue w2)
          ≡ some (tt, w3)
        → num_entries rxq w3.queues ≡ 1012
        → start_rx_queue env fuel dev queue w ≡ some (tt, whole_ring dev queue w3)
  unfolding start_rx_queue set_reg32 set_flag32 get_reg32
  start_rx_queue-parts pool w w1 w2 w3 made size filled waited size' =
      rw (made, ◌>>=◌) (rw (size, filled, ◌>>=◌) (rw (waited, ◌>>=◌) (rw size' refl)))

  -- The queue with its pool, and the buffers on the ring.
  pub pooled-Offered :
      (pool : ℕ) (m : Mempool) (w w1 : World)
      → let rxq = queue_at dev.rx_queues queue in
        Started rxq w.queues
        → pool < 2 ^ 64
        → w1.queues ≡ w.queues
        → IsValid 4096 pool m w1
        → stack m ≡ down_from 4096
        → let rxq = queue_at dev.rx_queues queue in
          (w2 : World) × (fill_rx_ring 1012 0 rxq (pooled rxq pool w1) ≡ some (tt, w2))
          × Offered rxq
              (descriptors rxq w.queues)
              pool
              0
              m
              (map (buf_at m) (take 1012 (stack m)))
              (pooled rxq pool w1)
              w2
          × IsValid 4096 pool (taken 1012 m) w2
          × Header rxq (descriptors rxq w.queues) pool 1012 0 w2.queues
          × (num_entries rxq (set_mempool rxq pool w1.queues) ≡ 1012)
  pooled-Offered pool m w w1 started lt same valid full =
      let rxq = queue_at dev.rx_queues queue in
      let header : Header rxq (descriptors rxq w.queues) pool 1012 0
          (set_mempool rxq pool w1.queues) =
        subst (λ q. Header rxq (descriptors rxq w.queues) pool 1012 0 (set_mempool rxq pool q))
          (sym same) (set_mempool-Header rxq pool w.queues lt started) in
      let (w2, run, offered, valid', header') =
        fill_rx_ring-Offered 4096 rxq (descriptors rxq w.queues) pool 1012 0 1012 0 m
          (pooled rxq pool w1) (pooled-IsValid rxq valid) header
          (omega (
            arith,
            length-stack_of m.free_stack m.free_stack_top,
            ap length full,
            length-down_from 4096,
          )) in
      (w2, run, offered, valid', header', header.size)

  -- On an empty queue of 1012 entries, if malloc gives an address of 64 bits for the pool and leaves
  -- 2048 in the place of buf_size, and the device shows that the queue is enabled within the fuel,
  -- start_rx_queue returns. It has made a valid pool of 4096 buffers for the queue and taken 1012
  -- different ones from it, offered them to the device in the descriptors 0 to 1011, each with the
  -- address of its data, and recorded each in virtual_address. It then has set the flag that enables the queue, waited for
  -- it, and written 0 to RDH and 1011 to RDT. The header of the queue is as before but for its pool.
  pub start_rx_queue-Offered :
      (w : World)
      → Started (queue_at dev.rx_queues queue) w.queues
      → pool_address env w 4096 < 2 ^ 64
      → stale_buf_size env w 4096 ≡ 2048
      → SetsWithin env fuel dev.addr (Registers.rxdctl queue) Flags.rxdctl_enable
      → let rxq = queue_at dev.rx_queues queue in
        let pool = pool_address env w 4096 in
        (m : Mempool) × (w1 w2 w3 : World) × (allocate_mempool_mem env 4096 2048 w
          ≡ some (pool, w1))
        × Offered rxq
            (descriptors rxq w.queues)
            pool
            0
            m
            (map (buf_at m) (take 1012 (stack m)))
            (pooled rxq pool w1)
            w2
        × Distinct (take 1012 (stack m))
        × IsValid 4096 pool (taken 1012 m) w2
        × Header rxq (descriptors rxq w.queues) pool 1012 0 w2.queues
        × (wait_set_reg32 env fuel dev.addr
              (Registers.rxdctl queue)
              Flags.rxdctl_enable
              (enabled env dev queue w2)
            ≡ some (tt, w3))
        × (start_rx_queue env fuel dev queue w ≡ some (tt, whole_ring dev queue w3))
  start_rx_queue-Offered w started lt lucky sets =
      let rxq = queue_at dev.rx_queues queue in
      let pool = pool_address env w 4096 in
      let reg = Registers.rxdctl queue in
      let (w1, m, made, valid, full) =
        allocate_mempool_mem-IsValid env 4096 2048 w (omega arith) (omega arith) (omega arith)
          lucky in
      let same = allocate_mempool_mem-queues env 4096 2048 w w1 pool made in
      let (w2, run, offered, valid', header, size) =
        pooled-Offered pool m w w1 started lt same valid full in
      let (_, w3, waited) =
        Returns-wait_set env fuel dev.addr reg Flags.rxdctl_enable sets
          (enabled env dev queue w2) in
      let kept : w3.queues ≡ w2.queues =
        ap (λ (v : World). v.queues)
          (Talks-wait_set_reg32 env fuel dev.addr reg Flags.rxdctl_enable (enabled env dev queue w2)
            w3 tt waited).1 in
      (
        m,
        w1,
        w2,
        w3,
        made,
        offered,
        Distinct-take 1012 (stack m) valid.distinct,
        valid',
        header,
        waited,
        start_rx_queue-parts pool w w1 w2 w3 made size run waited
            (ap (num_entries rxq) kept ∙ header.size),
      )
