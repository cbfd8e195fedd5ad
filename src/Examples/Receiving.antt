-- ===== src/Examples/Receiving.antt =====
-- The receive queue.
use ixgbe82599_driver.Base.{ℕ, ◌≤◌, drop, ◌<◌, ◌≡◌, refl, arith, set?, ◌∷◌, [], some}
use ixgbe82599_driver.Base.Memory.{load, store}
use ixgbe82599_driver.World.{Event, World}
use ixgbe82599_driver.Rx.{
  Device, descriptors, rx_index, load_status_error, load_length, take_one, set_size, mempool,
  num_entries, queue_at, virtual_address, set_virtual_address, rx_loop, finish, rx_batch,
}
use ixgbe82599_driver.Rx.Returned.{looked, waited_at, rx_batch-nothing}
use ixgbe82599_driver.Rx.Batch.{rx_batch-IsValid}
use ixgbe82599_driver.Pool.Stack.{stack}
use ixgbe82599_driver.Pool.Alloc.{taken}
use ixgbe82599_driver.Pool.Valid.{IsValid}
use ixgbe82599_driver.Examples.Pools.{four_bufs-header}
use ixgbe82599_driver.Rx.Stuck.{num_rx_queue_entries}
use ixgbe82599_driver.Rx.FourEntries.{rx_batch-four}
use ixgbe82599_driver.Pool.{pop, alloc_loop, alloc_pkt_buf, alloc_pkt_buf_batch}
use ixgbe82599_driver.Mmio.{set_reg32}
use ixgbe82599_driver.Tx.{wrap_ring}
use ixgbe82599_driver.RxInit.{init_rx_queue}
use ixgbe82599_driver.RxInit.Queues.{Started, init_rx_queue-Started}
use ixgbe82599_driver.Examples.Data.{
  silent, ready, ring_world, left_by, world_with, four_bufs, queue_memory,
}

abbrev receiver : Device
receiver = record { addr = 16777216; rx_queues = 4096; num_rx_queues = 1 }

-- Two looks at the same descriptor.
abbrev looked_twice : World
looked_twice = record ring_world { trace = Event.load32 1048584 0 ∷ Event.load32 1048584 0 ∷ [] }

nothing_received :
    rx_batch silent receiver 0 (7 ∷ 7 ∷ []) 2 ring_world ≡ some ((2, 7 ∷ 7 ∷ []), looked_twice)
unfolding rx_batch rx_loop finish load_status_error rx_index descriptors load
nothing_received = refl

-- Nothing was received, and 2 is returned.
rx_batch-nothing_example :
    rx_batch silent receiver 0 (7 ∷ 7 ∷ []) 2 ring_world
    ≡ some (
      (2, 7 ∷ 7 ∷ []),
      record ring_world { trace = looked silent (waited_at receiver 0 ring_world) 2 [] },
    )
rx_batch-nothing_example = rx_batch-nothing silent receiver 0 2 (7 ∷ 7 ∷ []) ring_world (λ t. refl)

-- The receiver's ring with the index at entry 3, which the device has filled.
abbrev filled : World
filled = world_with (four_bufs 2) (queue_memory num_rx_queue_entries 3 0)

abbrev received : World
received = left_by (rx_batch ready receiver 0 (7 ∷ []) 1) filled

-- The buffer of entry 3 is handed out.
one_received : rx_batch ready receiver 0 (7 ∷ []) 1 filled ≡ some ((1, 14336 ∷ []), received)
unfolding rx_batch rx_loop finish load_status_error load_length take_one set_size mempool
    num_entries virtual_address rx_index descriptors alloc_pkt_buf alloc_pkt_buf_batch alloc_loop
    pop load set_reg32 wrap_ring set? set_virtual_address store
one_received = refl

filled-IsValid : IsValid 4 (mempool (queue_at 4096 0) filled.queues) (four_bufs 2) filled
unfolding mempool load
filled-IsValid = record {
  here = refl;
  array = refl;
  small = omega arith;
  top_le = omega arith;
  below = (omega arith, (omega arith, tt));
  distinct = (refl, (refl, tt));
  header = four_bufs-header 2;
}

rx_batch-IsValid_example :
    let pool = mempool (queue_at 4096 0) filled.queues in
    (k : ℕ) × (k ≤ 1)
    × IsValid 4 pool (taken k (four_bufs 2)) received
    × (mempool (queue_at 4096 0) received.queues ≡ pool)
    × (stack (taken k (four_bufs 2)) ≡ drop k (1 ∷ 0 ∷ []))
rx_batch-IsValid_example =
    rx_batch-IsValid ready receiver 0 1 1 4 (7 ∷ []) (14336 ∷ []) (four_bufs 2) filled received
      filled-IsValid one_received

-- Behind entry 3 comes entry 0.
rx_batch-four_example :
    (num_entries (queue_at 4096 0) received.queues ≡ num_rx_queue_entries)
    × (rx_index (queue_at 4096 0) received.queues < 4)
unfolding num_entries rx_index load
rx_batch-four_example =
    rx_batch-four ready receiver 0 1 (7 ∷ []) (1, 14336 ∷ []) filled received refl (omega arith)
      one_received

abbrev two_queues : Device
two_queues = record { addr = 16777216; rx_queues = 4096; num_rx_queues = 2 }

init_rx_queue-Started_example :
    (w' : World) × (init_rx_queue ready two_queues filled ≡ some (tt, w'))
    × ((q : ℕ) → q < 2 → Started (queue_at 4096 q) w'.queues)
init_rx_queue-Started_example = init_rx_queue-Started ready two_queues filled
