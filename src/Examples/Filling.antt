-- ===== src/Examples/Filling.antt =====
-- The start of a receive queue.
use ixgbe82599_driver.Base.{◌≡◌, refl, arith, take, map, some}
use ixgbe82599_driver.Base.Distinct.{Distinct}
use ixgbe82599_driver.Base.Memory.{load}
use ixgbe82599_driver.Ixgbe.Flags
use ixgbe82599_driver.Ixgbe.Registers
use ixgbe82599_driver.World.{Mempool, World}
use ixgbe82599_driver.Mmio.{wait_set_reg32}
use ixgbe82599_driver.Dma.{allocate_mempool_mem}
use ixgbe82599_driver.Pool.{buf_at}
use ixgbe82599_driver.Pool.Stack.{stack}
use ixgbe82599_driver.Pool.Alloc.{taken}
use ixgbe82599_driver.Pool.Valid.{IsValid}
use ixgbe82599_driver.Init.Returns.{SetsWithin}
use ixgbe82599_driver.Rx.{Device, descriptors, num_entries, rx_index}
use ixgbe82599_driver.RxInit.{start_rx_queue}
use ixgbe82599_driver.RxInit.Queues.{Started}
use ixgbe82599_driver.RxInit.Filled.{Header, Offered}
use ixgbe82599_driver.RxInit.Started.{pooled, enabled, whole_ring, start_rx_queue-Offered}
use ixgbe82599_driver.Examples.Data.{ready, world_with, four_bufs, queue_memory}

abbrev receiver : Device
receiver = record { addr = 16777216; rx_queues = 4096; num_rx_queues = 1 }

-- A queue of 1012 entries, with its ring at 2^20.
abbrev unfilled : World
unfilled = world_with (four_bufs 2) (queue_memory 1012 0 0)

unfilled-Started : Started 4096 unfilled.queues
unfolding num_entries rx_index load
unfilled-Started = (refl, refl)

sets_at_once : SetsWithin ready 1 16777216 (Registers.rxdctl 0) Flags.rxdctl_enable
sets_at_once t = (0, omega arith, refl)

start_rx_queue-Offered_example :
    (m : Mempool) × (w1 w2 w3 : World) × (allocate_mempool_mem ready 4096 2048 unfilled
      ≡ some (4096, w1))
    × Offered 4096 1048576 4096 0 m (map (buf_at m) (take 1012 (stack m))) (pooled 4096 4096 w1) w2
    × Distinct (take 1012 (stack m))
    × IsValid 4096 4096 (taken 1012 m) w2
    × Header 4096 1048576 4096 1012 0 w2.queues
    × (wait_set_reg32 ready 1 16777216
          (Registers.rxdctl 0)
          Flags.rxdctl_enable
          (enabled ready receiver 0 w2)
        ≡ some (tt, w3))
    × (start_rx_queue ready 1 receiver 0 unfilled ≡ some (tt, whole_ring receiver 0 w3))
unfolding descriptors load
start_rx_queue-Offered_example =
    start_rx_queue-Offered ready 1 receiver 0 unfilled unfilled-Started (omega arith) refl
      sets_at_once
