-- ===== src/Examples/Sending.antt =====
-- The send queue.
use ixgbe82599_driver.Base.{◌+◌, ◌/◌, ◌≡◌, refl, ◌∷◌, [], some, arith, modify, ◌>>=◌}
use ixgbe82599_driver.Base.Memory.{load}
use ixgbe82599_driver.World.{Event, World, emit}
use ixgbe82599_driver.Mmio.{set_reg32}
use ixgbe82599_driver.Ixgbe.Registers.{tdt}
use ixgbe82599_driver.TxQueue.{
  queue_at, descriptors, num_entries, clean_index, tx_index, set_virtual_address,
}
use ixgbe82599_driver.TxQueue.Layout.{queue_overlap}
use ixgbe82599_driver.Tx.{tx_clean, clean_loop, transmit, wrap_ring, transmit_loop, post}
use ixgbe82599_driver.Tx.Ring.{between, IsRing, wrap_ring-mod}
use ixgbe82599_driver.Tx.Clean.{reclaim, tx_clean-reclaim}
use ixgbe82599_driver.Tx.Post.{Posted, transmit-posts-all}
use ixgbe82599_driver.Tx.Kept.{transmit-clean_index}
use ixgbe82599_driver.Examples.Data.{
  ready, silent, ring_world, left_by, device, zeros_memory, queue_memory, four_bufs, world_with,
  header_of,
}

IsRing-128 : IsRing 7 128
IsRing-128 = record { size = refl; small = omega arith; some_entries = omega arith }

wrap_ring-mod_example : wrap_ring 127 128 ≡ 0
wrap_ring-mod_example = wrap_ring-mod 7 128 127 IsRing-128

-- 100 entries were posted, and the device is done with the first batch of 64.
tx_clean-reclaim_example :
    tx_clean ready 4096 ring_world
    ≡ (do
      clean ← reclaim ready (between 0 100 128 / 64) 4096 1048576 128 0
      modify (λ u. record u { clean_index = clean }))
        ring_world
unfolding num_entries clean_index tx_index descriptors load
tx_clean-reclaim_example =
    tx_clean-reclaim ready 7 4096 ring_world IsRing-128 (omega arith) (omega arith) (omega arith)

queue_overlap_example :
    num_entries (queue_at 4096 1) (set_virtual_address (queue_at 4096 0) 2 0x12345678 zeros_memory)
    ≡ 0x5678
queue_overlap_example = queue_overlap 4096 0 0x12345678 zeros_memory

-- A ring of 4 entries with its tail at the last one.
abbrev small_ring : World
small_ring = world_with (four_bufs 2) (queue_memory 4 0 3)

IsRing-4 : IsRing 2 4
IsRing-4 = record { size = refl; small = omega arith; some_entries = omega arith }

clean_stays : tx_clean silent 4096 small_ring ≡ some (tt, small_ring)
unfolding tx_clean clean_loop num_entries clean_index tx_index descriptors load
clean_stays = refl

-- Six buffers go into a ring of four entries: the first two are overwritten.
transmit-posts-all_example :
    (w' : World) × (transmit silent device 0
        (8192 ∷ 10240 ∷ 12288 ∷ 14336 ∷ 8192 ∷ 10240 ∷ [])
        6
        small_ring
      ≡ some (tt, emit (Event.store32 (device.addr + tdt 0) 1) w'))
    × Posted 4096 1048576 4 3 (8192 ∷ 10240 ∷ 12288 ∷ 14336 ∷ 8192 ∷ 10240 ∷ []) small_ring w'
    × (tx_index 4096 w'.queues ≡ 1)
unfolding num_entries clean_index tx_index descriptors load
transmit-posts-all_example =
    transmit-posts-all silent 2 device 0 6 (8192 ∷ 10240 ∷ 12288 ∷ 14336 ∷ 8192 ∷ 10240 ∷ [])
      small_ring small_ring clean_stays IsRing-4 (omega arith) (omega arith) (omega arith)
      (
        (header_of 0, refl),
        (
          (header_of 1, refl),
          (
            (header_of 2, refl),
            ((header_of 3, refl), ((header_of 0, refl), ((header_of 1, refl), tt))),
          ),
        ),
      )

abbrev sent : World
sent = left_by (transmit silent device 0 (8192 ∷ []) 1) small_ring

sent_run : transmit silent device 0 (8192 ∷ []) 1 small_ring ≡ some (tt, sent)
unfolding transmit tx_clean clean_loop transmit_loop post set_reg32 wrap_ring num_entries
    clean_index tx_index descriptors load
sent_run = refl

transmit-clean_index_example :
    clean_index (queue_at 4096 0) sent.queues ≡ clean_index (queue_at 4096 0) small_ring.queues
transmit-clean_index_example =
    transmit-clean_index silent device 0 1 (8192 ∷ []) small_ring sent sent_run
