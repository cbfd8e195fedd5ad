-- ===== src/Examples/Safety.antt =====
-- The safety of the sender, on a run of its programs.
use ixgbe82599_driver.Base.{◌∷◌, ℕ, ◌≡◌, refl, replicate, set?, List, [], some, arith}
use ixgbe82599_driver.World.{World}
use ixgbe82599_driver.Mmio.{
  set_reg32, get_reg32, set_flag32, unset_flag32, sleep_us, poll_reg32, wait_set_reg32,
  wait_clear_reg32,
}
use ixgbe82599_driver.Stats.{read_counters}
use ixgbe82599_driver.Link.{link_speed_of, ixgbe_get_link_speed, wait_for_link, wait_for_link_loop}
use ixgbe82599_driver.Dma.{allocate_dma_address, virt_to_phys}
use ixgbe82599_driver.TxQueue.{
  Device, set_descriptors, set_num_entries, descriptors, num_entries, clean_index, tx_index,
  set_tx_index, set_virtual_address,
}
use ixgbe82599_driver.Init.{
  init_link, init_stats, init_tx_packet_buffers, init_tx_reg, init_one_tx_queue,
  init_tx_queues_from, init_tx_queue, init_tx, start_tx_queue, start_tx_queues_from, do_init_seq,
}
use ixgbe82599_driver.Sys.{call, call_into, call_filling, read_io}
use ixgbe82599_driver.Pci.{remove_driver, enable_dma, pci_map_resource}
use ixgbe82599_driver.Start.{cleared, calloc, map_device, start_ixgbe, do_ixgbe}
use ixgbe82599_driver.Pool.{alloc_pkt_buf_batch, alloc_loop, pop}
use ixgbe82599_driver.Sender.{send_rounds}
use ixgbe82599_driver.Tx.{wrap_ring, transmit, tx_clean, clean_loop, transmit_loop, post}
use ixgbe82599_driver.Base.Memory.{load, store}
use ixgbe82599_driver.Examples.Data.{left_by, world_with, zeros_memory, four_bufs}
use ixgbe82599_driver.Examples.Starting.{started}
use ixgbe82599_driver.Safety.{AllSafe}
use ixgbe82599_driver.Safety.Rings.{MapsAddresses}
use ixgbe82599_driver.Safety.Sending.{send_rounds-AllSafe}

started-MapsAddresses : MapsAddresses started
started-MapsAddresses t size = omega arith

abbrev new_world : World
new_world = world_with (four_bufs 4) zeros_memory

abbrev two_queues : Device
two_queues = record { addr = 16777216; tx_queues = 4096; num_tx_queues = 2 }

abbrev done : World
done = left_by (do_ixgbe started 2 [] 2 2) new_world

done_run : do_ixgbe started 2 [] 2 2 new_world ≡ some (two_queues, done)
unfolding do_init_seq set_reg32 get_reg32 set_flag32 unset_flag32 sleep_us poll_reg32 wait_set_reg32
    wait_clear_reg32 read_counters link_speed_of ixgbe_get_link_speed wait_for_link
    wait_for_link_loop allocate_dma_address virt_to_phys init_link init_stats init_tx_packet_buffers
    init_tx_reg init_one_tx_queue init_tx_queues_from init_tx_queue init_tx start_tx_queue
    start_tx_queues_from call call_into call_filling remove_driver enable_dma pci_map_resource
    calloc map_device start_ixgbe do_ixgbe read_io
done_run = refl

-- The four buffers of the pool, and the array's old content behind them.
abbrev batch : List ℕ
batch = 14336 ∷ 12288 ∷ 10240 ∷ 8192 ∷ replicate 64 8192

abbrev filled : World
filled = left_by (alloc_pkt_buf_batch 4096 (replicate 68 8192) 68) done

filled_run : alloc_pkt_buf_batch 4096 (replicate 68 8192) 68 done ≡ some ((4, batch), filled)
unfolding alloc_pkt_buf_batch alloc_loop pop set? do_init_seq set_reg32 get_reg32 set_flag32
    unset_flag32 sleep_us poll_reg32 wait_set_reg32 wait_clear_reg32 read_counters link_speed_of
    ixgbe_get_link_speed wait_for_link wait_for_link_loop allocate_dma_address virt_to_phys
    init_link init_stats init_tx_packet_buffers init_tx_reg init_one_tx_queue init_tx_queues_from
    init_tx_queue init_tx start_tx_queue start_tx_queues_from call call_into call_filling
    remove_driver enable_dma pci_map_resource calloc map_device start_ixgbe do_ixgbe read_io
filled_run = refl

abbrev sent : World
sent = left_by (send_rounds started 1 two_queues 4096 batch) filled

sent_run : send_rounds started 1 two_queues 4096 batch filled ≡ some (batch, sent)
unfolding alloc_pkt_buf_batch alloc_loop pop set? do_init_seq set_reg32 get_reg32 set_flag32
    unset_flag32 sleep_us poll_reg32 wait_set_reg32 wait_clear_reg32 read_counters link_speed_of
    ixgbe_get_link_speed wait_for_link wait_for_link_loop allocate_dma_address virt_to_phys
    init_link init_stats init_tx_packet_buffers init_tx_reg init_one_tx_queue init_tx_queues_from
    init_tx_queue init_tx start_tx_queue start_tx_queues_from call call_into call_filling
    remove_driver enable_dma pci_map_resource calloc map_device start_ixgbe do_ixgbe read_io
    set_descriptors set_num_entries cleared send_rounds transmit tx_clean clean_loop transmit_loop
    post wrap_ring num_entries clean_index tx_index descriptors load store set_tx_index
    set_virtual_address
sent_run = refl

send_rounds-AllSafe_example : AllSafe 16777216 sent.trace
send_rounds-AllSafe_example =
    send_rounds-AllSafe started started-MapsAddresses 2 1 4096 4 [] (replicate 68 8192) batch batch
      two_queues new_world done filled sent (λ addr. tt) done_run filled_run sent_run
