-- ===== src/Examples/Starting.antt =====
-- The start of the device, and the sending program.
use ixgbe82599_driver.Base.{
  zero, suc, ◌∷◌, ◌+◌, ℕ, ◌-◌, ◌^◌, ◌<◌, ◌≡◌, refl, List, [], some, arith, ◌==◌, if◌then◌else◌,
  replicate, take, drop, update,
}
use ixgbe82599_driver.Ixgbe.Flags
use ixgbe82599_driver.Ixgbe.Registers.{tdt, txdctl}
use ixgbe82599_driver.Init.Returns.{SetsWithin, do_init_seq-returns}
use ixgbe82599_driver.Tx.Post.{AllBufs, Posted}
use ixgbe82599_driver.Start.First.{transmit-start_ixgbe}
use ixgbe82599_driver.World.{Event, Env, World, Mempool, emit}
use ixgbe82599_driver.Checksum.{half_words, calc_ip_checksum}
use ixgbe82599_driver.Mmio.{
  set_reg32, get_reg32, set_flag32, unset_flag32, sleep_us, poll_reg32, wait_set_reg32,
  wait_clear_reg32,
}
use ixgbe82599_driver.Stats.{read_counters}
use ixgbe82599_driver.Link.{link_speed_of, ixgbe_get_link_speed, wait_for_link, wait_for_link_loop}
use ixgbe82599_driver.Dma.{allocate_dma_address, virt_to_phys}
use ixgbe82599_driver.TxQueue.{
  Device, queue_at, descriptors, num_entries, clean_index, tx_index, set_tx_index,
  set_virtual_address,
}
use ixgbe82599_driver.Init.{
  init_link, init_stats, init_tx_packet_buffers, init_tx_reg, init_one_tx_queue,
  init_tx_queues_from, init_tx_queue, init_tx, start_tx_queue, start_tx_queues_from, do_init_seq,
}
use ixgbe82599_driver.Init.Order.{InOrder, do_init_seq_order}
use ixgbe82599_driver.Sys.{call, call_into, call_filling}
use ixgbe82599_driver.Pci.{remove_driver, enable_dma, pci_map_resource}
use ixgbe82599_driver.Start.{calloc, map_device, start_ixgbe}
use ixgbe82599_driver.Start.Ready.{start_ixgbe-ready}
use ixgbe82599_driver.Pool.Valid.{IsValid}
use ixgbe82599_driver.Sender.{init_mempool, send_rounds}
use ixgbe82599_driver.Sender.Reposted.{send_rounds-reposts}
use ixgbe82599_driver.Tx.{wrap_ring, transmit, tx_clean, clean_loop, transmit_loop, post}
use ixgbe82599_driver.Base.Memory.{load, store}
use ixgbe82599_driver.Sender.NewPackets.{Carries}
use ixgbe82599_driver.Sender.Ready.{sent_packet, sent_bytes, init_mempool_lem}
use ixgbe82599_driver.Examples.Data.{
  header_of, ready, silent, world_with, queue_memory, four_bufs, ring_world, pool_world, device,
  left_by,
}

-- A device that is out of reset and ready for the rest, with its registers mapped at 2^24.
abbrev pub started : Env
started = record ready {
  read = λ t a. if a == 16777216 then 0 else 2 ^ 32 - 1;
  result = λ t c. some 16777216;
}

abbrev initialised : World
initialised = left_by (do_init_seq started 2 device) ring_world

initialised_run : do_init_seq started 2 device ring_world ≡ some (tt, initialised)
unfolding do_init_seq set_reg32 get_reg32 set_flag32 unset_flag32 sleep_us poll_reg32 wait_set_reg32
    wait_clear_reg32 read_counters link_speed_of ixgbe_get_link_speed wait_for_link
    wait_for_link_loop allocate_dma_address virt_to_phys init_link init_stats init_tx_packet_buffers
    init_tx_reg init_one_tx_queue init_tx_queues_from init_tx_queue init_tx start_tx_queue
    start_tx_queues_from
initialised_run = refl

do_init_seq_order_example : InOrder started 16777216 ring_world initialised
do_init_seq_order_example =
    do_init_seq_order started 2 device ring_world initialised initialised_run

abbrev one_queue : Device
one_queue = record { addr = 16777216; tx_queues = 4096; num_tx_queues = 1 }

abbrev up : World
up = left_by (start_ixgbe started 2 [] 1 1) ring_world

up_run : start_ixgbe started 2 [] 1 1 ring_world ≡ some (one_queue, up)
unfolding do_init_seq set_reg32 get_reg32 set_flag32 unset_flag32 sleep_us poll_reg32 wait_set_reg32
    wait_clear_reg32 read_counters link_speed_of ixgbe_get_link_speed wait_for_link
    wait_for_link_loop allocate_dma_address virt_to_phys init_link init_stats init_tx_packet_buffers
    init_tx_reg init_one_tx_queue init_tx_queues_from init_tx_queue init_tx start_tx_queue
    start_tx_queues_from call call_into call_filling remove_driver enable_dma pci_map_resource
    calloc map_device start_ixgbe
up_run = refl

start_ixgbe-ready_example :
    (one_queue.num_tx_queues ≡ 1)
    × (num_entries (queue_at 4096 0) up.queues ≡ 512)
    × (clean_index (queue_at 4096 0) up.queues ≡ 0)
    × (tx_index (queue_at 4096 0) up.queues ≡ 0)
start_ixgbe-ready_example =
    start_ixgbe-ready started 2 [] 1 1 0 one_queue ring_world up up_run (omega arith)

abbrev two_bufs : List ℕ
two_bufs = 8192 ∷ 10240 ∷ []

two_bufs-up : AllBufs two_bufs up
unfolding do_init_seq set_reg32 get_reg32 set_flag32 unset_flag32 sleep_us poll_reg32 wait_set_reg32
    wait_clear_reg32 read_counters link_speed_of ixgbe_get_link_speed wait_for_link
    wait_for_link_loop allocate_dma_address virt_to_phys init_link init_stats init_tx_packet_buffers
    init_tx_reg init_one_tx_queue init_tx_queues_from init_tx_queue init_tx start_tx_queue
    start_tx_queues_from call call_into call_filling remove_driver enable_dma pci_map_resource
    calloc map_device start_ixgbe
two_bufs-up = ((header_of 0, refl), ((header_of 1, refl), tt))

transmit-start_ixgbe_example :
    (w2 : World) × (transmit started one_queue 0 two_bufs 2 up
      ≡ some (tt, emit (Event.store32 (16777216 + tdt 0) 2) w2))
    × Posted 4096 (descriptors 4096 up.queues) 512 0 two_bufs (record up { clean_index = 0 }) w2
    × (tx_index 4096 w2.queues ≡ 2)
transmit-start_ixgbe_example =
    transmit-start_ixgbe started 2 [] 1 1 0 one_queue ring_world up 2 two_bufs up_run (omega arith)
      (omega arith) two_bufs-up

-- The first load of each polling loop shows what it waits for.
sets_at_once : (i : ℕ) → i < 1 → SetsWithin started 2 16777216 (txdctl i) Flags.txdctl_enable
sets_at_once zero lt t = (0, omega arith, refl)
sets_at_once (suc i) lt t = absurd (omega arith)

do_init_seq-returns_example :
    (w' : World) × (do_init_seq started 2 device ring_world ≡ some (tt, w'))
do_init_seq-returns_example =
    do_init_seq-returns started 2 device ring_world (λ t. (0, omega arith, refl))
      (λ t. (0, omega arith, refl)) (λ t. (0, omega arith, refl)) sets_at_once

-- malloc leaves 2048 in the place of buf_size.
init_mempool_lem_example :
    (c : ℕ) × (w' : World) × (m : Mempool) × (init_mempool ready 1210 (pool_world 0)
      ≡ some (4096, w'))
    × IsValid 2048 4096 m w'
    × (m.free_stack_top ≡ 2048)
    × ((i : ℕ) → i < 2048 → Carries 1210 (sent_bytes c) m w' i)
    × (calc_ip_checksum (half_words (take 20 (drop 14 (sent_packet c)))) 20 ≡ some 0)
init_mempool_lem_example = init_mempool_lem ready 1210 (pool_world 0) refl

-- A ring of 128 entries and a pool of which all buffers are out.
abbrev drained : World
drained = world_with (four_bufs 0) (queue_memory 128 0 0)

abbrev again : List ℕ
again = replicate 68 8192

abbrev sent_once : World
sent_once = left_by (transmit silent device 0 again 68) drained

sent_once_run : transmit silent device 0 again 68 drained ≡ some (tt, sent_once)
unfolding transmit tx_clean clean_loop transmit_loop post set_reg32 wrap_ring num_entries
    clean_index tx_index descriptors load store set_tx_index set_virtual_address
sent_once_run = refl

still_drained : sent_once.pools 4096 ≡ some (four_bufs 0)
unfolding transmit tx_clean clean_loop transmit_loop post set_reg32 wrap_ring num_entries
    clean_index tx_index descriptors load store set_tx_index set_virtual_address
still_drained = refl

send_rounds-reposts_example :
    send_rounds silent 2 device 4096 again drained
    ≡ send_rounds silent 1 device 4096 again
        (record sent_once { pools = update sent_once.pools 4096 (some (four_bufs 0)) })
send_rounds-reposts_example =
    send_rounds-reposts silent 1 device 4096 again drained sent_once (four_bufs 0) sent_once_run
      still_drained (record { top_le = omega arith; small = omega arith }) (omega arith)
