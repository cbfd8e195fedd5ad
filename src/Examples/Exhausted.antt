-- ===== src/Examples/Exhausted.antt =====
-- The receiving program when the pool of its queue is empty.
use ixgbe82599_driver.Base.{
  ap, ℕ, ◌*◌, ◌/◌, ◌%◌, ◌^◌, ◌<◌, ◌≡◌, refl, [], ◌∷◌, some, arith, replicate,
}
use ixgbe82599_driver.Base.Memory.{load}
use ixgbe82599_driver.Clock
use ixgbe82599_driver.Mmio.{sleep_us, get_reg32}
use ixgbe82599_driver.World.{Mempool, World}
use ixgbe82599_driver.Pool.{alloc_pkt_buf, alloc_pkt_buf_batch, alloc_loop, pop}
use ixgbe82599_driver.Pool.Valid.{HasHeader}
use ixgbe82599_driver.Rx.{
  Device, descriptors, rx_index, num_entries, mempool, virtual_address, load_status_error,
  load_length, take_one, set_size, rx_loop, finish, rx_batch,
}
use ixgbe82599_driver.RxStart.Ready.{Receiving}
use ixgbe82599_driver.Stats.{read_stats, read_counters, add_reading}
use ixgbe82599_driver.Receiver.{receive_rounds, zero_stats}
use ixgbe82599_driver.Receiver.Rounds.{receive_rounds-Receiving}
use ixgbe82599_driver.Examples.Data.{ready, world_with, queue_memory, header_of, left_by}

abbrev receiver : Device
receiver = record { addr = 16777216; rx_queues = 4096; num_rx_queues = 1 }

abbrev exhausted_pool : Mempool
exhausted_pool = record {
  base_addr = 8192;
  buf_size = 2048;
  num_entries = 2048;
  free_stack_top = 0;
  free_stack = replicate 4096 0;
}

abbrev exhausted : World
exhausted = world_with exhausted_pool (queue_memory 1012 0 0)

exhausted-header : (i : ℕ) → i < 4096 → HasHeader 4096 exhausted_pool exhausted i
exhausted-header i lt = (
  header_of ((i * 2048) % 2 ^ 32 / 2048),
  ap (λ k. some (header_of (k / 2048))) {y = i * 2048 % 2 ^ 32} (omega arith),
  refl,
  omega arith,
)

exhausted-Receiving : Receiving 4096 exhausted
unfolding num_entries rx_index mempool load
exhausted-Receiving = record {
  pool = exhausted_pool;
  valid = record {
    here = refl;
    array = refl;
    small = omega arith;
    top_le = omega arith;
    below = tt;
    distinct = tt;
    header = exhausted-header;
  };
  size = refl;
  first_four = omega arith;
  out = 4096;
  whole_ring = omega arith;
  rest = refl;
}

abbrev one_round : World
one_round = left_by (receive_rounds ready 1 receiver 0 (7 ∷ []) (some zero_stats)) exhausted

-- The round finds a packet and no buffer to put in its place, and leaves the array alone.
one_round_run :
    receive_rounds ready 1 receiver 0 (7 ∷ []) (some zero_stats) exhausted
    ≡ some ((7 ∷ [], some zero_stats), one_round)
unfolding receive_rounds sleep_us rx_batch rx_loop finish load_status_error load_length take_one
    set_size mempool num_entries virtual_address rx_index descriptors alloc_pkt_buf
    alloc_pkt_buf_batch alloc_loop pop load Clock.monotonic_time read_stats read_counters
    add_reading get_reg32
one_round_run = refl

receive_rounds-Receiving_example : Receiving 4096 one_round
receive_rounds-Receiving_example =
    receive_rounds-Receiving ready 1 receiver 0 (7 ∷ []) (some zero_stats) exhausted one_round
      (7 ∷ [], some zero_stats) exhausted-Receiving one_round_run
