-- ===== src/Examples/Data.antt =====
-- The devices, pools, buffers and queues of the examples.
use ixgbe82599_driver.Base.{
  ℕ, ◌+◌, ◌-◌, ◌*◌, ◌/◌, ◌%◌, ◌^◌, [], ◌∷◌, Option, none, some, ltb, ◌==◌, if◌then◌else◌, get_or,
  replicate,
}
use ixgbe82599_driver.Base.Memory.{Memory}
use ixgbe82599_driver.World.{Env, PktBuf, Mempool, World, Run}
use ixgbe82599_driver.TxQueue.{Device}

-- All registers read as `value`; memory is fresh, with `garbage` in it.
abbrev pub device_reading : (value garbage : ℕ) → Env
device_reading value garbage = record {
  read = λ t a. value;
  uninit = λ t a. garbage;
  malloc = λ t size. 4096;
  mmap = λ t size. 2097152;
  pagemap = λ t page. page;
  pagesize = 4096;
  result = λ t c. none;
  answer = λ t c. 0;
}

abbrev pub ready : Env
ready = device_reading (2 ^ 32 - 1) 2048

abbrev pub silent : Env
silent = device_reading 0 0

-- Four buffers of 2048 bytes at 8192, all of them free, or the top two of them out.
abbrev pub four_bufs : ℕ → Mempool
four_bufs free = record {
  base_addr = 8192;
  buf_size = 2048;
  num_entries = 4;
  free_stack_top = free;
  free_stack = 0 ∷ 1 ∷ 2 ∷ 3 ∷ [];
}

abbrev pub header_of : ℕ → PktBuf
header_of i = record {
  mempool = 4096;
  buf_addr_phy = 65536 + i * 2048;
  mempool_idx = i;
  size = 60;
  bytes = [];
}

-- A buffer header at every multiple of 2048 from 8192 on.
abbrev pub headers : ℕ → Option PktBuf
headers a = some (header_of ((a - 8192) / 2048))

-- Byte i of a number.
abbrev pub byte : (i v : ℕ) → ℕ
byte i v = v / 256 ^ i % 256

-- A queue structure at 4096 with the ring at 2^20 and the pool at 4096: num_entries, clean_index and tx_index as given,
-- and buffer i in virtual_address[i].
abbrev pub queue_memory : (num clean tx : ℕ) → Memory
queue_memory num clean tx a =
    let o = a - 4096 in
    if ltb o 8
    then byte o 1048576
    else if ltb o 16
    then byte (o - 8) 4096
    else if ltb o 24
    then get_or
        (byte 0 num ∷ byte 1 num ∷ byte 0 clean ∷ byte 1 clean ∷ byte 0 tx ∷ byte 1 tx ∷ 0 ∷ 0 ∷ [])
        (o - 16) 0
    else byte ((o - 24) % 8) (8192 + (o - 24) / 8 * 2048)

abbrev pub world_with : Mempool → Memory → World
world_with m q = record {
  trace = [];
  pools = λ a. if a == 4096 then some m else none;
  bufs = headers;
  queues = q;
  clean_index = 0;
  pci_id = 0;
  vfio_container = none;
}

abbrev pub zeros_memory : Memory
zeros_memory a = 0

-- The world with the four buffers, of which `free` are free.
abbrev pub pool_world : (free : ℕ) → World
pool_world free = world_with (four_bufs free) zeros_memory

-- A pool whose 128 buffers are all out.
abbrev pub empty_pool : Mempool
empty_pool = record {
  base_addr = 8192;
  buf_size = 2048;
  num_entries = 128;
  free_stack_top = 0;
  free_stack = replicate 128 0;
}

-- A ring of 128 entries, 100 of which were posted.
abbrev pub ring_world : World
ring_world = world_with empty_pool (queue_memory 128 0 100)

abbrev pub device : Device
device = record { addr = 16777216; tx_queues = 4096; num_tx_queues = 1 }

-- The world that a run leaves, the world before if it faults.
abbrev pub left_by : {A : Type 0} → Run A → World → World
left_by run w = elim (run w) [ none ↦ w | some (_, w') ↦ w' ]
