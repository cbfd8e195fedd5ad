-- ===== src/World.antt =====
-- The state that the driver reads and writes: struct pkt_buf, struct mempool and struct dma_address
-- of send/struct.h, the memory of the queues, the global variables, and the trace of the accesses
-- that leave the program. What the device and the system answer is a parameter, `Env`.
use Prim.Native.String.{String}
use ixgbe82599_driver.Base.{ℕ, List, Option, M, ◌∷◌}
use ixgbe82599_driver.Base.Memory.{Memory}

-- The files that the program opens: one of the directory of a PCI device under /sys, and two of VFIO.
-- A PCI address is the text that the program was started with, as bytes.
pub data FilePath : Type 0 where
  device_file : (pci_addr : List ℕ) (name : String) → FilePath
  vfio_container : FilePath
  vfio_group : ℕ → FilePath

pub data Access : Type 0 where
  read_only write_only read_write : Access

-- The requests of ioctl, with what they pass.
pub data Request : Type 0 where
  get_api_version check_type1_iommu set_type1_iommu get_group_status : Request
  set_container : (container : Option ℕ) → Request
  get_device_fd : (pci_addr : List ℕ) → Request
  get_region_info : (index : ℕ) → Request
  map_dma : (vaddr iova size : ℕ) → Request
  unmap_dma : (iova size : ℕ) → Request

-- The calls of the system on files. A file descriptor is none where a call of open gave -1.
pub data Call : Type 0 where
  open_file : FilePath → Access → Call
  close_file : (fd : Option ℕ) → Call
  lseek : (fd : Option ℕ) (offset : ℕ) → Call
  read_file : (fd : Option ℕ) (size : ℕ) → Call
  write_file : (fd : Option ℕ) (bytes : List ℕ) → Call
  pread : (fd : Option ℕ) (size offset : ℕ) → Call
  pwrite : (fd : Option ℕ) (size value offset : ℕ) → Call
  stat_file : FilePath → Call
  fstat : (fd : Option ℕ) → Call
  readlink : FilePath → Call
  ioctl : (fd : Option ℕ) (request : Request) → Call
  map_file : (fd : Option ℕ) (size offset : ℕ) → Call
  clock_gettime : Call

-- What the program does to the device, to the memory that the device reads by DMA, and to the
-- system, with the value that it saw where it reads.
pub data Event : Type 0 where
  store32 : (address value : ℕ) → Event
  store64 : (address value : ℕ) → Event
  load32 : (address value : ℕ) → Event
  load16 : (address value : ℕ) → Event
  usleep : (microseconds : ℕ) → Event
  memset : (address byte size : ℕ) → Event
  malloc : (size address : ℕ) → Event
  mmap : (file size address : ℕ) → Event
  pagemap : (index entry : ℕ) → Event
  -- A call and its result, none for -1.
  call : Call → Option ℕ → Event

-- The newest event stands first.
abbrev pub Trace : Type 0
Trace = List Event

-- What the world outside answers, as a function of all that the program did before: the device's
-- registers and the memory that it writes by DMA (`read`), uninitialised memory (`uninit`), and the
-- results of system calls: `result` is what a call of `Call` returns, none for -1, and `answer` what
-- it leaves in the memory that it is given. Values wider than the access are cut by the access.
pub record Env : Type 0 where
  pub read : Trace → ℕ → ℕ
  pub uninit : Trace → ℕ → ℕ
  pub malloc : Trace → ℕ → ℕ
  pub mmap : Trace → ℕ → ℕ
  pub pagemap : Trace → ℕ → ℕ
  pub pagesize : ℕ
  pub result : Trace → Call → Option ℕ
  pub answer : Trace → Call → ℕ

-- struct pkt_buf: the header at the start of a buffer, and its bytes. Pointers are addresses.
pub record PktBuf : Type 0 where
  pub mempool : ℕ
  pub buf_addr_phy : ℕ
  pub mempool_idx : ℕ
  pub size : ℕ
  pub bytes : List ℕ

-- struct mempool. `free_stack` is the whole array, of which the first `free_stack_top` entries
-- are in use.
pub record Mempool : Type 0 where
  pub base_addr : ℕ
  pub buf_size : ℕ
  pub num_entries : ℕ
  pub free_stack_top : ℕ
  pub free_stack : List ℕ

-- struct dma_address.
pub record DmaAddress : Type 0 where
  pub virt_addr : ℕ
  pub phy_addr : ℕ

-- `pools` and `bufs` hold the objects by address; at an address where there is none, an access
-- faults. `queues` is the memory that holds the queue structures.
pub record World : Type 0 where
  pub trace : Trace
  pub pools : ℕ → Option Mempool
  pub bufs : ℕ → Option PktBuf
  pub queues : Memory
  pub clean_index : ℕ
  pub pci_id : ℕ
  pub vfio_container : Option ℕ

abbrev pub Run : Type 0 → Type 0
Run A = M World A

abbrev pub emit : Event → World → World
emit e w = record w { trace = e ∷ w.trace }
