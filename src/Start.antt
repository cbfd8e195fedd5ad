-- ===== src/Start.antt =====
-- send/init.c: start_ixgbe and do_ixgbe, and the memory that calloc gives.
pub mod Ready
pub mod First
use ixgbe82599_driver.Base.{
  ℕ, ◌+◌, ◌*◌, List, ◌∷◌, some, false, ◌&&◌, pure, ◌>>=◌, ◌>>◌, modify, leb, ltb, if◌then◌else◌,
}
use ixgbe82599_driver.Base.Memory.{Memory}
use ixgbe82599_driver.World.{Event, Env, Run, emit, device_file, read_only, stat_file, open_file}
use ixgbe82599_driver.Sys.{call, read_io16, read_io32}
use ixgbe82599_driver.Pci.{pci_map_resource}
use ixgbe82599_driver.Vfio.{init_vfio, vfio_map_region}
use ixgbe82599_driver.TxQueue.{Device, sizeof_tx_queue}
use ixgbe82599_driver.Init.{do_init_seq}

-- sizeof(struct ixgbe_device).
abbrev pub sizeof_device : ℕ
sizeof_device = 56

abbrev pub max_tx_queue_entries : ℕ
max_tx_queue_entries = 4096

-- VFIO_PCI_BAR0_REGION_INDEX of linux/vfio.h.
abbrev pub bar0_region_index : ℕ
bar0_region_index = 0

-- Zeros in the n bytes from a on.
unfoldable pub cleared : (a n : ℕ) → Memory → Memory
cleared a n m b = if leb a b && ltb b (a + n) then 0 else m b

module _ (env : Env) where
  unfoldable pub calloc : (count size : ℕ) → Run ℕ
  calloc count size w =
      let n = count * size in
      let a = env.malloc w.trace n in
      some (a, record w { trace = Event.malloc n a ∷ w.trace; queues = cleared a n w.queues })

  unfoldable pub map_by_vfio : (pci_addr : List ℕ) → Run ℕ
  map_by_vfio pci_addr = do
    vfio_fd ← init_vfio env pci_addr
    vfio_map_region env vfio_fd bar0_region_index

  -- The registers of the device. The result of stat is replaced by false, so the first branch is
  -- not taken.
  unfoldable pub map_device : (pci_addr : List ℕ) → Run ℕ
  map_device pci_addr = do
    call env (stat_file (device_file pci_addr "iommu_group"))
    let vfio = false
    if vfio then map_by_vfio pci_addr else pci_map_resource env pci_addr

  -- The number of queues is compared with MAX_QUEUES only for a message, and so is the user.
  unfoldable pub start_ixgbe : (fuel : ℕ) (pci_addr : List ℕ) (rx_queues tx_queues : ℕ) → Run Device
  start_ixgbe fuel pci_addr rx_queues tx_queues = do
    modify (λ u. emit (Event.malloc sizeof_device (env.malloc u.trace sizeof_device)) u)
    addr ← map_device pci_addr
    queues ← calloc tx_queues (sizeof_tx_queue + 8 * max_tx_queue_entries)
    let ix_dev : Device = record { addr = addr; tx_queues = queues; num_tx_queues = tx_queues }
    do_init_seq env fuel ix_dev
    pure ix_dev

  -- The identifiers of the device are only printed.
  unfoldable pub do_ixgbe : (fuel : ℕ) (pci_addr : List ℕ) (rx_queue tx_queue : ℕ) → Run Device
  do_ixgbe fuel pci_addr rx_queue tx_queue = do
    config_fd ← call env (open_file (device_file pci_addr "config") read_only)
    read_io16 env config_fd 0
    read_io16 env config_fd 2
    read_io32 env config_fd 8
    start_ixgbe fuel pci_addr rx_queue tx_queue
