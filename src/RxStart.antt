-- ===== src/RxStart.antt =====
-- recv/init.c: start_ixgbe and do_ixgbe of the receiver.
pub mod Ready
pub mod One
pub mod Returns
use ixgbe82599_driver.Base.{ℕ, ◌+◌, ◌*◌, List, false, pure, ◌>>=◌, ◌>>◌, modify, if◌then◌else◌}
use ixgbe82599_driver.World.{Event, Env, Run, emit, device_file, read_only, open_file, stat_file}
use ixgbe82599_driver.Sys.{call}
use ixgbe82599_driver.Start.{calloc, bar0_region_index}
use ixgbe82599_driver.Recv.Files.{read_io16, read_io32}
use ixgbe82599_driver.Recv.Pci.{pci_map_resource}
use ixgbe82599_driver.Recv.Vfio.{init_vfio, vfio_map_region}
use ixgbe82599_driver.Rx.{Device, sizeof_rx_queue}
use ixgbe82599_driver.RxInit.{do_init_seq}

-- sizeof(struct ixgbe_device).
abbrev pub sizeof_device : ℕ
sizeof_device = 48

abbrev pub max_rx_queue_entries : ℕ
max_rx_queue_entries = 4096

module _ (env : Env) where
  unfoldable pub map_by_vfio : (pci_addr : List ℕ) → Run ℕ
  map_by_vfio pci_addr = do
    vfio_fd ← init_vfio env pci_addr
    vfio_map_region env vfio_fd bar0_region_index

  -- The registers of the device. The result of stat is replaced by false, so the first branch is
  -- not taken.
  unfoldable pub map_device : (pci_addr : List ℕ) → Run ℕ
  map_device pci_addr = do
    call env (stat_file (device_file pci_addr "iommu_group"))
    let vfio = false
    if vfio then map_by_vfio pci_addr else pci_map_resource env pci_addr

  -- The number of queues is compared with MAX_QUEUES only for a message, and so is the user.
  unfoldable pub start_ixgbe : (fuel : ℕ) (pci_addr : List ℕ) (rx_queues tx_queues : ℕ) → Run Device
  start_ixgbe fuel pci_addr rx_queues tx_queues = do
    modify (λ u. emit (Event.malloc sizeof_device (env.malloc u.trace sizeof_device)) u)
    addr ← map_device pci_addr
    queues ← calloc env rx_queues (sizeof_rx_queue + 8 * max_rx_queue_entries)
    let ix_dev : Device = record { addr = addr; rx_queues = queues; num_rx_queues = rx_queues }
    do_init_seq env fuel ix_dev
    pure ix_dev

  -- The identifiers of the device are only printed.
  unfoldable pub do_ixgbe : (fuel : ℕ) (pci_addr : List ℕ) (rx_queue tx_queue : ℕ) → Run Device
  do_ixgbe fuel pci_addr rx_queue tx_queue = do
    config_fd ← call env (open_file (device_file pci_addr "config") read_only)
    read_io16 env config_fd 0
    read_io16 env config_fd 2
    read_io32 env config_fd 8
    start_ixgbe fuel pci_addr rx_queue tx_queue
