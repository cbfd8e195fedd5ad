-- ===== src/Pci.antt =====
-- send/pci.c: taking a PCI device from its driver, letting it access memory, and mapping it.
pub mod Command
use Prim.Native.String.{String}
use ixgbe82599_driver.Base.{
  ℕ, ◌-◌, ◌%◌, ◌/◌, ◌^◌, List, [], ◌∷◌, Option, none, some, pure, ◌>>=◌, ◌>>◌, get, bit_or,
}
use ixgbe82599_driver.World.{
  Env, Run, device_file, Access, write_only, read_write, open_file, close_file, lseek, read_file,
  write_file, fstat, map_file,
}
use ixgbe82599_driver.Sys.{call, call_into, call_filling}

-- The command register of the PCI configuration space, and the bit that allows bus mastering.
abbrev pub command_register : ℕ
command_register = 4

abbrev pub bus_master_enable : ℕ
bus_master_enable = 2 ^ 2

-- The two bytes of a uint16_t, the low one first.
abbrev pub bytes_of16 : ℕ → List ℕ
bytes_of16 v = v % 256 ∷ v / 256 % 256 ∷ []

-- What mmap returns: MAP_FAILED is -1.
abbrev pub address_of : Option ℕ → ℕ
address_of none = 2 ^ 64 - 1
address_of (some a) = a

module _ (env : Env) where
  -- Without a driver there is no file `unbind`. A write that fails is only reported.
  unfoldable pub remove_driver : (pci_addr : List ℕ) → Run (Unit {0})
  remove_driver pci_addr = do
    fd ← call env (open_file (device_file pci_addr "driver/unbind") write_only)
    elim fd [
      | none ↦ pure tt
      | some n ↦ do call env (write_file (some n) pci_addr); call env (close_file (some n)); pure tt
    ]

  -- A file that cannot be opened is only reported. The variable `dma` starts as 0.
  unfoldable pub enable_dma : (pci_addr : List ℕ) → Run (Unit {0})
  enable_dma pci_addr = do
    fd ← call env (open_file (device_file pci_addr "config") read_write)
    call env (lseek fd command_register)
    dma ← call_into env (read_file fd 2) 2 0
    call env (lseek fd command_register)
    call env (write_file fd (bytes_of16 (bit_or dma bus_master_enable)))
    call env (close_file fd)
    pure tt

  -- `stat` is not initialised; its st_size has 8 bytes.
  unfoldable pub pci_map_resource : (pci_addr : List ℕ) → Run ℕ
  pci_map_resource pci_addr = do
    remove_driver pci_addr
    enable_dma pci_addr
    fd ← call env (open_file (device_file pci_addr "resource0") read_write)
    w ← get
    st_size ← call_filling env (fstat fd) 8 (env.uninit w.trace 0 % 2 ^ 64)
    address ← call env (map_file fd st_size 0)
    pure (address_of address)

  unfoldable pub pci_open_resource :
      (pci_addr : List ℕ) (resource : String) → Access → Run (Option ℕ)
  pci_open_resource pci_addr resource flags =
      call env (open_file (device_file pci_addr resource) flags)
