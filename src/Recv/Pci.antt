-- ===== src/Recv/Pci.antt =====
-- recv/pci.c. The text is that of send/, and so are the definitions.
use Prim.Native.String.{String}
use ixgbe82599_driver.Base.{ℕ, List, Option}
use ixgbe82599_driver.World.{Access, Env, Run}
use ixgbe82599_driver.Pci

abbrev pub remove_driver : Env → (pci_addr : List ℕ) → Run (Unit {0})
remove_driver = Pci.remove_driver

abbrev pub enable_dma : Env → (pci_addr : List ℕ) → Run (Unit {0})
enable_dma = Pci.enable_dma

abbrev pub pci_map_resource : Env → (pci_addr : List ℕ) → Run ℕ
pci_map_resource = Pci.pci_map_resource

abbrev pub pci_open_resource :
    Env → (pci_addr : List ℕ) (resource : String) → Access → Run (Option ℕ)
pci_open_resource = Pci.pci_open_resource
