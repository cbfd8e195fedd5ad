-- ===== src/Recv/Vfio.antt =====
-- recv/vfio.c. The text is that of send/, and so are the definitions.
use ixgbe82599_driver.Base.{ℕ, List, Option}
use ixgbe82599_driver.World.{Env, Run}
use ixgbe82599_driver.Vfio

abbrev pub get_vfio_container : Run (Option ℕ)
get_vfio_container = Vfio.get_vfio_container

abbrev pub set_vfio_container : Option ℕ → Run (Unit {0})
set_vfio_container = Vfio.set_vfio_container

abbrev pub vfio_enable_dma : Env → (vfio_fd : Option ℕ) → Run (Unit {0})
vfio_enable_dma = Vfio.vfio_enable_dma

abbrev pub init_vfio : Env → (pci_addr : List ℕ) → Run (Option ℕ)
init_vfio = Vfio.init_vfio

abbrev pub vfio_map_region : Env → (vfio_fd : Option ℕ) (region_index : ℕ) → Run ℕ
vfio_map_region = Vfio.vfio_map_region

abbrev pub vfio_map_dma : Env → (fuel vaddr size : ℕ) → Run ℕ
vfio_map_dma = Vfio.vfio_map_dma

abbrev pub vfio_unmap_dma : Env → (iova size : ℕ) → Run ℕ
vfio_unmap_dma = Vfio.vfio_unmap_dma
