-- ===== src/Vfio.antt =====
-- send/vfio.c: the device and its memory through the VFIO driver. The messages that report a failed
-- call are not modelled.
pub mod Container
pub mod MapDma
use ixgbe82599_driver.Base.{
  ℕ, zero, suc, ◌+◌, ◌*◌, ◌/◌, ◌%◌, ◌^◌, List, Option, none, some, pure, fault, ◌>>=◌, ◌>>◌, get,
  modify, bit_or, ltb, ◌==◌, if◌then◌else◌, min,
}
use ixgbe82599_driver.World.{
  Event, Env, Run, emit, FilePath, device_file, read_write, Call, open_file, stat_file, readlink,
  ioctl, pread, pwrite, map_file, vfio_group, get_api_version, check_type1_iommu, set_type1_iommu,
  get_group_status, set_container, get_device_fd, get_region_info, map_dma, unmap_dma,
}
use ixgbe82599_driver.Sys.{call, call_into, call_filling}
use ixgbe82599_driver.Pci.{address_of}

abbrev pub vfio_iova : ℕ
vfio_iova = 0x8_0000_0000

abbrev pub min_dma_memory : ℕ
min_dma_memory = 4096

abbrev pub config_region_index : ℕ
config_region_index = 7

-- What the driver uses of struct vfio_region_info.
pub record RegionInfo : Type 0 where
  pub size : ℕ
  pub offset : ℕ

unfoldable pub get_vfio_container : Run (Option ℕ)
get_vfio_container w = some (w.vfio_container, w)

unfoldable pub set_vfio_container : Option ℕ → Run (Unit {0})
set_vfio_container fd = modify (λ u. record u { vfio_container = fd })

module _ (env : Env) where
  -- VFIO_DEVICE_GET_REGION_INFO: the size and the offset, which were 0, are set unless it fails.
  unfoldable pub region_info : (vfio_fd : Option ℕ) (index : ℕ) → Run (Option ℕ × RegionInfo)
  region_info vfio_fd index w =
      let c = ioctl vfio_fd (get_region_info index) in
      let r = env.result w.trace c in
      let a = env.answer w.trace c in
      let info : RegionInfo = elim r [
        | none ↦ record { size = 0; offset = 0 }
        | some _ ↦ record { size = a % 2 ^ 64; offset = a / 2 ^ 64 % 2 ^ 64 }
      ] in
      some ((r, info), emit (Event.call c r) w)

  unfoldable pub vfio_enable_dma : (vfio_fd : Option ℕ) → Run (Unit {0})
  vfio_enable_dma vfio_fd = do
    (_, conf_reg) ← region_info vfio_fd config_region_index
    let at = (conf_reg.offset + 4) % 2 ^ 64
    dma ← call_into env (pread vfio_fd 2 at) 2 0
    call env (pwrite vfio_fd 2 (bit_or dma (2 ^ 2)) at)
    pure tt

  -- What follows in init_vfio once the number of the group is known. The assignment in
  -- `if(container = -1)` makes its test true, so that a container is always opened.
  unfoldable pub join_group : (pci_addr : List ℕ) (group_id : ℕ) → Run (Option ℕ)
  join_group pci_addr group_id = do
    container ← call env (open_file FilePath.vfio_container read_write)
    set_vfio_container container
    call env (ioctl container get_api_version)
    call env (ioctl container check_type1_iommu)
    vfio_gfd ← call env (open_file (vfio_group group_id) read_write)
    call env (ioctl vfio_gfd get_group_status)
    call env (ioctl vfio_gfd (set_container container))
    call env (ioctl container set_type1_iommu)
    vfio_fd ← call env (ioctl vfio_gfd (get_device_fd pci_addr))
    vfio_enable_dma vfio_fd
    pure vfio_fd

  -- The number of the group is what basename and sscanf make of the link.
  unfoldable pub init_vfio : (pci_addr : List ℕ) → Run (Option ℕ)
  init_vfio pci_addr = do
    ret ← call env (stat_file (device_file pci_addr ""))
    elim ret [
      | none ↦ pure none
      | some _ ↦ do
        w ← get
        let link = readlink (device_file pci_addr "iommu_group")
        length ← call env link
        elim length [ none ↦ pure none | some _ ↦ join_group pci_addr (env.answer w.trace link) ]
    ]

  unfoldable pub vfio_map_region : (vfio_fd : Option ℕ) (region_index : ℕ) → Run ℕ
  vfio_map_region vfio_fd region_index = do
    (ret, info) ← region_info vfio_fd region_index
    elim ret [
      | none ↦ pure (address_of none)
      | some _ ↦ do
        address ← call env (map_file vfio_fd info.size info.offset)
        pure (address_of address)
    ]

  -- `while(dma_map.iova) ioctl(container, VFIO_IOMMU_MAP_DMA, &dma_map);` on fuel. The call gets the
  -- address of dma_map, and could change its iova.
  unfoldable pub map_dma_loop : (fuel : ℕ) (container : Option ℕ) (vaddr iova size : ℕ) → Run ℕ
  map_dma_loop zero container vaddr iova size = fault
  map_dma_loop (suc fuel) container vaddr iova size = if iova == 0 then pure iova else do
    iova' ← call_filling env (ioctl container (map_dma vaddr iova size)) 8 iova
    map_dma_loop fuel container vaddr iova' size

  unfoldable pub vfio_map_dma : (fuel vaddr size : ℕ) → Run ℕ
  vfio_map_dma fuel vaddr size = do
    container ← get_vfio_container
    map_dma_loop fuel container vaddr vfio_iova
        (if ltb size min_dma_memory then min_dma_memory else size)

  -- The result -1 as a uint64_t.
  unfoldable pub vfio_unmap_dma : (iova size : ℕ) → Run ℕ
  vfio_unmap_dma iova size = do
    container ← get_vfio_container
    ret ← call env (ioctl container (unmap_dma iova size))
    pure (address_of ret)
