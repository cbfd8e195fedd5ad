-- ===== src/Vfio/Container.antt =====
-- init_vfio of vfio.c: its error paths, and the container that it leaves.
use ixgbe82599_driver.Base.{
  ℕ, ◌≡◌, ◌⊎◌, inl, inr, refl, List, Option, none, some, Option-cases, arith,
}
use ixgbe82599_driver.World.{
  Env, Trace, World, Call, FilePath, device_file, read_write, open_file, stat_file, readlink,
}
use ixgbe82599_driver.Sys.{call, call_into, done}
use ixgbe82599_driver.Vfio.{init_vfio, join_group, vfio_enable_dma, region_info, set_vfio_container}

module _ (env : Env) (pci_addr : List ℕ) where
  abbrev pub stat_call : Call
  stat_call = stat_file (device_file pci_addr "")

  abbrev pub link_call : Call
  link_call = readlink (device_file pci_addr "iommu_group")

  -- The trace of init_vfio up to the look at the container.
  abbrev pub looked_up : Trace → Trace
  looked_up t = done env link_call (done env stat_call t)

  join_group-container :
      (group_id : ℕ) (w : World)
      → (r : Option ℕ) × (w' : World) × (join_group env pci_addr group_id w ≡ some (r, w'))
        × (w'.vfio_container ≡ env.result w.trace (open_file FilePath.vfio_container read_write))
  unfolding join_group vfio_enable_dma region_info set_vfio_container call call_into
  join_group-container group_id w = (_, _, refl, refl)

  -- The device is not found, or its group is not, and -1 is returned at once; or both are, and there
  -- is a new container.
  abbrev pub Outcome : World → Type 0
  Outcome w =
      ((env.result w.trace stat_call ≡ none)
        × (init_vfio env pci_addr w ≡ some (none, record w { trace = done env stat_call w.trace })))
      ⊎ ((env.result (done env stat_call w.trace) link_call ≡ none)
          × (init_vfio env pci_addr w ≡ some (none, record w { trace = looked_up w.trace })))
      ⊎ ((n : ℕ) × (k : ℕ) × (r : Option ℕ) × (w' : World) × (env.result w.trace stat_call ≡ some n)
          × (env.result (done env stat_call w.trace) link_call ≡ some k)
          × (init_vfio env pci_addr w ≡ some (r, w'))
          × (w'.vfio_container
              ≡ env.result (looked_up w.trace) (open_file FilePath.vfio_container read_write)))

  -- init_vfio always returns. Where the device or its group is not found it returns -1, has made no
  -- call after the one that failed, and leaves the container. Otherwise it opens a new container and
  -- keeps that, whatever container there was.
  pub init_vfio_lem : (w : World) → Outcome w
  unfolding init_vfio call
  init_vfio_lem w = elim (Option-cases (env.result w.trace stat_call)) [
    | inl missing ↦ inl (missing, rw missing)
    | inr (n, found) ↦ elim (Option-cases (env.result (done env stat_call w.trace) link_call)) [
      | inl no_group ↦ inr (inl (no_group, ground arith))
      | inr (k, group) ↦
          let joined =
            join_group-container (env.answer (done env stat_call w.trace) link_call)
              (record w { trace = looked_up w.trace }) in
          inr (inr (n, k, joined.0, joined.1, found, group, ground (arith, joined.2), joined.3))
    ]
  ]
