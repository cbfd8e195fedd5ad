-- ===== src/Vfio/MapDma.antt =====
-- vfio_map_dma of vfio.c waits for its own constant to become 0.
use ixgbe82599_driver.Base.{
  ℕ, zero, suc, ◌%◌, ◌^◌, ◌≡◌, refl, inl, inr, Option, none, some, Option-cases, Bool-cases, arith,
  ◌==◌, some-bind,
}
use ixgbe82599_driver.World.{Env, Trace, World, ioctl, map_dma}
use ixgbe82599_driver.Sys.{call_filling}
use ixgbe82599_driver.Vfio.{vfio_iova, get_vfio_container, map_dma_loop, vfio_map_dma}

-- VFIO_IOMMU_MAP_DMA reads its argument and does not write it, as the kernel documents.
abbrev pub LeavesIova : Env → Type 0
LeavesIova env =
    (t : Trace) (container : Option ℕ) (vaddr size : ℕ)
    → env.answer t (ioctl container (map_dma vaddr vfio_iova size)) % 2 ^ 64 ≡ vfio_iova

module _ (env : Env) where
  map_dma_loop-none :
      (leaves : LeavesIova env) (fuel : ℕ) (container : Option ℕ) (vaddr size : ℕ) (w : World)
      → map_dma_loop env fuel container vaddr vfio_iova size w ≡ none
  unfolding map_dma_loop call_filling
  map_dma_loop-none leaves zero container vaddr size w = refl
  map_dma_loop-none leaves (suc fuel) container vaddr size w =
      elim (Option-cases (env.result w.trace (ioctl container (map_dma vaddr vfio_iova size)))) [
        | inl failed ↦ rw failed (map_dma_loop-none leaves fuel container vaddr size _)
        | inr (n, ok) ↦
            rw (ok, leaves w.trace container vaddr size)
              (map_dma_loop-none leaves fuel container vaddr size _)
      ]

  map_dma_loop-zero :
      (fuel : ℕ) (container : Option ℕ) (vaddr iova size r : ℕ) (w w' : World)
      → map_dma_loop env fuel container vaddr iova size w ≡ some (r, w')
      → r ≡ 0
  unfolding map_dma_loop
  map_dma_loop-zero zero container vaddr iova size r w w' h = absurd (cc h)
  map_dma_loop-zero (suc fuel) container vaddr iova size r w w' h = elim (Bool-cases (iova == 0)) [
    | inl done ↦ ground (arith, done, h)
    | inr more ↦
        let (iova', u, _, rest) =
          some-bind (call_filling env (ioctl container (map_dma vaddr iova size)) 8 iova)
            (λ v. map_dma_loop env fuel container vaddr v size) w w' r (rw more at h) in
        map_dma_loop-zero fuel container vaddr iova' size r u w' rest
  ]

  -- vfio_map_dma never returns while the kernel leaves the iova that it is passed alone, however
  -- often it calls the kernel.
  pub vfio_map_dma-none :
      (leaves : LeavesIova env) (fuel vaddr size : ℕ) (w : World)
      → vfio_map_dma env fuel vaddr size w ≡ none
  unfolding vfio_map_dma get_vfio_container
  vfio_map_dma-none leaves fuel vaddr size w =
      map_dma_loop-none leaves fuel w.vfio_container vaddr _ w

  -- With any kernel, the only value that vfio_map_dma can return is 0, and not an address.
  pub vfio_map_dma-zero :
      (fuel vaddr size r : ℕ) (w w' : World)
      → vfio_map_dma env fuel vaddr size w ≡ some (r, w')
      → r ≡ 0
  unfolding vfio_map_dma get_vfio_container
  vfio_map_dma-zero fuel vaddr size r w w' h =
      map_dma_loop-zero fuel w.vfio_container vaddr vfio_iova _ r w w' h
