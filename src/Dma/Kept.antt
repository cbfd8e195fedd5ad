-- ===== src/Dma/Kept.antt =====
-- What allocate_mempool_mem leaves alone.
use ixgbe82599_driver.Base.{
  ℕ, zero, suc, ◌+◌, ◌*◌, ◌%◌, ◌^◌, ◌≡◌, refl, List, ◌∷◌, some, lift, set?, if◌then◌else◌, ◌==◌,
}
use ixgbe82599_driver.Base.Memory.{Memory}
use ixgbe82599_driver.Base.Keeps.{Keeps, Keeps-pure, Keeps-lift, Keeps-bind, Keeps-outcome}
use ixgbe82599_driver.World.{Event, Env, World}
use ixgbe82599_driver.Dma.{
  allocate_mempool_mem, init_entries, init_entry, virt_to_phys, allocate_dma_address,
  sizeof_mempool, offsetof_free_stack, uninit_array,
}

abbrev queues_of : World → Memory
queues_of w = w.queues

module _ (env : Env) where
  init_entry-queues :
      (i size mempool base : ℕ) → Keeps queues_of (init_entry env i size mempool base)
  unfolding init_entry virt_to_phys
  init_entry-queues i size mempool base =
      Keeps-outcome queues_of (init_entry env i size mempool base) (λ w. (tt, _, refl, refl))

  init_entries-queues :
      (rounds i size mempool base : ℕ) (stack : List ℕ)
      → Keeps queues_of (init_entries env rounds i size mempool base stack)
  unfolding init_entries
  init_entries-queues zero i size mempool base stack = Keeps-pure queues_of stack
  init_entries-queues (suc rounds) i size mempool base stack =
      Keeps-bind queues_of (lift (set? stack i i)) _ (Keeps-lift queues_of (set? stack i i))
        λ stack'.
          Keeps-bind queues_of (init_entry env i size mempool base) _
            (init_entry-queues i size mempool base)
            λ _. init_entries-queues rounds (i + 1) size mempool base stack'

  allocate_dma_address-queues : (size : ℕ) → Keeps queues_of (allocate_dma_address env size)
  unfolding allocate_dma_address virt_to_phys
  allocate_dma_address-queues size =
      Keeps-outcome queues_of (allocate_dma_address env size) (λ w. (_, _, refl, refl))

  pub allocate_mempool_mem-queues :
      (n size : ℕ) (w w' : World) (mempool : ℕ)
      → allocate_mempool_mem env n size w ≡ some (mempool, w')
      → w'.queues ≡ w.queues
  unfolding allocate_mempool_mem
  allocate_mempool_mem-queues n size w w' a e =
      let p = env.malloc w.trace (sizeof_mempool + n * 4) in
      let t = Event.malloc (sizeof_mempool + n * 4) p ∷ w.trace in
      let size' = if size == 0 then 2048 else size in
      Keeps-bind queues_of (allocate_dma_address env (n * size' % 2 ^ 32)) _
        (allocate_dma_address-queues _)
        (λ d.
          Keeps-bind queues_of
            (init_entries env n 0 size' p d.virt_addr
              (uninit_array env t (p + offsetof_free_stack) n))
            _ (init_entries-queues n 0 size' p d.virt_addr _)
            (λ stack. Keeps-outcome queues_of _ (λ u. (_, _, refl, refl))))
        (record w { trace = t }) w' a e
