-- ===== src/RxInit/Queues.antt =====
-- init_rx_queue of recv/init.c: what it leaves in the queue structures.
use ixgbe82599_driver.Base.{
  ℕ, zero, suc, ◌+◌, ◌<◌, ◌≡◌, ◌≢◌, inl, inr, refl, ◌∙◌, some, arith, bind-some, dec_lt,
}
use ixgbe82599_driver.Base.Memory.{Memory, load-store, load-store-Apart}
use ixgbe82599_driver.World.{Env, World}
use ixgbe82599_driver.Mmio.{set_reg32, get_reg32, set_flag32, unset_flag32}
use ixgbe82599_driver.Dma.{allocate_dma_address, virt_to_phys}
use ixgbe82599_driver.Rx.{Device, queue_at, num_entries, rx_index, set_rx_index}
use ixgbe82599_driver.Rx.Stuck.{num_rx_queue_entries}
use ixgbe82599_driver.RxInit.{
  set_queue, set_num_entries, set_descriptors, init_one_rx_queue, init_rx_queues_from,
  clear_dca_from, init_rx_queue,
}

-- The queue is empty and has the receiver's number of entries.
abbrev pub Started : (rxq : ℕ) → Memory → Type 0
Started rxq m = (num_entries rxq m ≡ num_rx_queue_entries) × (rx_index rxq m ≡ 0)

module _ (p : ℕ) (m : Memory) where
  set_queue-own : (rxq : ℕ) → Started rxq (set_queue rxq p m)
  unfolding set_queue set_descriptors set_num_entries set_rx_index num_entries rx_index
  set_queue-own rxq = (
    load-store-Apart 2 8 rxq p (rxq + 16) _ (inl (omega arith))
        ∙ (load-store-Apart 2 2 (rxq + 18) 0 (rxq + 16) _ (inr (omega arith))
            ∙ load-store 2 (rxq + 16) 1012 m (omega arith)),
    load-store-Apart 2 8 rxq p (rxq + 18) _ (inl (omega arith))
        ∙ load-store 2 (rxq + 18) 0 _ (omega arith),
  )

  set_queue-other :
      (rx_queues i j : ℕ)
      → i ≢ j
      → Started (queue_at rx_queues j) m
      → Started (queue_at rx_queues j) (set_queue (queue_at rx_queues i) p m)
  unfolding set_queue set_descriptors set_num_entries set_rx_index num_entries rx_index
  set_queue-other rx_queues i j ne (n, z) =
      let rxq = queue_at rx_queues i in
      let r = queue_at rx_queues j in
      (
        load-store-Apart 2 8 rxq p (r + 16) _ (omega arith)
            ∙ (load-store-Apart 2 2 (rxq + 18) 0 (r + 16) _ (omega arith)
                ∙ (load-store-Apart 2 2 (rxq + 16) 1012 (r + 16) m (omega arith) ∙ n)),
        load-store-Apart 2 8 rxq p (r + 18) _ (omega arith)
            ∙ (load-store-Apart 2 2 (rxq + 18) 0 (r + 18) _ (omega arith)
                ∙ (load-store-Apart 2 2 (rxq + 16) 1012 (r + 18) m (omega arith) ∙ z)),
      )

module _ (env : Env) (dev : Device) where
  one_round :
      (i : ℕ) (w : World)
      → (p : ℕ) × (w' : World) × (init_one_rx_queue env dev i w ≡ some (tt, w'))
        × (w'.queues ≡ set_queue (queue_at dev.rx_queues i) p w.queues)
  unfolding init_one_rx_queue set_reg32 get_reg32 set_flag32 allocate_dma_address virt_to_phys
  one_round i w = (_, _, refl, refl)

  abbrev AllBefore : ℕ → World → Type 0
  AllBefore i w = (q : ℕ) → q < i → Started (queue_at dev.rx_queues q) w.queues

  init_rx_queues_from-AllBefore :
      (rounds lo hi : ℕ) (w : World)
      → lo + rounds ≡ hi
      → AllBefore lo w
      → (w' : World) × (init_rx_queues_from env rounds lo dev w ≡ some (tt, w')) × AllBefore hi w'
  unfolding init_rx_queues_from
  init_rx_queues_from-AllBefore zero lo hi w e before = (w, refl, λ q lt. before q (omega arith))
  init_rx_queues_from-AllBefore (suc rounds) lo hi w e before =
      let (p, w1, run, mem) = one_round lo w in
      let more : AllBefore (lo + 1) w1 = λ q lt. elim (dec_lt q lo) [
        | yes old ↦
            rw mem (set_queue-other p w.queues dev.rx_queues lo q (omega arith) (before q old))
        | no new ↦
            let here : q ≡ lo = omega arith in
            rw (here, mem) (set_queue-own p w.queues (queue_at dev.rx_queues lo))
      ] in
      let (w', rest, all) =
        init_rx_queues_from-AllBefore rounds (lo + 1) hi w1 (omega arith) more in
      (
        w',
        bind-some (init_one_rx_queue env dev lo) (λ _. init_rx_queues_from env rounds (lo + 1) dev)
              run
            ∙ rest,
        all,
      )

clear_dca_from-queues :
    (env : Env) (rounds i addr : ℕ) (w : World)
    → (w' : World) × (clear_dca_from env rounds i addr w ≡ some (tt, w')) × (w'.queues ≡ w.queues)
unfolding clear_dca_from unset_flag32 set_reg32 get_reg32
clear_dca_from-queues env zero i addr w = (w, refl, refl)
clear_dca_from-queues env (suc rounds) i addr w =
    let (w', run, same) = clear_dca_from-queues env rounds (i + 1) addr _ in (w', run, same)

-- init_rx_queue always returns, and then every queue has 1012 entries and the rx_index 0, though
-- the structures of neighbouring queues overlap.
pub init_rx_queue-Started :
    (env : Env) (dev : Device) (w : World)
    → (w' : World) × (init_rx_queue env dev w ≡ some (tt, w'))
      × ((q : ℕ) → q < dev.num_rx_queues → Started (queue_at dev.rx_queues q) w'.queues)
unfolding init_rx_queue set_flag32 set_reg32 get_reg32
init_rx_queue-Started env dev w =
    let (w1, first, all) =
      init_rx_queues_from-AllBefore env dev dev.num_rx_queues 0 dev.num_rx_queues w (omega arith)
        (λ q lt. absurd (omega arith)) in
    let (w', second, same) = clear_dca_from-queues env dev.num_rx_queues 0 dev.addr _ in
    (
      w',
      bind-some (init_rx_queues_from env dev.num_rx_queues 0 dev) _ first ∙ second,
      λ q lt. rw same (all q lt),
    )
