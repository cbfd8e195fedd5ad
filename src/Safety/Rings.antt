-- ===== src/Safety/Rings.antt =====
-- Where do_init_seq maps the rings of the queues.
use mathlib.Core.Path.{subst}
use ixgbe82599_driver.Base.{
  ℕ, zero, suc, ◌+◌, ◌^◌, ◌<◌, ◌≡◌, ◌≢◌, inl, inr, refl, ap, ◌∙◌, some, arith, pure, ◌>>=◌, ◌>>◌,
  bit_or, some-bind, dec_lt,
}
use ixgbe82599_driver.Base.Memory.{Memory, load-store, load-store-Apart}
use ixgbe82599_driver.Ixgbe.Flags
use ixgbe82599_driver.Ixgbe.Registers
use ixgbe82599_driver.World.{Env, World, Run, Trace}
use ixgbe82599_driver.Mmio.{
  set_reg32, get_reg32, set_flag32, sleep_us, wait_set_reg32, wait_clear_reg32,
}
use ixgbe82599_driver.Mmio.Talks.{Extends, Talks-set_reg32, Extends-cons, Extends-refl}
use ixgbe82599_driver.Dma.{allocate_dma_address, virt_to_phys, round_to_huge_pages}
use ixgbe82599_driver.Link.{wait_for_link}
use ixgbe82599_driver.TxQueue.{Device, queue_at, descriptors, set_num_entries, set_descriptors}
use ixgbe82599_driver.Init.{
  init_link, init_stats, init_tx_reg, init_one_tx_queue, init_tx_queues_from, init_tx_queue,
  init_tx, start_tx_queues_from, do_init_seq, tx_ring_size, num_tx_queue_entries,
}
use ixgbe82599_driver.Init.Steps.{Talks-go_live}
use ixgbe82599_driver.Safety.{Mapped, Mapped-extended}
use ixgbe82599_driver.Safety.Queues.{one_page}

-- A run that returns leaves a world with this property.
abbrev pub Ends : {A : Type 0} → (World → Type 0) → Run A → Type 0
Ends {A} Q m = (w w' : World) (a : A) → m w ≡ some (a, w') → Q w'

pub Ends-then :
    {A B : Type 0} (Q : World → Type 0) (m : Run A) (k : A → Run B)
    → ((a : A) → Ends Q (k a))
    → Ends Q (m >>= k)
Ends-then Q m k h w w' b e = let (a, u, first, rest) = some-bind m k w w' b e in h a u w' b rest

-- The ring of queue q is mapped.
abbrev pub RingMapped : Device → (q : ℕ) → World → Type 0
RingMapped dev q w = Mapped (descriptors (queue_at dev.tx_queues q) w.queues) tx_ring_size w.trace

abbrev pub RingsMapped : Device → (n : ℕ) → World → Type 0
RingsMapped dev n w = (q : ℕ) → q < n → RingMapped dev q w

RingMapped-Talks :
    (dev : Device) (q : ℕ) (w w' : World)
    → Extends w.trace w'.trace × (w' ≡ record w { trace = w'.trace })
    → RingMapped dev q w
    → RingMapped dev q w'
RingMapped-Talks dev q w w' ((new, grown), same) h =
    let queues : w'.queues ≡ w.queues = ap (λ (v : World). v.queues) same in
    rw (queues, grown) (Mapped-extended _ tx_ring_size new w.trace h)

-- mmap gives addresses, which have 64 bits.
abbrev pub MapsAddresses : Env → Type 0
MapsAddresses env = (t : Trace) (size : ℕ) → env.mmap t size < 2 ^ 64

module _ (env : Env) (dev : Device) where
  -- What one round leaves in the ring pointers.
  module _ (i p : ℕ) (m : Memory) where
    abbrev written : Memory
    written =
        set_descriptors (queue_at dev.tx_queues i) p
          (set_num_entries (queue_at dev.tx_queues i) num_tx_queue_entries m)

    descriptors-own : p < 2 ^ 64 → descriptors (queue_at dev.tx_queues i) written ≡ p
    unfolding descriptors set_descriptors
    descriptors-own small = load-store 8 _ p _ (omega (arith, small))

    descriptors-other :
        (j : ℕ)
        → i ≢ j
        → descriptors (queue_at dev.tx_queues j) written ≡ descriptors (queue_at dev.tx_queues j) m
    unfolding descriptors set_descriptors set_num_entries
    descriptors-other j ne =
        load-store-Apart 8 8 _ p _ _ (omega arith) ∙ load-store-Apart 8 2 _ 512 _ m (omega arith)

  -- One round maps its ring, and leaves the others.
  one_round :
      (i : ℕ) (w : World)
      → (w' : World) × (init_one_tx_queue env dev i w ≡ some (tt, w'))
        × Extends w.trace w'.trace
        × Mapped (env.mmap w.trace 2097152) tx_ring_size w'.trace
        × (w'.queues ≡ written i (env.mmap w.trace 2097152) w.queues)
  unfolding init_one_tx_queue set_reg32 get_reg32 allocate_dma_address virt_to_phys
  one_round i w =
      let p = env.mmap w.trace (round_to_huge_pages tx_ring_size) in
      let q = env.mmap w.trace 2097152 in
      let same : p ≡ q = ap (env.mmap w.trace) one_page in
      (
        _,
        refl,
        Extends-cons _ (
            Extends-cons _ (
              Extends-cons _ (
                Extends-cons _ (
                  Extends-cons _
                    (Extends-cons _ (Extends-cons _ (Extends-cons _ (Extends-refl w.trace)))))))),
        inr (inr (inr (inr (inr (inr (inr (inl (omega (arith, one_page, same))))))))),
        ap (λ r. written i r w.queues) same,
      )

  module _ (addresses : MapsAddresses env) where
    RingsMapped-round :
        (i : ℕ) (w w' : World)
        → RingsMapped dev i w
        → init_one_tx_queue env dev i w ≡ some (tt, w')
        → RingsMapped dev (i + 1) w'
    RingsMapped-round i w w' h e q lt =
        let (u, run, (new, grown), mapped, mem) = one_round i w in
        let same : u ≡ w' = cc (run, e) in
        let p = env.mmap w.trace 2097152 in
        subst (RingMapped dev q) same (elim (dec_lt q i) [
          | yes old ↦
              rw (mem, descriptors-other i p w.queues q (omega arith), grown)
                (Mapped-extended _ tx_ring_size new w.trace (h q old))
          | no new ↦
              let here : q ≡ i = omega arith in
              rw (here, mem, descriptors-own i p w.queues (addresses w.trace 2097152)) mapped
        ])

    RingsMapped-rounds :
        (rounds i : ℕ) (w w' : World)
        → RingsMapped dev i w
        → init_tx_queues_from env rounds i dev w ≡ some (tt, w')
        → RingsMapped dev (i + rounds) w'
    unfolding init_tx_queues_from
    RingsMapped-rounds zero i w w' h e q lt =
        let same : w ≡ w' = cc e in subst (RingMapped dev q) same (h q (omega arith))
    RingsMapped-rounds (suc rounds) i w w' h e q lt =
        let (_, u, first, rest) =
          some-bind (init_one_tx_queue env dev i) (λ _. init_tx_queues_from env rounds (i + 1) dev)
            w w' tt e in
        RingsMapped-rounds rounds (i + 1) u w' (RingsMapped-round i w u h first) rest q
          (omega arith)

    Ends-init_tx : Ends (RingsMapped dev dev.num_tx_queues) (init_tx env dev)
    unfolding init_tx init_tx_queue
    Ends-init_tx = Ends-then _ (init_tx_reg env dev.addr) _ λ _ w w' a e.
        let (_, u, first, rest) =
          some-bind (init_tx_queues_from env dev.num_tx_queues 0 dev)
            (λ _. set_reg32 dev.addr Registers.dmatxctl Flags.dmatxctl_te) w w' a e in
        λ q lt.
          RingMapped-Talks dev q u w'
            (Talks-set_reg32 dev.addr Registers.dmatxctl Flags.dmatxctl_te u w' a rest)
            (RingsMapped-rounds dev.num_tx_queues 0 w u (λ q lt. absurd (omega arith)) first q
              (omega arith))

    -- What comes after init_tx.
    abbrev go_live : (fuel : ℕ) → Run (Unit {0})
    go_live fuel = do
      start_tx_queues_from env fuel dev.num_tx_queues 0 dev
      set_flag32 env dev.addr Registers.fctrl (bit_or Flags.fctrl_mpe Flags.fctrl_upe)
      wait_for_link env dev.addr
      pure tt

    Ends-live :
        (fuel : ℕ) → Ends (RingsMapped dev dev.num_tx_queues) (init_tx env dev >> go_live fuel)
    Ends-live fuel w w' a e q lt =
        let (_, u, first, rest) = some-bind (init_tx env dev) (λ _. go_live fuel) w w' a e in
        RingMapped-Talks dev q u w' (Talks-go_live env fuel dev u w' a rest)
          (Ends-init_tx w u tt first q lt)

    pub Ends-do_init_seq :
        (fuel : ℕ) → Ends (RingsMapped dev dev.num_tx_queues) (do_init_seq env fuel dev)
    unfolding do_init_seq
    Ends-do_init_seq fuel = Ends-then _ (set_reg32 dev.addr Registers.eimc 0x7fffffff) _ λ _.
        Ends-then _ (set_reg32 dev.addr Registers.ctrl Flags.ctrl_rst_mask) _ λ _.
          Ends-then _ (wait_clear_reg32 env fuel dev.addr Registers.ctrl Flags.ctrl_rst_mask) _ λ _.
            Ends-then _ (sleep_us 10000) _ λ _.
              Ends-then _ (set_reg32 dev.addr Registers.eimc 0x7fffffff) _ λ _.
                Ends-then _ (wait_set_reg32 env fuel dev.addr Registers.eec Flags.eec_ard) _ λ _.
                  Ends-then _
                    (wait_set_reg32 env fuel dev.addr Registers.rdrxctl Flags.rdrxctl_dmaidone) _
                    λ _.
                      Ends-then _ (init_link env dev.addr) _
                        λ _. Ends-then _ (init_stats env dev.addr) _ λ _. Ends-live fuel
