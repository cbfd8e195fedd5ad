-- ===== src/Init/Queues.antt =====
-- init_tx_queue: what it leaves in the queue structures, and start_tx_queue: what it waits for.
use mathlib.Core.Path.{subst}
use ixgbe82599_driver.Base.{
  ℕ_discrete, ℕ, zero, suc, ◌+◌, ◌%◌, ◌^◌, ◌≤◌, ◌<◌, ◌≡◌, ◌≢◌, inl, refl, ◌∙◌, some, ◌∷◌, arith,
  bit_and, bit_or, bind-some, dec_lt,
}
use ixgbe82599_driver.Base.Memory.{Memory, load-store, load-store-Apart}
use ixgbe82599_driver.Ixgbe.Flags
use ixgbe82599_driver.Ixgbe.Registers
use ixgbe82599_driver.World.{Event, Env, World}
use ixgbe82599_driver.Mmio.{set_reg32, get_reg32, set_flag32}
use ixgbe82599_driver.Mmio.Polling.{answer, polled, ended, wait_set_sound}
use ixgbe82599_driver.Dma.{allocate_dma_address, virt_to_phys}
use ixgbe82599_driver.TxQueue.{
  Device, queue_at, num_entries, clean_index, tx_index, set_num_entries, set_descriptors,
}
use ixgbe82599_driver.Init.{
  num_tx_queue_entries, init_one_tx_queue, init_tx_queues_from, init_tx_queue, start_tx_queue,
}

-- The indices of queue q are as they were.
pub record SameIndices (tx_queues q : ℕ) (m m' : Memory) : Type 0 where
  pub tx : tx_index (queue_at tx_queues q) m' ≡ tx_index (queue_at tx_queues q) m
  pub clean : clean_index (queue_at tx_queues q) m' ≡ clean_index (queue_at tx_queues q) m

module _ (tx_queues p : ℕ) (m : Memory) where
  -- The memory after the stores of one round.
  abbrev written : ℕ → Memory
  written i =
      set_descriptors (queue_at tx_queues i) p
        (set_num_entries (queue_at tx_queues i) num_tx_queue_entries m)

  written-own :
      (i : ℕ)
      → (num_entries (queue_at tx_queues i) (written i) ≡ 512)
        × SameIndices tx_queues i m (written i)
  unfolding set_descriptors set_num_entries num_entries tx_index clean_index
  written-own i = (
    load-store-Apart 2 8 _ p _ _ (inl (omega arith)) ∙ load-store 2 _ 512 m (omega arith),
    record {
      tx =
          load-store-Apart 2 8 _ p _ _ (inl (omega arith))
          ∙ load-store-Apart 2 2 _ 512 _ m (inl (omega arith));
      clean =
          load-store-Apart 2 8 _ p _ _ (inl (omega arith))
          ∙ load-store-Apart 2 2 _ 512 _ m (inl (omega arith));
    },
  )

  written-other :
      (i j : ℕ)
      → i ≢ j
      → (num_entries (queue_at tx_queues j) (written i) ≡ num_entries (queue_at tx_queues j) m)
        × SameIndices tx_queues j m (written i)
  unfolding set_descriptors set_num_entries num_entries tx_index clean_index
  written-other i j ne = (
    load-store-Apart 2 8 _ p _ _ (omega arith) ∙ load-store-Apart 2 2 _ 512 _ m (omega arith),
    record {
      tx =
          load-store-Apart 2 8 _ p _ _ (omega arith) ∙ load-store-Apart 2 2 _ 512 _ m (omega arith);
      clean =
          load-store-Apart 2 8 _ p _ _ (omega arith) ∙ load-store-Apart 2 2 _ 512 _ m (omega arith);
    },
  )

  written-indices : (i j : ℕ) → SameIndices tx_queues j m (written i)
  written-indices i j = elim (ℕ_discrete i j) [
    | yes same ↦ subst (λ q. SameIndices tx_queues q m (written i)) same (written-own i).1
    | no ne ↦ (written-other i j ne).1
  ]

SameIndices-trans :
    (tx_queues q : ℕ) (m m1 m2 : Memory)
    → SameIndices tx_queues q m m1
    → SameIndices tx_queues q m1 m2
    → SameIndices tx_queues q m m2
SameIndices-trans tx_queues q m m1 m2 h k = record { tx = k.tx ∙ h.tx; clean = k.clean ∙ h.clean }

module _ (env : Env) (dev : Device) where
  one_round :
      (i : ℕ) (w : World)
      → (p : ℕ) × (w' : World) × (init_one_tx_queue env dev i w ≡ some (tt, w'))
        × (w'.queues ≡ written dev.tx_queues p w.queues i)
  unfolding init_one_tx_queue set_reg32 get_reg32 allocate_dma_address virt_to_phys
  one_round i w = (_, _, refl, refl)

  -- What the rounds lo .. hi - 1 leave: the size in each of their queues, and all indices.
  record Rounds (lo hi : ℕ) (w w' : World) : Type 0 where
    size : (q : ℕ) → lo ≤ q → q < hi → num_entries (queue_at dev.tx_queues q) w'.queues ≡ 512
    other :
        (q : ℕ)
        → q < lo
        → num_entries (queue_at dev.tx_queues q) w'.queues
          ≡ num_entries (queue_at dev.tx_queues q) w.queues
    indices : (q : ℕ) → SameIndices dev.tx_queues q w.queues w'.queues

  init_tx_queues_from-Rounds :
      (rounds lo hi : ℕ) (w : World)
      → lo + rounds ≡ hi
      → (w' : World) × (init_tx_queues_from env rounds lo dev w ≡ some (tt, w')) × Rounds lo hi w w'
  unfolding init_tx_queues_from
  init_tx_queues_from-Rounds zero lo hi w e = (
    w,
    refl,
    record {
      size = λ q h k. absurd (omega arith);
      other = λ q h. refl;
      indices = λ q. record { tx = refl; clean = refl };
    },
  )
  init_tx_queues_from-Rounds (suc rounds) lo hi w e =
      let (p, w1, run, mem) = one_round lo w in
      let (w', rest, done) = init_tx_queues_from-Rounds rounds (lo + 1) hi w1 (omega arith) in
      (
        w',
        bind-some (init_one_tx_queue env dev lo) (λ _. init_tx_queues_from env rounds (lo + 1) dev)
              run
            ∙ rest,
        record {
          size = λ q h k. elim (dec_lt lo q) [
            | yes more ↦ done.size q (omega arith) k
            | no first ↦
                let here : q ≡ lo = omega arith in
                rw here
                  (done.other lo (omega arith) ∙ rw mem (written-own dev.tx_queues p w.queues lo).0)
          ];
          other = λ q h.
              done.other q (omega arith)
              ∙ rw mem (written-other dev.tx_queues p w.queues lo q (omega arith)).0;
          indices = λ q.
              SameIndices-trans dev.tx_queues q w.queues w1.queues w'.queues
                (rw mem (written-indices dev.tx_queues p w.queues lo q)) (done.indices q);
        },
      )

-- init_tx_queue always returns. Then every queue has 512 entries, and its tail and clean indices
-- are those that the memory of the queues held before.
pub init_tx_queue_lem :
    (env : Env) (dev : Device) (w : World)
    → (w' : World) × (init_tx_queue env dev w ≡ some (tt, w'))
      × ((q : ℕ) → q < dev.num_tx_queues → num_entries (queue_at dev.tx_queues q) w'.queues ≡ 512)
      × ((q : ℕ) → SameIndices dev.tx_queues q w.queues w'.queues)
unfolding init_tx_queue
init_tx_queue_lem env dev w =
    let (w', run, done) =
      init_tx_queues_from-Rounds env dev dev.num_tx_queues 0 dev.num_tx_queues w (omega arith) in
    (w', run, λ q lt. done.size q (omega arith) lt, done.indices)

-- When start_tx_queue returns, it has set the head and the tail to 0 and the enable bit of TXDCTL,
-- in this order, and then polled TXDCTL until the device showed the bit as set.
pub start_tx_queue-enabled :
    (env : Env) (fuel : ℕ) (dev : Device) (i : ℕ) (w w' : World)
    → start_tx_queue env fuel dev i w ≡ some (tt, w')
    → let old = answer env dev.addr (Registers.txdctl i) (
        Event.store32 (dev.addr + Registers.tdt i) 0
        ∷ Event.store32 (dev.addr + Registers.tdh i) 0
        ∷ w.trace) in
      let t =
        Event.store32 (dev.addr + Registers.txdctl i) (bit_or old Flags.txdctl_enable % 2 ^ 32)
        ∷ Event.load32 (dev.addr + Registers.txdctl i) old
        ∷ Event.store32 (dev.addr + Registers.tdt i) 0
        ∷ Event.store32 (dev.addr + Registers.tdh i) 0
        ∷ w.trace in
      (n : ℕ) × (n < fuel)
      × (bit_and
            (answer env dev.addr
              (Registers.txdctl i)
              (polled env dev.addr (Registers.txdctl i) n t))
            Flags.txdctl_enable
          ≡ Flags.txdctl_enable)
      × (w' ≡ ended env dev.addr (Registers.txdctl i) n (record w { trace = t }))
unfolding start_tx_queue set_reg32 get_reg32 set_flag32
start_tx_queue-enabled env fuel dev i w w' h =
    wait_set_sound env dev.addr (Registers.txdctl i) Flags.txdctl_enable fuel _ w' h
