-- ===== src/Start/Ready.antt =====
-- send/init.c: the queue structures as start_ixgbe leaves them.
use mathlib.Core.Path.{subst}
use ixgbe82599_driver.Base.{
  ℕ, zero, suc, ◌+◌, ◌*◌, ◌≤◌, ◌<◌, ◌≡◌, refl, sym, ap, ◌∙◌, List, some, pure, ◌>>=◌, ◌>>◌, arith,
  some-bind,
}
use ixgbe82599_driver.Base.Memory.{Memory, load}
use ixgbe82599_driver.Ixgbe.Flags
use ixgbe82599_driver.Ixgbe.Registers
use ixgbe82599_driver.World.{Event, Env, World, Run, emit}
use ixgbe82599_driver.Mmio.{set_reg32, sleep_us, wait_clear_reg32, wait_set_reg32}
use ixgbe82599_driver.Mmio.Talks.{
  Talks, Talks-set_reg32, Talks-sleep_us, Talks-wait_set_reg32, Talks-wait_clear_reg32,
}
use ixgbe82599_driver.TxQueue.{
  Device, queue_at, num_entries, clean_index, tx_index, sizeof_tx_queue,
}
use ixgbe82599_driver.Init.{init_link, init_stats, init_tx_reg, init_tx_queue, init_tx, do_init_seq}
use ixgbe82599_driver.Init.Queues.{SameIndices, init_tx_queue_lem}
use ixgbe82599_driver.Init.Steps.{
  Talks-init_link, Talks-init_stats, Talks-init_tx_reg, Talks-go_live,
}
use ixgbe82599_driver.Start.{
  cleared, calloc, map_device, start_ixgbe, max_tx_queue_entries, sizeof_device,
}

-- Queue q is as init_tx_queue leaves it: it has its entries, and its indices are those of `m`.
record Initialised (dev : Device) (m m' : Memory) : Type 0 where
  size : (q : ℕ) → q < dev.num_tx_queues → num_entries (queue_at dev.tx_queues q) m' ≡ 512
  indices : (q : ℕ) → SameIndices dev.tx_queues q m m'

module _ (env : Env) (dev : Device) where
  abbrev Initialises : {A : Type 0} → Run A → Type 0
  Initialises {A} m =
      (w w' : World) (a : A) → m w ≡ some (a, w') → Initialised dev w.queues w'.queues

  -- A step before, and steps after.
  Talks-then :
      {A B : Type 0} (m : Run A) (k : A → Run B)
      → Talks m
      → ((a : A) → Initialises (k a))
      → Initialises (m >>= k)
  Talks-then m k hm hk w w' b e =
      let (a, u, first, rest) = some-bind m k w w' b e in
      let same : u.queues ≡ w.queues = ap (λ (v : World). v.queues) (hm w u a first).1 in
      subst (λ q. Initialised dev q w'.queues) same (hk a u w' b rest)

  then-Talks :
      {A B : Type 0} (m : Run A) (k : A → Run B)
      → Initialises m
      → ((a : A) → Talks (k a))
      → Initialises (m >>= k)
  then-Talks m k hm hk w w' b e =
      let (a, u, first, rest) = some-bind m k w w' b e in
      let same : w'.queues ≡ u.queues = ap (λ (v : World). v.queues) (hk a u w' b rest).1 in
      subst (λ q. Initialised dev w.queues q) (sym same) (hm w u a first)

  Initialises-init_tx_queue : Initialises (init_tx_queue env dev)
  Initialises-init_tx_queue w w' a e =
      let (u, run, size, indices) = init_tx_queue_lem env dev w in
      let same : u ≡ w' = cc (run, e) in
      subst (λ (v : World). Initialised dev w.queues v.queues) same
        (record { size = size; indices = indices })

  Initialises-init_tx : Initialises (init_tx env dev)
  unfolding init_tx
  Initialises-init_tx =
      Talks-then (init_tx_reg env dev.addr) _ (Talks-init_tx_reg env dev.addr) λ _.
        then-Talks (init_tx_queue env dev) _ Initialises-init_tx_queue
          λ _. Talks-set_reg32 dev.addr Registers.dmatxctl Flags.dmatxctl_te

  Initialises-do_init_seq : (fuel : ℕ) → Initialises (do_init_seq env fuel dev)
  unfolding do_init_seq
  Initialises-do_init_seq fuel =
      Talks-then (set_reg32 dev.addr Registers.eimc 0x7fffffff) _
        (Talks-set_reg32 dev.addr Registers.eimc 0x7fffffff)
        λ _.
          Talks-then (set_reg32 dev.addr Registers.ctrl Flags.ctrl_rst_mask) _
            (Talks-set_reg32 dev.addr Registers.ctrl Flags.ctrl_rst_mask)
            λ _.
              Talks-then (wait_clear_reg32 env fuel dev.addr Registers.ctrl Flags.ctrl_rst_mask) _
                (Talks-wait_clear_reg32 env fuel dev.addr Registers.ctrl Flags.ctrl_rst_mask)
                λ _. Talks-then (sleep_us 10000) _ (Talks-sleep_us 10000) λ _.
                  Talks-then (set_reg32 dev.addr Registers.eimc 0x7fffffff) _
                    (Talks-set_reg32 dev.addr Registers.eimc 0x7fffffff)
                    λ _.
                      Talks-then (wait_set_reg32 env fuel dev.addr Registers.eec Flags.eec_ard) _
                        (Talks-wait_set_reg32 env fuel dev.addr Registers.eec Flags.eec_ard)
                        λ _.
                          Talks-then
                            (wait_set_reg32 env fuel dev.addr Registers.rdrxctl
                              Flags.rdrxctl_dmaidone)
                            _
                            (Talks-wait_set_reg32 env fuel dev.addr Registers.rdrxctl
                              Flags.rdrxctl_dmaidone)
                            λ _.
                              Talks-then (init_link env dev.addr) _ (Talks-init_link env dev.addr)
                                λ _.
                                  Talks-then (init_stats env dev.addr) _
                                    (Talks-init_stats env dev.addr)
                                    λ _.
                                      then-Talks (init_tx env dev) _ Initialises-init_tx
                                        λ _. Talks-go_live env fuel dev

-- A load within what calloc cleared gives 0.
load-cleared : (k b a n : ℕ) (m : Memory) → a ≤ b → b + k ≤ a + n → load k b (cleared a n m) ≡ 0
unfolding load cleared
load-cleared zero b a n m lo hi = refl
load-cleared (suc k) b a n m lo hi =
    let rest = load-cleared k (b + 1) a n m (omega arith) (omega arith) in ground (arith, rest)

-- The queues of the device that start_ixgbe was asked for.
record Ready (tx_queues : ℕ) (dev : Device) (w : World) : Type 0 where
  count : dev.num_tx_queues ≡ tx_queues
  queue :
      (q : ℕ)
      → q < tx_queues
      → (num_entries (queue_at dev.tx_queues q) w.queues ≡ 512)
        × (clean_index (queue_at dev.tx_queues q) w.queues ≡ 0)
        × (tx_index (queue_at dev.tx_queues q) w.queues ≡ 0)

-- init_tx_queue over the memory that calloc gave.
Initialised-Ready :
    (dev : Device) (m : Memory) (w : World)
    → Initialised dev
        (cleared dev.tx_queues (dev.num_tx_queues * (sizeof_tx_queue + 8 * max_tx_queue_entries)) m)
        w.queues
    → Ready dev.num_tx_queues dev w
unfolding clean_index tx_index
Initialised-Ready dev m w h = record {
  count = refl;
  queue = λ q lt. (
    h.size q lt,
    (h.indices q).clean ∙ load-cleared 2 _ dev.tx_queues _ m (omega arith) (omega arith),
    (h.indices q).tx ∙ load-cleared 2 _ dev.tx_queues _ m (omega arith) (omega arith),
  );
}

returned-Ready :
    {n : ℕ} (d dev : Device) (w w' : World)
    → pure d w ≡ some (dev, w')
    → Ready n d w
    → Ready n dev w'
returned-Ready {n} d dev w w' h ready =
    let same_dev : d ≡ dev = cc h in
    let same_world : w ≡ w' = cc h in
    subst (λ e. Ready n e w') same_dev (subst (Ready n d) same_world ready)

-- What start_ixgbe does once it has the registers.
abbrev pub after_map : Env → (fuel tx_queues addr : ℕ) → Run Device
after_map env fuel tx_queues addr = do
  queues ← calloc env tx_queues (sizeof_tx_queue + 8 * max_tx_queue_entries)
  let ix_dev : Device = record { addr = addr; tx_queues = queues; num_tx_queues = tx_queues }
  do_init_seq env fuel ix_dev
  pure ix_dev

after_map-Ready :
    (env : Env) (fuel tx_queues addr : ℕ) (dev : Device) (w w' : World)
    → after_map env fuel tx_queues addr w ≡ some (dev, w')
    → Ready tx_queues dev w'
unfolding calloc
after_map-Ready env fuel tx_queues addr dev w w' h =
    let n = tx_queues * (sizeof_tx_queue + 8 * max_tx_queue_entries) in
    let ix_dev : Device = record {
      addr = addr;
      tx_queues = env.malloc w.trace n;
      num_tx_queues = tx_queues;
    } in
    let (_, w3, run, end) = some-bind (do_init_seq env fuel ix_dev) (λ _. pure ix_dev) _ w' dev h in
    let ready =
      Initialised-Ready ix_dev w.queues w3 (Initialises-do_init_seq env ix_dev fuel _ w3 tt run) in
    returned-Ready ix_dev dev w3 w' end ready

-- The device that start_ixgbe returns has as many queues as were asked for. Each of them has 512
-- entries, and the index of the next entry to post and that of the next entry to clean are 0.
pub start_ixgbe-ready :
    (env : Env) (fuel : ℕ) (pci_addr : List ℕ) (rx_queues tx_queues q : ℕ) (dev : Device)
    (w w' : World)
    → start_ixgbe env fuel pci_addr rx_queues tx_queues w ≡ some (dev, w')
    → q < tx_queues
    → (dev.num_tx_queues ≡ tx_queues)
      × (num_entries (queue_at dev.tx_queues q) w'.queues ≡ 512)
      × (clean_index (queue_at dev.tx_queues q) w'.queues ≡ 0)
      × (tx_index (queue_at dev.tx_queues q) w'.queues ≡ 0)
unfolding start_ixgbe calloc
start_ixgbe-ready env fuel pci_addr rx_queues tx_queues q dev w w' h lt =
    let w1 = emit (Event.malloc sizeof_device (env.malloc w.trace sizeof_device)) w in
    let (addr, w2, r2, h2) =
      some-bind (map_device env pci_addr) (after_map env fuel tx_queues) w1 w' dev h in
    let ready = after_map-Ready env fuel tx_queues addr dev w2 w' h2 in
    let own = ready.queue q lt in (ready.count, own.0, own.1, own.2)
