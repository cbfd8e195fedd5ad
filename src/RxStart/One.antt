-- ===== src/RxStart/One.antt =====
-- recv/init.c: do_ixgbe with one receive queue.
use mathlib.Core.Path.{subst}
use ixgbe82599_driver.Base.{
  ℕ, ◌+◌, ◌*◌, ◌≡◌, refl, sym, ap, ◌∙◌, List, some, arith, some-bind, ◌>>=◌, ◌>>◌, pure, bit_or,
}
use ixgbe82599_driver.Ixgbe.Flags
use ixgbe82599_driver.Ixgbe.Registers
use ixgbe82599_driver.World.{Env, World, Run}
use ixgbe82599_driver.Mmio.{
  set_flag32, sleep_us, wait_clear_reg32, wait_set_reg32, set_reg32, unset_flag32,
}
use ixgbe82599_driver.Mmio.Talks.{Talks, Talks-bind, Talks-pure, Talks-set_flag32}
use ixgbe82599_driver.Init.{init_link, init_stats}
use ixgbe82599_driver.Init.Steps.{Talks-wait_for_link}
use ixgbe82599_driver.Link.{wait_for_link}
use ixgbe82599_driver.Sys.{call, call_into, read_io}
use ixgbe82599_driver.Start.{calloc}
use ixgbe82599_driver.Rx.{Device, queue_at, sizeof_rx_queue}
use ixgbe82599_driver.RxInit.{
  init_rx_reg, init_rx_queue, init_rx, start_rx_queue, start_rx_queues_from, do_init_seq,
}
use ixgbe82599_driver.RxInit.Queues.{Started, init_rx_queue-Started}
use ixgbe82599_driver.RxStart.{map_device, start_ixgbe, do_ixgbe, max_rx_queue_entries}
use ixgbe82599_driver.RxStart.Ready.{
  Receiving, Receiving-Talks, Allocates, start_rx_queue-Receiving,
}

-- What a run that returned is known for is known after a step before it.
abbrev pub Finally : {A : Type 0} → (World → Type 0) → Run A → Type 0
Finally {A} P m = (w w' : World) (a : A) → m w ≡ some (a, w') → P w'

Finally-then :
    {A B : Type 0} (P : World → Type 0) (m : Run A) (k : A → Run B)
    → ((a : A) → Finally P (k a))
    → Finally P (m >>= k)
Finally-then P m k h w w' b e = let (a, u, first, rest) = some-bind m k w w' b e in h a u w' b rest

module _ (env : Env) (dev : Device) where
  -- What do_init_seq does once the queues are started.
  abbrev pub go_live : Run (Unit {0})
  go_live = do
    set_flag32 env dev.addr Registers.fctrl (bit_or Flags.fctrl_mpe Flags.fctrl_upe)
    wait_for_link env dev.addr
    pure tt

  Talks-go_live : Talks go_live
  Talks-go_live =
      Talks-bind (set_flag32 env dev.addr Registers.fctrl (bit_or Flags.fctrl_mpe Flags.fctrl_upe))
        _ (Talks-set_flag32 env _ _ _)
        λ _.
          Talks-bind (wait_for_link env dev.addr) _ (Talks-wait_for_link env dev.addr)
            λ _. Talks-pure tt

module _ (env : Env) (mem : Allocates env) (fuel : ℕ) (dev : Device)
    (one : dev.num_rx_queues ≡ 1) where
  start_one-Receiving :
      (w w' : World)
      → Started (queue_at dev.rx_queues 0) w.queues
      → start_rx_queues_from env fuel 1 0 dev w ≡ some (tt, w')
      → Receiving (queue_at dev.rx_queues 0) w'
  unfolding start_rx_queues_from
  start_one-Receiving w w' started e =
      let (_, u, first, rest) =
        some-bind (start_rx_queue env fuel dev 0) (λ _. pure tt) w w' tt e in
      let end : u ≡ w' = cc rest in
      subst (Receiving (queue_at dev.rx_queues 0)) end
        (start_rx_queue-Receiving env mem fuel dev 0 w u started first)

  after_init-Receiving :
      (w w' : World)
      → Started (queue_at dev.rx_queues 0) w.queues
      → (start_rx_queues_from env fuel dev.num_rx_queues 0 dev >> go_live env dev) w ≡ some (tt, w')
      → Receiving (queue_at dev.rx_queues 0) w'
  after_init-Receiving w w' started e =
      let (_, u, first, rest) =
        some-bind (start_rx_queues_from env fuel dev.num_rx_queues 0 dev) (λ _. go_live env dev) w
          w' tt e in
      let first_one : start_rx_queues_from env fuel 1 0 dev w ≡ some (tt, u) =
        subst (λ n. start_rx_queues_from env fuel n 0 dev w ≡ some (tt, u)) one first in
      Receiving-Talks (queue_at dev.rx_queues 0) (go_live env dev) u w' tt (Talks-go_live env dev)
        rest (start_one-Receiving w u started first_one)

  init_rx_queue_then :
      (k : Run (Unit {0}))
      → Talks k
      → Finally (λ w. Started (queue_at dev.rx_queues 0) w.queues) (init_rx_queue env dev >> k)
  init_rx_queue_then k talks w w' a e =
      let (_, u, first, rest) = some-bind (init_rx_queue env dev) (λ _. k) w w' a e in
      let (v, run, all) = init_rx_queue-Started env dev w in
      let same : v ≡ u = cc (run, first) in
      let kept : w'.queues ≡ u.queues = ap (λ (x : World). x.queues) (talks u w' a rest).1 in
      subst (Started (queue_at dev.rx_queues 0)) (ap (λ (x : World). x.queues) same ∙ sym kept)
        (all 0 (omega (arith, one)))

  pub init_rx-Started : Finally (λ w. Started (queue_at dev.rx_queues 0) w.queues) (init_rx env dev)
  unfolding init_rx
  init_rx-Started =
      Finally-then _ (unset_flag32 env dev.addr Registers.rxctrl Flags.rxctrl_rxen) _ λ _.
        Finally-then _ (init_rx_reg env dev.addr) _ λ _.
          init_rx_queue_then (set_flag32 env dev.addr Registers.rxctrl Flags.rxctrl_rxen)
            (Talks-set_flag32 env _ _ _)

  init_rx_then : Finally (Receiving (queue_at dev.rx_queues 0)) (
      init_rx env dev >> (start_rx_queues_from env fuel dev.num_rx_queues 0 dev >> go_live env dev))
  init_rx_then w w' a e =
      let (_, u, first, rest) =
        some-bind (init_rx env dev)
          (λ _. start_rx_queues_from env fuel dev.num_rx_queues 0 dev >> go_live env dev) w w' a
          e in
      after_init-Receiving u w' (init_rx-Started w u tt first) rest

  do_init_seq-Receiving : Finally (Receiving (queue_at dev.rx_queues 0)) (do_init_seq env fuel dev)
  unfolding do_init_seq
  do_init_seq-Receiving =
      let P = Receiving (queue_at dev.rx_queues 0) in
      let a = dev.addr in
      Finally-then P (set_reg32 a Registers.eimc 0x7fffffff) _ λ _.
        Finally-then P (set_reg32 a Registers.ctrl Flags.ctrl_rst_mask) _ λ _.
          Finally-then P (wait_clear_reg32 env fuel a Registers.ctrl Flags.ctrl_rst_mask) _ λ _.
            Finally-then P (sleep_us 10000) _ λ _.
              Finally-then P (set_reg32 a Registers.eimc 0x7fffffff) _ λ _.
                Finally-then P (wait_set_reg32 env fuel a Registers.eec Flags.eec_ard) _ λ _.
                  Finally-then P
                    (wait_set_reg32 env fuel a Registers.rdrxctl Flags.rdrxctl_dmaidone) _
                    λ _.
                      Finally-then P (init_link env a) _
                        λ _. Finally-then P (init_stats env a) _ λ _. init_rx_then

-- The device and its first queue.
abbrev pub Receives : Device → World → Type 0
Receives dev w = (dev.num_rx_queues ≡ 1) × Receiving (queue_at dev.rx_queues 0) w

-- start_ixgbe once the registers are mapped.
abbrev pub after_map : Env → (fuel addr : ℕ) → Run Device
after_map env fuel addr = do
  queues ← calloc env 1 (sizeof_rx_queue + 8 * max_rx_queue_entries)
  let ix_dev : Device = record { addr = addr; rx_queues = queues; num_rx_queues = 1 }
  do_init_seq env fuel ix_dev
  pure ix_dev

module _ (env : Env) (mem : Allocates env) where
  after_map-Receives :
      (fuel addr : ℕ) (dev : Device) (w w' : World)
      → after_map env fuel addr w ≡ some (dev, w')
      → Receives dev w'
  unfolding calloc
  after_map-Receives fuel addr dev w w' h =
      let n = 1 * (sizeof_rx_queue + 8 * max_rx_queue_entries) in
      let ix_dev : Device = record {
        addr = addr;
        rx_queues = env.malloc w.trace n;
        num_rx_queues = 1;
      } in
      let (_, u, run, end) =
        some-bind (do_init_seq env fuel ix_dev) (λ _. pure ix_dev) _ w' dev h in
      let same_dev : ix_dev ≡ dev = cc end in
      let same_world : u ≡ w' = cc end in
      subst (λ d. Receives d w') same_dev
        (subst (Receives ix_dev) same_world
          (refl, do_init_seq-Receiving env mem fuel ix_dev refl _ u tt run))

  -- If malloc gives addresses of 64 bits and leaves 2048 in the place of buf_size, then the device
  -- that do_ixgbe returns for one receive queue has one, of 1012 entries and with its index among the first four, and this queue
  -- has a valid pool of 4096 buffers of which just those for the ring, or more, are out.
  pub do_ixgbe-Receives :
      (fuel : ℕ) (pci_addr : List ℕ) (tx_queue : ℕ) (dev : Device) (w w' : World)
      → do_ixgbe env fuel pci_addr 1 tx_queue w ≡ some (dev, w')
      → Receives dev w'
  unfolding do_ixgbe start_ixgbe read_io call call_into
  do_ixgbe-Receives fuel pci_addr tx_queue dev w w' h =
      let (addr, u, mapped, rest) =
        some-bind (map_device env pci_addr) (after_map env fuel) _ w' dev h in
      after_map-Receives fuel addr dev u w' rest
