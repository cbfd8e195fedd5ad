-- ===== src/Safety/Start.antt =====
-- The accesses of start_ixgbe and do_ixgbe, and the queues after them.
use mathlib.Core.Path.{subst}
use ixgbe82599_driver.Base.{
  ℕ, ◌+◌, ◌*◌, ◌%◌, ◌^◌, ◌≤◌, ◌<◌, ◌≡◌, refl, List, Option, none, some, arith, pure, ◌>>◌,
  some-bind,
}
use ixgbe82599_driver.World.{
  Event, Env, World, Call, emit, device_file, stat_file, open_file, close_file, write_file, fstat,
  map_file, write_only, read_write,
}
use ixgbe82599_driver.Sys.{call, call_into, call_filling, read_io}
use ixgbe82599_driver.Pci.{remove_driver, enable_dma, pci_map_resource, address_of}
use ixgbe82599_driver.TxQueue.{Device, queue_at, descriptors, sizeof_tx_queue}
use ixgbe82599_driver.Init.{do_init_seq}
use ixgbe82599_driver.Start.{
  calloc, map_device, start_ixgbe, do_ixgbe, sizeof_device, max_tx_queue_entries,
}
use ixgbe82599_driver.Start.Ready.{start_ixgbe-ready, after_map}
use ixgbe82599_driver.Safety.{AllSafe, StaysSafe, StaysSafe-bind, StaysSafe-outcome, StaysSafe-pure}
use ixgbe82599_driver.Safety.Queues.{StaysSafe-do_init_seq}
use ixgbe82599_driver.Safety.Rings.{MapsAddresses, RingsMapped, Ends-do_init_seq}
use ixgbe82599_driver.Safety.Transmit.{Sendable}

-- Calls of the system are safe, wherever the device is.
module _ (addr : ℕ) (env : Env) where
  StaysSafe-call : (c : Call) → StaysSafe addr (call env c)
  unfolding call
  StaysSafe-call c = StaysSafe-outcome addr _ (λ w. (_, _, refl, λ s. (tt, s)))

  StaysSafe-call_into : (c : Call) (size old : ℕ) → StaysSafe addr (call_into env c size old)
  unfolding call_into
  StaysSafe-call_into c size old = StaysSafe-outcome addr _ (λ w. (_, _, refl, λ s. (tt, s)))

  StaysSafe-call_filling : (c : Call) (size old : ℕ) → StaysSafe addr (call_filling env c size old)
  unfolding call_filling
  StaysSafe-call_filling c size old = StaysSafe-outcome addr _ (λ w. (_, _, refl, λ s. (tt, s)))

  StaysSafe-read_io :
      (size : ℕ) (fd : Option ℕ) (offset : ℕ) → StaysSafe addr (read_io env size fd offset)
  unfolding read_io call_into
  StaysSafe-read_io size fd offset = StaysSafe-outcome addr _ (λ w. (_, _, refl, λ s. (tt, s)))

  StaysSafe-remove_driver : (pci_addr : List ℕ) → StaysSafe addr (remove_driver env pci_addr)
  unfolding remove_driver
  StaysSafe-remove_driver pci_addr =
      StaysSafe-bind addr (call env (open_file (device_file pci_addr "driver/unbind") write_only)) _
        (StaysSafe-call _) unbind
    where
      unbind :
          (fd : Option ℕ)
          → StaysSafe addr (elim fd [
            | none ↦ pure tt
            | some n ↦ do
              call env (write_file (some n) pci_addr)
              call env (close_file (some n))
              pure tt
          ])
      unbind none = StaysSafe-pure addr tt
      unbind (some n) =
          StaysSafe-bind addr (call env (write_file (some n) pci_addr)) _ (StaysSafe-call _) λ _.
            StaysSafe-bind addr (call env (close_file (some n))) _ (StaysSafe-call _)
              λ _. StaysSafe-pure addr tt

  StaysSafe-enable_dma : (pci_addr : List ℕ) → StaysSafe addr (enable_dma env pci_addr)
  unfolding enable_dma call call_into
  StaysSafe-enable_dma pci_addr =
      StaysSafe-outcome addr _ (λ w. (tt, _, refl, λ s. (tt, (tt, (tt, (tt, (tt, (tt, s))))))))

  StaysSafe-map_device : (pci_addr : List ℕ) → StaysSafe addr (map_device env pci_addr)
  unfolding map_device pci_map_resource
  StaysSafe-map_device pci_addr =
      StaysSafe-bind addr (call env (stat_file (device_file pci_addr "iommu_group"))) _
        (StaysSafe-call _)
        λ _.
          StaysSafe-bind addr (remove_driver env pci_addr) _ (StaysSafe-remove_driver pci_addr) λ _.
            StaysSafe-bind addr (enable_dma env pci_addr) _ (StaysSafe-enable_dma pci_addr) λ _.
              StaysSafe-bind addr
                (call env (open_file (device_file pci_addr "resource0") read_write)) _
                (StaysSafe-call _)
                λ fd w w' a s e.
                  StaysSafe-bind addr
                    (call_filling env (fstat fd) 8 (env.uninit w.trace 0 % 2 ^ 64)) _
                    (StaysSafe-call_filling _ _ _)
                    (λ st_size.
                      StaysSafe-bind addr (call env (map_file fd st_size 0)) _ (StaysSafe-call _)
                        (λ address. StaysSafe-pure addr (address_of address)))
                    w w' a s e

-- What the world is like when start_ixgbe returns the device.
record Started (tx_queues : ℕ) (dev : Device) (w : World) : Type 0 where
  safe : AllSafe dev.addr w.trace
  rings : RingsMapped dev tx_queues w

returned-Started :
    {n : ℕ} (d dev : Device) (w w' : World)
    → pure d w ≡ some (dev, w')
    → Started n d w
    → Started n dev w'
returned-Started {n} d dev w w' h started =
    let same_dev : d ≡ dev = cc h in
    let same_world : w ≡ w' = cc h in
    subst (λ e. Started n e w') same_dev (subst (Started n d) same_world started)

module _ (env : Env) (addresses : MapsAddresses env) where
  after_map-Started :
      (fuel tx_queues addr : ℕ) (dev : Device) (w w' : World)
      → AllSafe addr w.trace
      → tx_queues ≤ 128
      → after_map env fuel tx_queues addr w ≡ some (dev, w')
      → Started tx_queues dev w'
  unfolding calloc
  after_map-Started fuel tx_queues addr dev w w' safe few h =
      let n = tx_queues * (sizeof_tx_queue + 8 * max_tx_queue_entries) in
      let ix_dev : Device = record {
        addr = addr;
        tx_queues = env.malloc w.trace n;
        num_tx_queues = tx_queues;
      } in
      let (_, w3, run, end) =
        some-bind (do_init_seq env fuel ix_dev) (λ _. pure ix_dev) _ w' dev h in
      returned-Started ix_dev dev w3 w' end (record {
        safe = StaysSafe-do_init_seq env ix_dev few fuel _ w3 tt (tt, safe) run;
        rings = Ends-do_init_seq env ix_dev addresses fuel _ w3 tt run;
      })

  start_ixgbe-Started :
      (fuel : ℕ) (pci_addr : List ℕ) (rx_queues tx_queues : ℕ) (dev : Device) (w w' : World)
      → ((addr : ℕ) → AllSafe addr w.trace)
      → tx_queues ≤ 128
      → start_ixgbe env fuel pci_addr rx_queues tx_queues w ≡ some (dev, w')
      → Started tx_queues dev w'
  unfolding start_ixgbe calloc
  start_ixgbe-Started fuel pci_addr rx_queues tx_queues dev w w' safe few h =
      let w1 = emit (Event.malloc sizeof_device (env.malloc w.trace sizeof_device)) w in
      let (addr, w2, mapped, rest) =
        some-bind (map_device env pci_addr) (after_map env fuel tx_queues) w1 w' dev h in
      after_map-Started fuel tx_queues addr dev w2 w'
        (StaysSafe-map_device addr env pci_addr w1 w2 addr (tt, safe addr) mapped) few rest

  pub start_ixgbe-Sendable :
      (fuel : ℕ) (pci_addr : List ℕ) (rx_queues tx_queues q : ℕ) (dev : Device) (w w' : World)
      → ((addr : ℕ) → AllSafe addr w.trace)
      → tx_queues ≤ 128
      → q < tx_queues
      → start_ixgbe env fuel pci_addr rx_queues tx_queues w ≡ some (dev, w')
      → let txq = queue_at dev.tx_queues q in Sendable dev.addr txq (descriptors txq w'.queues) w'
  start_ixgbe-Sendable fuel pci_addr rx_queues tx_queues q dev w w' safe few lt h =
      let started = start_ixgbe-Started fuel pci_addr rx_queues tx_queues dev w w' safe few h in
      let (count, size, clean, tail) =
        start_ixgbe-ready env fuel pci_addr rx_queues tx_queues q dev w w' h lt in
      record {
        safe = started.safe;
        mapped = started.rings q lt;
        ring_at = refl;
        size = size;
        tail = omega (arith, tail);
        clean = omega (arith, clean);
      }

  pub do_ixgbe-Sendable :
      (fuel : ℕ) (pci_addr : List ℕ) (rx_queues tx_queues q : ℕ) (dev : Device) (w w' : World)
      → ((addr : ℕ) → AllSafe addr w.trace)
      → tx_queues ≤ 128
      → q < tx_queues
      → do_ixgbe env fuel pci_addr rx_queues tx_queues w ≡ some (dev, w')
      → let txq = queue_at dev.tx_queues q in Sendable dev.addr txq (descriptors txq w'.queues) w'
  unfolding do_ixgbe read_io call call_into
  do_ixgbe-Sendable fuel pci_addr rx_queues tx_queues q dev w w' safe few lt h =
      start_ixgbe-Sendable fuel pci_addr rx_queues tx_queues q dev _ w'
        (λ addr. (tt, (tt, (tt, (tt, safe addr))))) few lt h
