-- ===== src/Safety/Sending.antt =====
-- The accesses of the sending program, from its start on.
use mathlib.Core.Path.{subst}
use ixgbe82599_driver.Base.{
  ℕ, zero, suc, ◌+◌, ◌*◌, ◌%◌, ◌^◌, ◌≡◌, refl, List, [], ◌∷◌, Option, some, arith, pure, get, lift,
  some-bind, set?, if◌then◌else◌, ◌==◌,
}
use ixgbe82599_driver.Base.Keeps.{
  Keeps, Keeps-pure, Keeps-get, Keeps-modify, Keeps-lift, Keeps-bind,
}
use ixgbe82599_driver.World.{Event, Env, World, Run}
use ixgbe82599_driver.Pool.{alloc_pkt_buf_batch, alloc_pkt_buf, pkt_buf_free}
use ixgbe82599_driver.Dma.{
  allocate_mempool_mem, init_entries, init_entry, virt_to_phys, allocate_dma_address,
  sizeof_mempool, offsetof_free_stack, uninit_array,
}
use ixgbe82599_driver.TxQueue.{Device, queue_at, descriptors}
use ixgbe82599_driver.Tx.{transmit}
use ixgbe82599_driver.Start.{do_ixgbe}
use ixgbe82599_driver.Sender.{
  init_packet, init_packets, free_bufs, init_mempool_with, init_mempool, send_rounds, main,
  pkt_data, batch_size, packet_bytes, num_bufs,
}
use ixgbe82599_driver.Tx.Kept.{queues_of}
use ixgbe82599_driver.Safety.{AllSafe, StaysSafe, StaysSafe-bind, StaysSafe-outcome, StaysSafe-pure}
use ixgbe82599_driver.Safety.Rings.{MapsAddresses}
use ixgbe82599_driver.Safety.Transmit.{
  Keeping, Keeping-bind, Keeping-pure, Keeping-transmit, Sendable-same, trace_of, free-trace,
}
use ixgbe82599_driver.Safety.Start.{do_ixgbe-Sendable}

alloc_batch-trace :
    (mempool : ℕ) (buf : List ℕ) (n : ℕ) → Keeps trace_of (alloc_pkt_buf_batch mempool buf n)
unfolding alloc_pkt_buf_batch
alloc_batch-trace mempool buf n w w' a h = ground arith

alloc_batch-queues :
    (mempool : ℕ) (buf : List ℕ) (n : ℕ) → Keeps queues_of (alloc_pkt_buf_batch mempool buf n)
unfolding alloc_pkt_buf_batch
alloc_batch-queues mempool buf n w w' a h = ground arith

alloc-trace : (mempool : ℕ) → Keeps trace_of (alloc_pkt_buf mempool)
unfolding alloc_pkt_buf alloc_pkt_buf_batch
alloc-trace mempool w w' a h = ground arith

init_packet-trace : (packet : List ℕ) (size buf : ℕ) → Keeps trace_of (init_packet packet size buf)
unfolding init_packet
init_packet-trace packet size buf = Keeps-bind trace_of get _ (Keeps-get trace_of) λ w.
    Keeps-bind trace_of (lift (w.bufs buf)) _ (Keeps-lift trace_of (w.bufs buf)) λ b.
      Keeps-bind trace_of (lift (packet_bytes packet b.bytes)) _
        (Keeps-lift trace_of (packet_bytes packet b.bytes))
        λ bytes. Keeps-modify trace_of _ (λ u. refl)

init_packets-trace :
    (rounds mempool : ℕ) (packet : List ℕ) (size : ℕ)
    → Keeps trace_of (init_packets rounds mempool packet size)
unfolding init_packets
init_packets-trace zero mempool packet size = Keeps-pure trace_of []
init_packets-trace (suc rounds) mempool packet size =
    Keeps-bind trace_of (alloc_pkt_buf mempool) _ (alloc-trace mempool) λ buf.
      Keeps-bind trace_of (init_packet packet size buf) _ (init_packet-trace packet size buf) λ _.
        Keeps-bind trace_of (init_packets rounds mempool packet size) _
          (init_packets-trace rounds mempool packet size) λ bufs. Keeps-pure trace_of (buf ∷ bufs)

free_bufs-trace : (bufs : List ℕ) → Keeps trace_of (free_bufs bufs)
unfolding free_bufs
free_bufs-trace [] = Keeps-pure trace_of tt
free_bufs-trace (buf ∷ bufs) =
    Keeps-bind trace_of (pkt_buf_free buf) _ (free-trace buf) λ _. free_bufs-trace bufs

StaysSafe-Keeps : (addr : ℕ) {A : Type 0} (m : Run A) → Keeps trace_of m → StaysSafe addr m
StaysSafe-Keeps addr m h w w' a s e = rw (h w w' a e) s

module _ (addr : ℕ) (env : Env) where
  StaysSafe-init_entry :
      (i size mempool base : ℕ) → StaysSafe addr (init_entry env i size mempool base)
  unfolding init_entry virt_to_phys
  StaysSafe-init_entry i size mempool base =
      StaysSafe-outcome addr _ (λ w. (tt, _, refl, λ s. (tt, s)))

  StaysSafe-init_entries :
      (rounds i size mempool base : ℕ) (stack : List ℕ)
      → StaysSafe addr (init_entries env rounds i size mempool base stack)
  unfolding init_entries
  StaysSafe-init_entries zero i size mempool base stack = StaysSafe-pure addr stack
  StaysSafe-init_entries (suc rounds) i size mempool base stack =
      StaysSafe-bind addr (lift (set? stack i i)) _
        (StaysSafe-Keeps addr (lift (set? stack i i)) (Keeps-lift trace_of (set? stack i i)))
        λ stack'.
          StaysSafe-bind addr (init_entry env i size mempool base) _
            (StaysSafe-init_entry i size mempool base)
            λ _. StaysSafe-init_entries rounds (i + 1) size mempool base stack'

  StaysSafe-allocate_dma_address : (size : ℕ) → StaysSafe addr (allocate_dma_address env size)
  unfolding allocate_dma_address virt_to_phys
  StaysSafe-allocate_dma_address size =
      StaysSafe-outcome addr _ (λ w. (_, _, refl, λ s. (tt, (tt, s))))

  StaysSafe-allocate_mempool_mem : (n size : ℕ) → StaysSafe addr (allocate_mempool_mem env n size)
  unfolding allocate_mempool_mem
  StaysSafe-allocate_mempool_mem n size w w' a s e =
      let p = env.malloc w.trace (sizeof_mempool + n * 4) in
      let t = Event.malloc (sizeof_mempool + n * 4) p ∷ w.trace in
      let size' = if size == 0 then 2048 else size in
      StaysSafe-bind addr (allocate_dma_address env (n * size' % 2 ^ 32)) _
        (StaysSafe-allocate_dma_address _)
        (λ d.
          StaysSafe-bind addr
            (init_entries env n 0 size' p d.virt_addr
              (uninit_array env t (p + offsetof_free_stack) n))
            _ (StaysSafe-init_entries n 0 size' p d.virt_addr _)
            (λ stack. StaysSafe-outcome addr _ (λ u. (_, _, refl, λ r. r))))
        (record w { trace = t }) w' a (tt, s) e

  StaysSafe-init_mempool : (size : ℕ) → StaysSafe addr (init_mempool env size)
  unfolding init_mempool init_mempool_with
  StaysSafe-init_mempool size =
      StaysSafe-bind addr (allocate_mempool_mem env num_bufs 0) _
        (StaysSafe-allocate_mempool_mem num_bufs 0)
        λ mempool.
          StaysSafe-bind addr (init_packets num_bufs mempool pkt_data (size % 2 ^ 32)) _
            (StaysSafe-Keeps addr _ (init_packets-trace num_bufs mempool pkt_data (size % 2 ^ 32)))
            λ bufs.
              StaysSafe-bind addr (free_bufs bufs) _
                (StaysSafe-Keeps addr (free_bufs bufs) (free_bufs-trace bufs))
                λ _. StaysSafe-pure addr mempool

-- The rounds of main send on queue 0, and keep it as transmit needs it.
module _ (env : Env) (dev : Device) (ring : ℕ) where
  Keeping-alloc_batch :
      (memp : ℕ) (buf : List ℕ) (n : ℕ)
      → Keeping dev.addr (queue_at dev.tx_queues 0) ring (alloc_pkt_buf_batch memp buf n)
  Keeping-alloc_batch memp buf n w w' a g e =
      Sendable-same dev.addr (queue_at dev.tx_queues 0) ring w w'
        (alloc_batch-trace memp buf n w w' a e) (alloc_batch-queues memp buf n w w' a e) g

  Keeping-send_rounds :
      (rounds memp : ℕ) (buf : List ℕ)
      → Keeping dev.addr (queue_at dev.tx_queues 0) ring (send_rounds env rounds dev memp buf)
  unfolding send_rounds
  Keeping-send_rounds zero memp buf = Keeping-pure dev.addr (queue_at dev.tx_queues 0) ring buf
  Keeping-send_rounds (suc rounds) memp buf =
      let txq = queue_at dev.tx_queues 0 in
      Keeping-bind dev.addr txq ring (transmit env dev 0 buf batch_size) _
        (Keeping-transmit env dev 0 batch_size buf ring (omega arith))
        λ _.
          Keeping-bind dev.addr txq ring (alloc_pkt_buf_batch memp buf batch_size) _
            (Keeping-alloc_batch memp buf batch_size) λ r. Keeping-send_rounds rounds memp r.1

module _ (env : Env) (addresses : MapsAddresses env) where
  -- If mmap gives addresses of 64 bits, all accesses so far were safe wherever the device is, and
  -- do_ixgbe has returned a device, a first batch was taken and the loop of main has gone through
  -- any number of rounds, then every access of the trace was safe: each 32-bit store or load was
  -- either that of an aligned word of the 128 KiB from the address of the device on, or, like all
  -- other stores and loads and every memset, within memory that the program had mapped with mmap before.
  pub send_rounds-AllSafe :
      (fuel rounds memp taken : ℕ) (pci_addr buf bufs sent : List ℕ) (dev : Device)
      (w w1 w2 w3 : World)
      → ((addr : ℕ) → AllSafe addr w.trace)
      → do_ixgbe env fuel pci_addr 2 2 w ≡ some (dev, w1)
      → alloc_pkt_buf_batch memp buf batch_size w1 ≡ some ((taken, bufs), w2)
      → send_rounds env rounds dev memp bufs w2 ≡ some (sent, w3)
      → AllSafe dev.addr w3.trace
  send_rounds-AllSafe fuel rounds memp taken pci_addr buf bufs sent dev w w1 w2 w3 safe up filled
        run =
      let ready =
        do_ixgbe-Sendable env addresses fuel pci_addr 2 2 0 dev w w1 safe (omega arith)
          (omega arith) up in
      let ring = descriptors (queue_at dev.tx_queues 0) w1.queues in
      let with_bufs =
        Keeping-alloc_batch env dev ring memp buf batch_size w1 w2 (taken, bufs) ready filled in
      let end = Keeping-send_rounds env dev ring rounds memp bufs w2 w3 sent with_bufs run in
      end.safe

  -- The same of a run of main on its two arguments, from its start on.
  pub main-AllSafe :
      (atoi : List ℕ → ℕ) (fuel rounds : ℕ) (name pci_addr size buf : List ℕ) (r : Option (List ℕ))
      (w w' : World)
      → w.trace ≡ []
      → main env atoi fuel rounds (name ∷ pci_addr ∷ size ∷ []) buf w ≡ some (r, w')
      → (memp : ℕ) × (dev : Device) × (w1 w2 : World) × (init_mempool env (atoi size) w
          ≡ some (memp, w1))
        × (do_ixgbe env fuel pci_addr 2 2 w1 ≡ some (dev, w2))
        × AllSafe dev.addr w'.trace
  unfolding main
  main-AllSafe atoi fuel rounds name pci_addr size buf r w w' empty h =
      let (memp, w1, pool, rest) = some-bind (init_mempool env (atoi size)) _ w w' r h in
      let (dev, w2, up, rest) = some-bind (do_ixgbe env fuel pci_addr 2 2) _ w1 w' r rest in
      let (filled, w3, took, rest) =
        some-bind (alloc_pkt_buf_batch memp buf batch_size) _ w2 w' r rest in
      let (sent, w4, run, end) =
        some-bind (send_rounds env rounds dev memp filled.1) (λ b. pure (some b)) w3 w' r rest in
      let last : w4 ≡ w' = cc end in
      let start : (addr : ℕ) → AllSafe addr w1.trace =
        λ addr. StaysSafe-init_mempool addr env (atoi size) w w1 memp (rw empty tt) pool in
      (
        memp,
        dev,
        w1,
        w2,
        pool,
        up,
        subst (λ v. AllSafe dev.addr v.trace) last
            (send_rounds-AllSafe fuel rounds memp filled.0 pci_addr buf filled.1 sent dev w1 w2 w3
              w4 start up took run),
      )
