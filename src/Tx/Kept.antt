-- ===== src/Tx/Kept.antt =====
-- What transmit leaves alone in the structure of its queue.
use ixgbe82599_driver.Base.{
  ◌%◌, ℕ, zero, suc, ◌+◌, ◌^◌, ◌<◌, ◌≡◌, refl, ap, arith, List, some, Bool, true, false, pure, get,
  lift, bit_and, ltb, ◌==◌, if◌then◌else◌, get_elem?,
}
use ixgbe82599_driver.Base.Keeps.{
  Keeps, Keeps-pure, Keeps-get, Keeps-modify, Keeps-lift, Keeps-bind,
}
use ixgbe82599_driver.Base.Memory.{Memory}
use ixgbe82599_driver.Ixgbe.Flags
use ixgbe82599_driver.Ixgbe.Registers.{tdt}
use ixgbe82599_driver.World.{Event, emit, Env, World, Run}
use ixgbe82599_driver.Mmio.{set_reg32}
use ixgbe82599_driver.Pool.{pkt_buf_free}
use ixgbe82599_driver.TxQueue.{
  Device, queue_at, descriptors, num_entries, clean_index, tx_index, virtual_address,
  set_virtual_address,
}
use ixgbe82599_driver.TxQueue.Layout.{set_virtual_address-header, set_tx_index-header}
use ixgbe82599_driver.Tx.{
  wrap_ring, cleanable, cleanup_end, clean_batch, load_status, free_batch, clean_loop, tx_clean,
  post, transmit_loop, transmit, descriptor_at,
}

Keeps-if :
    {X A : Type 0} (f : World → X) (b : Bool) (m n : Run A)
    → Keeps f m
    → Keeps f n
    → Keeps f (if b then m else n)
Keeps-if f true m n h k = h
Keeps-if f false m n h k = k

abbrev pub queues_of : World → Memory
queues_of w = w.queues

pub free-queues : (buf : ℕ) → Keeps queues_of (pkt_buf_free buf)
unfolding pkt_buf_free
free-queues buf w w' a h = ground arith

module _ (env : Env) where
  status-queues : (txd : ℕ) → Keeps queues_of (load_status env txd)
  unfolding load_status
  status-queues txd w w' a h = ground arith

-- The inner loop of tx_clean leaves alone what pkt_buf_free does.
pub free_batch-Keeps :
    {X : Type 0} (f : World → X)
    → ((buf : ℕ) → Keeps f (pkt_buf_free buf))
    → (fuel txq num to c : ℕ) → Keeps f (free_batch fuel txq num to c)
unfolding free_batch
free_batch-Keeps f free zero txq num to c = λ w w' a h. absurd (cc h)
free_batch-Keeps f free (suc fuel) txq num to c = Keeps-bind f get _ (Keeps-get f) λ w.
    Keeps-bind f (pkt_buf_free (virtual_address txq c w.queues)) _ (free _) λ _.
      Keeps-if f (c == to) (pure tt) (free_batch fuel txq num to (wrap_ring c num))
        (Keeps-pure f tt) (free_batch-Keeps f free fuel txq num to (wrap_ring c num))

module _ (env : Env) where
  clean_loop-queues :
      (fuel txq ring num tx c : ℕ) → Keeps queues_of (clean_loop env fuel txq ring num tx c)
  unfolding clean_loop
  clean_loop-queues zero txq ring num tx c = λ w w' a h. absurd (cc h)
  clean_loop-queues (suc fuel) txq ring num tx c =
      Keeps-if queues_of (ltb (cleanable tx c num) clean_batch) (pure c) _ (Keeps-pure queues_of c)
        (Keeps-bind queues_of (load_status env (descriptor_at ring (cleanup_end c num))) _
          (status-queues env _)
          λ status.
            Keeps-if queues_of (bit_and status Flags.advtxd_stat_dd == 0) (pure c) _
              (Keeps-pure queues_of c)
              (Keeps-bind queues_of (free_batch (2 ^ 16) txq num (cleanup_end c num) c) _
                (free_batch-Keeps queues_of free-queues (2 ^ 16) txq num _ c)
                λ _. clean_loop-queues fuel txq ring num tx (wrap_ring (cleanup_end c num) num)))

  -- tx_clean changes no queue structure.
  pub tx_clean-queues : (txq : ℕ) → Keeps queues_of (tx_clean env txq)
  unfolding tx_clean
  tx_clean-queues txq = Keeps-bind queues_of get _ (Keeps-get queues_of) λ w.
      Keeps-bind queues_of
        (clean_loop env (2 ^ 16) txq (descriptors txq w.queues) (num_entries txq w.queues)
          (tx_index txq w.queues) (clean_index txq w.queues))
        _ (clean_loop-queues (2 ^ 16) txq _ _ _ _) λ c. Keeps-modify queues_of _ (λ u. refl)

wrap_ring-lt : (i n : ℕ) → wrap_ring i n < 2 ^ 16
unfolding wrap_ring
wrap_ring-lt i n = omega arith

module _ (txq : ℕ) where
  abbrev clean_of : World → ℕ
  clean_of w = clean_index txq w.queues

  post-clean_index : (tx next buf : ℕ) → next < 2 ^ 16 → Keeps clean_of (post txq tx next buf)
  unfolding post
  post-clean_index tx next buf lt w w' a h =
      let (v, t) = set_virtual_address-header txq w.queues tx buf in
      let (q, i) = set_tx_index-header txq (set_virtual_address txq tx buf w.queues) next lt in
      ground (arith, v.clean_index, q.clean_index)

  transmit_loop-clean_index :
      (rounds sent : ℕ) (bufs : List ℕ) → Keeps clean_of (transmit_loop rounds sent txq bufs)
  unfolding transmit_loop
  transmit_loop-clean_index zero sent bufs = Keeps-pure clean_of tt
  transmit_loop-clean_index (suc rounds) sent bufs =
      Keeps-bind clean_of get _ (Keeps-get clean_of) λ w.
        let tx = tx_index txq w.queues in
        let next = wrap_ring tx (num_entries txq w.queues) in
        Keeps-if clean_of (tx == next) (pure tt) _ (Keeps-pure clean_of tt) (
          Keeps-bind clean_of (lift (get_elem? bufs sent)) _
            (Keeps-lift clean_of (get_elem? bufs sent))
            λ buf.
              Keeps-bind clean_of (post txq tx next buf) _
                (post-clean_index tx next buf (wrap_ring-lt _ _))
                λ _. transmit_loop-clean_index rounds (sent + 1) bufs)

-- No run of transmit that returns changes the clean index of its queue. So the next tx_clean
-- starts at the same entry.
pub transmit-clean_index :
    (env : Env) (dev : Device) (queue_id num_bufs : ℕ) (bufs : List ℕ) (w w' : World)
    → transmit env dev queue_id bufs num_bufs w ≡ some (tt, w')
    → clean_index (queue_at dev.tx_queues queue_id) w'.queues
      ≡ clean_index (queue_at dev.tx_queues queue_id) w.queues
unfolding transmit set_reg32
transmit-clean_index env dev queue_id n bufs w w' h =
    let txq = queue_at dev.tx_queues queue_id in
    let keep : Keeps (clean_of txq) (transmit env dev queue_id bufs n) =
      Keeps-bind (clean_of txq) (tx_clean env txq) _
        (λ u u' a e. ap (clean_index txq) (tx_clean-queues env txq u u' a e))
        λ _.
          Keeps-bind (clean_of txq) (transmit_loop n 0 txq bufs) _
            (transmit_loop-clean_index txq n 0 bufs)
            λ _. Keeps-bind (clean_of txq) get _ (Keeps-get (clean_of txq)) λ u.
              Keeps-modify (clean_of txq)
                (emit (Event.store32 (dev.addr + tdt queue_id) (tx_index txq u.queues % 2 ^ 32)))
                (λ v. refl) in
    keep w w' tt h
