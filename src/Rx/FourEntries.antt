-- ===== src/Rx/FourEntries.antt =====
-- rx_batch on the ring that the receiver sets up.
use mathlib.Core.Path.{subst}
use ixgbe82599_driver.Base.{
  ℕ, zero, suc, ◌+◌, ◌*◌, ◌%◌, ◌^◌, ◌<◌, ◌≡◌, ◌∙◌, refl, inr, ap, arith, List, Option, some, none,
  pure, get, modify, lift, ◌>>=◌, set?, ◌==◌, bit_and,
}
use ixgbe82599_driver.Base.Memory.{load-store, load-store-Apart}
use ixgbe82599_driver.Base.Keeps.{Keeps, Keeps-get, Keeps-modify, Keeps-lift}
use ixgbe82599_driver.Base.Triple.{Triple, Triple-bind, Triple-pure, Triple-get, Triple-if}
use ixgbe82599_driver.Ixgbe.Flags
use ixgbe82599_driver.Ixgbe.Registers.{rdt}
use ixgbe82599_driver.World.{Event, emit, Env, World, Run}
use ixgbe82599_driver.Mmio.{set_reg32}
use ixgbe82599_driver.Pool.{alloc_pkt_buf, alloc_pkt_buf_batch, null}
use ixgbe82599_driver.Dma.{offsetof_data}
use ixgbe82599_driver.Tx.{wrap_ring}
use ixgbe82599_driver.Rx.{
  Device, queue_at, num_entries, rx_index, virtual_address, descriptors, descriptor_at, Taking,
  Outcome, taking, exhausted, offsetof_hdr_addr, set_rx_index, set_virtual_address, set_size,
  load_status_error, load_length, take_one, rx_loop, rx_batch, finish, go_on, minus_one,
}
use ixgbe82599_driver.Rx.Stuck.{num_rx_queue_entries, wrap_ring-four}

-- The outcome of the loop is an index below 4, if it is not the end.
Four : Outcome → Type 0
Four (taking t) = t.rx_index < 4
Four (exhausted bufs) = Unit

module _ (rxq start : ℕ) where
  -- The two fields that the loop leaves alone.
  abbrev entries_of : World → ℕ × ℕ
  entries_of w = (num_entries rxq w.queues, rx_index rxq w.queues)

  abbrev Sized : World → Type 0
  Sized w = entries_of w ≡ (num_rx_queue_entries, start)

  abbrev Ends : Outcome → World → Type 0
  Ends o w = Sized w × Four o

  abbrev rxd : Taking → World → ℕ
  rxd t w = descriptor_at (descriptors rxq w.queues) t.rx_index

  step :
      {A B : Type 0} (R : B → World → Type 0) (m : Run A) (k : A → Run B)
      → Keeps entries_of m
      → ((a : A) → Triple Sized (k a) R)
      → Triple Sized (m >>= k) R
  step R m k h = Triple-bind Sized (λ _. Sized) R m k (λ s s' a p e. h s s' a e ∙ p)

  virtual_address-entries :
      (i p : ℕ) (w : World)
      → entries_of (record w { queues = set_virtual_address rxq i p w.queues }) ≡ entries_of w
  unfolding num_entries rx_index set_virtual_address
  virtual_address-entries i p w =
      let num = load-store-Apart 2 8 (rxq + 24 + i * 8) p (rxq + 16) w.queues (inr (omega arith)) in
      let index =
        load-store-Apart 2 8 (rxq + 24 + i * 8) p (rxq + 18) w.queues (inr (omega arith)) in
      λ j. (num j, index j)

  set_size-entries : (buf size : ℕ) → Keeps entries_of (set_size buf size)
  unfolding set_size
  set_size-entries buf size w w' a h = ground arith

  alloc-entries : (pool : ℕ) → Keeps entries_of (alloc_pkt_buf pool)
  unfolding alloc_pkt_buf alloc_pkt_buf_batch
  alloc-entries pool w w' a h = ground arith

  go_on-Ends :
      (k : Taking → Run Outcome)
      → ((t : Taking) → t.rx_index < 4 → Triple Sized (k t) Ends)
      → (o : Outcome) → Triple (Ends o) (go_on k o) Ends
  unfolding Four
  go_on-Ends k h (taking t) s s' b p run = h t p.1 s s' b p.0 run
  go_on-Ends k h (exhausted bufs) s s' b p run =
      Triple-pure (Ends (exhausted bufs)) Ends (exhausted bufs) (λ s p. p) s s' b p run

  module _ (env : Env) where
    length-entries : (rxd : ℕ) → Keeps entries_of (load_length env rxd)
    unfolding load_length
    length-entries rxd w w' a h = ground arith

    status-entries : (rxd : ℕ) → Keeps entries_of (load_status_error env rxd)
    unfolding load_status_error
    status-entries rxd w w' a h = ground arith

    take_one-Ends : (t : Taking) → t.rx_index < 4 → Triple Sized (take_one env rxq t) Ends
    unfolding take_one Four
    take_one-Ends t lt = step Ends get _ (Keeps-get entries_of) λ w.
        step Ends (load_length env _) _ (length-entries _) λ length.
          step Ends (set_size _ length) _ (set_size-entries _ _) λ _.
            step Ends (alloc_pkt_buf _) _ (alloc-entries _) λ p_buf.
              Triple-if Sized Ends (p_buf == null) (pure (exhausted t.bufs)) _
                (Triple-pure Sized Ends _ (λ s p. (p, tt)))
                (step Ends get _ (Keeps-get entries_of) λ v.
                  step Ends (lift (v.bufs p_buf)) _ (Keeps-lift entries_of (v.bufs p_buf)) λ p.
                    step Ends
                      (modify (
                        emit (Event.store64 (rxd t w) ((p.buf_addr_phy + offsetof_data) % 2 ^ 64))))
                      _ (Keeps-modify entries_of _ (λ u. refl))
                      λ _.
                        step Ends (modify (emit (Event.store64 (rxd t w + offsetof_hdr_addr) 0))) _
                          (Keeps-modify entries_of _ (λ u. refl))
                          λ _.
                            step Ends
                              (modify (λ u. record u {
                                queues = set_virtual_address rxq t.rx_index p_buf u.queues;
                              }))
                              _
                              (Keeps-modify entries_of _
                                (λ u. virtual_address-entries t.rx_index p_buf u))
                              λ _.
                                step Ends
                                  (lift (set? t.bufs t.i (virtual_address rxq t.rx_index w.queues)))
                                  _
                                  (Keeps-lift entries_of
                                    (set? t.bufs t.i (virtual_address rxq t.rx_index w.queues)))
                                  λ bufs'.
                                    Triple-bind Sized (λ u s. Sized u × Sized s) Ends get _
                                      (Triple-get Sized)
                                      λ u.
                                        Triple-pure (λ s. Sized u × Sized s) Ends
                                          (taking (record {
                                            i = t.i + 1;
                                            rx_index =
                                                wrap_ring t.rx_index (num_entries rxq u.queues);
                                            prev_rx_index = t.rx_index;
                                            bufs = bufs';
                                          }))
                                          (λ s p. (p.1, next_four u p.0)))
      where
        next_four : (u : World) → Sized u → wrap_ring t.rx_index (num_entries rxq u.queues) < 4
        next_four u sized =
            rw (ap (λ (p : ℕ × ℕ). p.0) sized, wrap_ring-four t.rx_index lt) (omega arith)

    rx_loop-Ends :
        (rounds : ℕ) (t : Taking) → t.rx_index < 4 → Triple Sized (rx_loop env rounds rxq t) Ends
    unfolding rx_loop Four
    rx_loop-Ends zero t lt = Triple-pure Sized Ends (taking t) (λ s p. (p, lt))
    rx_loop-Ends (suc rounds) t lt = step Ends get _ (Keeps-get entries_of) λ w.
        step Ends (load_status_error env _) _ (status-entries _) λ status.
          Triple-if Sized Ends (bit_and status Flags.rxdadv_stat_dd == 0) _ _
            (rx_loop-Ends rounds (record t { i = t.i + 1 }) lt)
            (Triple-bind Sized Ends Ends (take_one env rxq t) _ (take_one-Ends t lt)
              (go_on-Ends (rx_loop env rounds rxq) (rx_loop-Ends rounds)))

  -- The queue is as the receiver needs it.
  abbrev Good : World → Type 0
  Good w = (num_entries rxq w.queues ≡ num_rx_queue_entries) × (rx_index rxq w.queues < 4)

  kept : (w : World) → start < 4 → Sized w → Good w
  kept w lt sized = (ap (λ (p : ℕ × ℕ). p.0) sized, rw (ap (λ (p : ℕ × ℕ). p.1) sized) lt)

  moved :
      (i : ℕ) (w : World)
      → i < 4
      → Sized w
      → Good (record w { queues = set_rx_index rxq i w.queues })
  unfolding num_entries rx_index set_rx_index
  moved i w lt sized =
      let own : rx_index rxq (set_rx_index rxq i w.queues) ≡ i =
        load-store 2 (rxq + 18) (i % 2 ^ 16) w.queues (omega arith) ∙ omega arith in
      (
        load-store-Apart 2 2 (rxq + 18) (i % 2 ^ 16) (rxq + 16) w.queues (inr (omega arith))
            ∙ ap (λ (p : ℕ × ℕ). p.0) sized,
        rw own lt,
      )

finish-Good :
    (dev : Device) (queue_id start : ℕ) (o : Outcome)
    → start < 4
    → Triple
        (Ends (queue_at dev.rx_queues queue_id) start o)
        (finish dev queue_id o)
        (λ _. Good (queue_at dev.rx_queues queue_id) start)
unfolding finish set_reg32 Four
finish-Good dev q start (exhausted b) lt =
    Triple-pure _ (λ _. Good (queue_at dev.rx_queues q) start) (minus_one, b)
      (λ s p. kept (queue_at dev.rx_queues q) start s lt p.0)
finish-Good dev q start (taking t) lt =
    Triple-if _ (λ _. Good (queue_at dev.rx_queues q) start) (t.rx_index == t.prev_rx_index) _ _
      (Triple-pure _ (λ _. Good (queue_at dev.rx_queues q) start) (t.i, t.bufs)
        (λ s p. kept (queue_at dev.rx_queues q) start s lt p.0))
      (λ s s' b p h.
        subst
          (λ (o : Option ((ℕ × List ℕ) × World)). elim o [
            | none ↦ Unit
            | some (_, v) ↦ Good (queue_at dev.rx_queues q) start v
          ])
          h
          (moved (queue_at dev.rx_queues q) start t.rx_index
            (emit (Event.store32 (dev.addr + rdt q) (t.prev_rx_index % 2 ^ 32)) s) p.1 p.0))

-- On the ring of 1012 entries that the receiver sets up, no run of rx_batch leaves the first four
-- entries: an rx_index below 4 is below 4 afterwards, and num_entries is still 1012.
pub rx_batch-four :
    (env : Env) (dev : Device) (queue_id num_buf : ℕ) (bufs : List ℕ) (r : ℕ × List ℕ)
    (w w' : World)
    → num_entries (queue_at dev.rx_queues queue_id) w.queues ≡ num_rx_queue_entries
    → rx_index (queue_at dev.rx_queues queue_id) w.queues < 4
    → rx_batch env dev queue_id bufs num_buf w ≡ some (r, w')
    → (num_entries (queue_at dev.rx_queues queue_id) w'.queues ≡ num_rx_queue_entries)
      × (rx_index (queue_at dev.rx_queues queue_id) w'.queues < 4)
unfolding rx_batch
rx_batch-four env dev q n bufs r w w' num lt h =
    let rxq = queue_at dev.rx_queues q in
    let start = rx_index rxq w.queues in
    let first : Taking = record { i = 0; rx_index = start; prev_rx_index = start; bufs = bufs } in
    Triple-bind (Sized rxq start) (Ends rxq start) (λ _. Good rxq start) (rx_loop env n rxq first)
      (finish dev q) (rx_loop-Ends rxq start env n first lt) (λ o. finish-Good dev q start o lt) w
      w' r (λ i. (num i, start)) h
