-- ===== src/Safety/Transmit.antt =====
-- The accesses of transmit on a queue with a ring of 512 entries.
use mathlib.Core.Path.{subst}
use ixgbe82599_driver.Base.{
  ℕ, zero, suc, ◌+◌, ◌*◌, ◌%◌, ◌^◌, ◌≤◌, ◌<◌, ◌≡◌, inl, inr, refl, ◌∙◌, List, Bool, true, false,
  Option, none, some, arith, pure, lift, modify, ◌>>=◌, ◌>>◌, some-bind, bit_and, bit_or, ltb, ◌==◌,
  if◌then◌else◌, get_elem?,
}
use ixgbe82599_driver.Base.Keeps.{Keeps}
use ixgbe82599_driver.Ixgbe.Flags
use ixgbe82599_driver.Ixgbe.Registers.{tdt}
use ixgbe82599_driver.World.{Event, Env, PktBuf, World, Run, Trace, emit}
use ixgbe82599_driver.Mmio.{set_reg32}
use ixgbe82599_driver.Pool.{pkt_buf_free}
use ixgbe82599_driver.Dma.{offsetof_data}
use ixgbe82599_driver.TxQueue.{
  Device, queue_at, descriptors, num_entries, clean_index, tx_index, set_tx_index,
  set_virtual_address,
}
use ixgbe82599_driver.TxQueue.Layout.{set_virtual_address-header, set_tx_index-header}
use ixgbe82599_driver.Tx.{
  wrap_ring, cleanable, cleanup_end, clean_batch, load_status, free_batch, clean_loop, tx_clean,
  post, transmit_loop, transmit, descriptor_at, offsetof_olinfo_status, offsetof_cmd_type_len,
  dcmd_dtype_flags,
}
use ixgbe82599_driver.Tx.Ring.{IsRing, wrap_ring-mod}
use ixgbe82599_driver.Tx.Kept.{free_batch-Keeps, queues_of, free-queues}
use ixgbe82599_driver.Safety.{Mapped, Mapped-part, AllSafe, Safe}

-- A queue with a mapped ring of 512 entries, and indices in its range.
pub record Sendable (addr txq ring : ℕ) (w : World) : Type 0 where
  pub safe : AllSafe addr w.trace
  pub mapped : Mapped ring 8192 w.trace
  pub ring_at : descriptors txq w.queues ≡ ring
  pub size : num_entries txq w.queues ≡ 512
  pub tail : tx_index txq w.queues < 512
  pub clean : clean_index txq w.queues < 512

IsRing-512 : IsRing 9 512
IsRing-512 = record { size = refl; small = omega arith; some_entries = omega arith }

wrap_ring-lt_512 : (i num : ℕ) → num ≡ 512 → wrap_ring i num < 512
wrap_ring-lt_512 i num e = rw (e, wrap_ring-mod 9 512 i IsRing-512) (omega arith)

abbrev pub trace_of : World → Trace
trace_of w = w.trace

pub free-trace : (buf : ℕ) → Keeps trace_of (pkt_buf_free buf)
unfolding pkt_buf_free
free-trace buf w w' a h = ground arith

module _ (addr txq ring : ℕ) where
  -- A run that returns keeps the queue so.
  abbrev pub Keeping : {A : Type 0} → Run A → Type 0
  Keeping {A} m =
      (w w' : World) (a : A)
      → Sendable addr txq ring w
      → m w ≡ some (a, w')
      → Sendable addr txq ring w'

  pub Keeping-bind :
      {A B : Type 0} (m : Run A) (k : A → Run B)
      → Keeping m
      → ((a : A) → Keeping (k a))
      → Keeping (m >>= k)
  Keeping-bind m k hm hk w w' b g e =
      let (a, u, first, rest) = some-bind m k w w' b e in hk a u w' b (hm w u a g first) rest

  Keeping-if :
      {A : Type 0} (b : Bool) (m n : Run A) → Keeping m → Keeping n → Keeping (if b then m else n)
  Keeping-if true m n h k = h
  Keeping-if false m n h k = k

  pub Keeping-pure : {A : Type 0} (a : A) → Keeping (pure a)
  Keeping-pure a w w' b g e = let end : w ≡ w' = cc e in subst (Sendable addr txq ring) end g

  Keeping-lift : {A : Type 0} (o : Option A) → Keeping (lift o)
  Keeping-lift none w w' a g e = absurd (cc e)
  Keeping-lift (some a) w w' b g e = let end : w ≡ w' = cc e in subst (Sendable addr txq ring) end g

  Keeping-modify :
      (f : World → World)
      → ((w : World) → Sendable addr txq ring w → Sendable addr txq ring (f w))
      → Keeping (modify f)
  Keeping-modify f h w w' a g e =
      let end : f w ≡ w' = cc e in subst (Sendable addr txq ring) end (h w g)

  -- What changes neither the trace nor the queues.
  pub Sendable-same :
      (w w' : World)
      → w'.trace ≡ w.trace
      → w'.queues ≡ w.queues
      → Sendable addr txq ring w
      → Sendable addr txq ring w'
  Sendable-same w w' t q g = record {
    safe = rw t g.safe;
    mapped = rw t g.mapped;
    ring_at = rw q g.ring_at;
    size = rw q g.size;
    tail = rw q g.tail;
    clean = rw q g.clean;
  }

  Keeping-emit :
      (e : Event) → ((t : Trace) → Mapped ring 8192 t → Safe addr e t) → Keeping (modify (emit e))
  Keeping-emit e safe = Keeping-modify (emit e) λ w g. record {
    safe = (safe w.trace g.mapped, g.safe);
    mapped = inr g.mapped;
    ring_at = g.ring_at;
    size = g.size;
    tail = g.tail;
    clean = g.clean;
  }

  Keeping-set_virtual_address :
      (i p : ℕ) → Keeping (modify (λ u. record u { queues = set_virtual_address txq i p u.queues }))
  Keeping-set_virtual_address i p = Keeping-modify _ λ w g.
      let (h, tail) = set_virtual_address-header txq w.queues i p in
      record {
        safe = g.safe;
        mapped = g.mapped;
        ring_at = h.descriptors ∙ g.ring_at;
        size = h.num_entries ∙ g.size;
        tail = omega (arith, tail, g.tail);
        clean = omega (arith, h.clean_index, g.clean);
      }

  Keeping-set_tx_index :
      (i : ℕ) → i < 512 → Keeping (modify (λ u. record u { queues = set_tx_index txq i u.queues }))
  Keeping-set_tx_index i lt = Keeping-modify _ λ w g.
      let (h, tail) = set_tx_index-header txq w.queues i (omega arith) in
      record {
        safe = g.safe;
        mapped = g.mapped;
        ring_at = h.descriptors ∙ g.ring_at;
        size = h.num_entries ∙ g.size;
        tail = omega (arith, tail);
        clean = omega (arith, h.clean_index, g.clean);
      }

  -- Word o of descriptor i.
  in_ring :
      (i o n : ℕ)
      → i < 512
      → o + n ≤ 16
      → (d : ℕ) → d ≡ ring
      → (t : Trace) → Mapped ring 8192 t
      → Mapped (d + i * 16 + o) n t
  in_ring i o n lt le d e t h =
      Mapped-part ring 8192 (d + i * 16 + o) n t h (omega arith) (omega arith)

  Keeping-load_status :
      (env : Env) (d i : ℕ) → d ≡ ring → i < 512 → Keeping (load_status env (descriptor_at d i))
  unfolding load_status
  Keeping-load_status env d i e lt w w' a g r =
      let x = descriptor_at d i + offsetof_olinfo_status in
      let seen = Event.load32 x (env.read w.trace x % 2 ^ 32) in
      Keeping-emit seen (λ t h. inr (in_ring i 12 4 lt (omega arith) d e t h)) w w' tt g (cc r)

  Keeping-free_batch : (fuel num to c : ℕ) → Keeping (free_batch fuel txq num to c)
  Keeping-free_batch fuel num to c w w' a g e =
      Sendable-same w w' (free_batch-Keeps trace_of free-trace fuel txq num to c w w' a e)
        (free_batch-Keeps queues_of free-queues fuel txq num to c w w' a e) g

  Keeping-clean_loop :
      (env : Env) (d num : ℕ)
      → d ≡ ring
      → num ≡ 512
      → (fuel tx c : ℕ) → c < 512
      → Keeping (clean_loop env fuel txq d num tx c)
  unfolding clean_loop
  Keeping-clean_loop env d num at size zero tx c lt w w' a g e = absurd (cc e)
  Keeping-clean_loop env d num at size (suc fuel) tx c lt w w' a g e =
      let to = cleanup_end c num in
      let below : to < 512 = ground (arith, size, lt) in
      Keeping-if (ltb (cleanable tx c num) clean_batch) (pure c) _ (Keeping-pure c)
        (Keeping-bind (load_status env (descriptor_at d to)) _
          (Keeping-load_status env d to at below)
          (λ status.
            Keeping-if (bit_and status Flags.advtxd_stat_dd == 0) (pure c) _ (Keeping-pure c) (
              Keeping-bind (free_batch (2 ^ 16) txq num to c) _
                (Keeping-free_batch (2 ^ 16) num to c)
                (λ _.
                  Keeping-clean_loop env d num at size fuel tx (wrap_ring to num)
                    (wrap_ring-lt_512 to num size)))))
        w w' a g e

  Keeping-tx_clean : (env : Env) → Keeping (tx_clean env txq)
  unfolding tx_clean
  Keeping-tx_clean env w w' a g e =
      let q = w.queues in
      Keeping-bind
        (clean_loop env (2 ^ 16) txq (descriptors txq q) (num_entries txq q) (tx_index txq q)
          (clean_index txq q))
        _
        (Keeping-clean_loop env (descriptors txq q) (num_entries txq q) g.ring_at g.size (2 ^ 16)
          (tx_index txq q) (clean_index txq q) g.clean)
        (λ c.
          Keeping-modify (λ u. record u { clean_index = c })
            (λ u h. Sendable-same u (record u { clean_index = c }) refl refl h))
        w w' a g e

  -- The three stores to descriptor tx.
  abbrev store_address : (d tx : ℕ) → PktBuf → Event
  store_address d tx b =
      Event.store64 (descriptor_at d tx) ((b.buf_addr_phy + offsetof_data) % 2 ^ 64)

  abbrev store_type : (d tx : ℕ) → PktBuf → Event
  store_type d tx b =
      Event.store32 (descriptor_at d tx + offsetof_cmd_type_len) (bit_or dcmd_dtype_flags b.size)

  abbrev store_length : (d tx : ℕ) → PktBuf → Event
  store_length d tx b =
      Event.store32 (descriptor_at d tx + offsetof_olinfo_status)
        (b.size * 2 ^ Flags.advtxd_paylen_shift % 2 ^ 32)

  abbrev describe : (d tx : ℕ) → PktBuf → Run (Unit {0})
  describe d tx b = do
    modify (emit (store_address d tx b))
    modify (emit (store_type d tx b))
    modify (emit (store_length d tx b))

  Keeping-describe : (d tx : ℕ) (b : PktBuf) → d ≡ ring → tx < 512 → Keeping (describe d tx b)
  Keeping-describe d tx b e lt =
      Keeping-bind (modify (emit (store_address d tx b))) _
        (Keeping-emit (store_address d tx b)
          (λ t h. Mapped-part ring 8192 (descriptor_at d tx) 8 t h (omega arith) (omega arith)))
        λ _.
          Keeping-bind (modify (emit (store_type d tx b))) _
            (Keeping-emit (store_type d tx b)
              (λ t h. inr (in_ring tx 8 4 lt (omega arith) d e t h)))
            λ _.
              Keeping-emit (store_length d tx b)
                (λ t h. inr (in_ring tx 12 4 lt (omega arith) d e t h))

  Keeping-post : (tx next buf : ℕ) → tx < 512 → next < 512 → Keeping (post txq tx next buf)
  unfolding post
  Keeping-post tx next buf lt lt' =
      Keeping-bind (modify (λ u. record u { queues = set_virtual_address txq tx buf u.queues })) _
        (Keeping-set_virtual_address tx buf)
        λ _ u u' a g e.
          let d = descriptors txq u.queues in
          Keeping-bind (modify (λ v. record v { queues = set_tx_index txq next v.queues })) _
            (Keeping-set_tx_index next lt')
            (λ _.
              Keeping-bind (lift (u.bufs buf)) (describe d tx) (Keeping-lift (u.bufs buf))
                (λ b. Keeping-describe d tx b g.ring_at lt))
            u u' a g e

  Keeping-transmit_loop :
      (rounds sent : ℕ) (bufs : List ℕ) → Keeping (transmit_loop rounds sent txq bufs)
  unfolding transmit_loop
  Keeping-transmit_loop zero sent bufs = Keeping-pure tt
  Keeping-transmit_loop (suc rounds) sent bufs = λ w w' a g e.
      let tx = tx_index txq w.queues in
      let num = num_entries txq w.queues in
      let next = wrap_ring tx num in
      Keeping-if (tx == next) (pure tt) _ (Keeping-pure tt)
        (Keeping-bind (lift (get_elem? bufs sent)) _ (Keeping-lift (get_elem? bufs sent)) (λ buf.
          Keeping-bind (post txq tx next buf) _
            (Keeping-post tx next buf g.tail (wrap_ring-lt_512 tx num g.size))
            (λ _. Keeping-transmit_loop rounds (sent + 1) bufs)))
        w w' a g e

-- transmit on a queue of which the number fits the device's registers.
pub Keeping-transmit :
    (env : Env) (dev : Device) (queue_id num_bufs : ℕ) (bufs : List ℕ) (ring : ℕ)
    → queue_id < 128
    → Keeping dev.addr
        (queue_at dev.tx_queues queue_id)
        ring
        (transmit env dev queue_id bufs num_bufs)
unfolding transmit set_reg32
Keeping-transmit env dev queue_id num_bufs bufs ring lt =
    let txq = queue_at dev.tx_queues queue_id in
    Keeping-bind dev.addr txq ring (tx_clean env txq) _ (Keeping-tx_clean dev.addr txq ring env)
      λ _.
        Keeping-bind dev.addr txq ring (transmit_loop num_bufs 0 txq bufs) _
          (Keeping-transmit_loop dev.addr txq ring num_bufs 0 bufs)
          λ _ w w' a g e.
            let tail = Event.store32 (dev.addr + tdt queue_id) (tx_index txq w.queues % 2 ^ 32) in
            Keeping-emit dev.addr txq ring tail (λ t h. inl (omega arith)) w w' a g e
