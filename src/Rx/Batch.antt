-- ===== src/Rx/Batch.antt =====
-- rx_batch and its pool: the buffers that it puts on the ring are taken from the pool.
use ixgbe82599_driver.Base.{
  ℕ, zero, suc, ◌+◌, ◌%◌, ◌^◌, ◌≤◌, ◌≡◌, refl, List, some, arith, pure, get, lift, modify, ◌>>=◌,
  ◌>>◌, if◌then◌else◌, ◌==◌, set?, drop, bit_and,
}
use ixgbe82599_driver.Base.Memory.{load-store-Apart}
use ixgbe82599_driver.Ixgbe.Flags
use ixgbe82599_driver.World.{Event, Env, Mempool, World, Run, emit}
use ixgbe82599_driver.Recv.Pool.{alloc_pkt_buf}
use ixgbe82599_driver.Pool.{null}
use ixgbe82599_driver.Pool.Alloc.{taken}
use ixgbe82599_driver.Pool.Valid.{IsValid}
use ixgbe82599_driver.Dma.{offsetof_data}
use ixgbe82599_driver.Tx.{wrap_ring}
use ixgbe82599_driver.Rx.{
  mempool, descriptors, virtual_address, set_virtual_address, descriptor_at, num_entries, set_size,
  Taking, Outcome, taking, exhausted, offsetof_hdr_addr, go_on, load_status_error, load_length,
  take_one, rx_loop, finish, rx_batch, set_rx_index, queue_at, rx_index, minus_one, Device,
}
use ixgbe82599_driver.Mmio.{set_reg32}
use ixgbe82599_driver.Ixgbe.Registers.{rdt}
use ixgbe82599_driver.Pool.Stack.{stack, stack_of-drop}
use ixgbe82599_driver.Rx.Refill.{
  Takes, Takes-bind, Takes-more, Takes-then, Takes-pure, Takes-lift, Takes-if, Takes-emit,
  Takes-modify, Takes-set_virtual_address, Takes-alloc_pkt_buf, Takes-set_size,
}

module _ (n pool rxq : ℕ) where
  Takes-set_reg32 : (addr reg value : ℕ) → Takes n pool rxq 0 (set_reg32 addr reg value)
  unfolding set_reg32
  Takes-set_reg32 addr reg value = Takes-emit n pool rxq _

  Takes-set_rx_index :
      (i : ℕ) → Takes n pool rxq 0 (modify (λ u. record u { queues = set_rx_index rxq i u.queues }))
  unfolding set_rx_index mempool
  Takes-set_rx_index i = Takes-modify n pool rxq _ λ w. record {
    pools = refl;
    bufs = refl;
    own = load-store-Apart 8 2 _ (i % 2 ^ 16) _ w.queues (omega arith);
  }

module _ (env : Env) (n pool rxq : ℕ) where
  Takes-load_status_error : (rxd : ℕ) → Takes n pool rxq 0 (load_status_error env rxd)
  unfolding load_status_error
  Takes-load_status_error rxd m w w' a g e =
      let seen = Event.load32 (rxd + 8) (env.read w.trace (rxd + 8) % 2 ^ 32) in
      Takes-emit n pool rxq seen m w w' tt g (cc e)

  Takes-load_length : (rxd : ℕ) → Takes n pool rxq 0 (load_length env rxd)
  unfolding load_length
  Takes-load_length rxd m w w' a g e =
      let seen = Event.load16 (rxd + 12) (env.read w.trace (rxd + 12) % 2 ^ 16) in
      Takes-emit n pool rxq seen m w w' tt g (cc e)

  abbrev T : {A : Type 0} → ℕ → Run A → Type 0
  T most run = Takes n pool rxq most run

  -- What take_one does with a new buffer.
  abbrev put_on_ring : (rxd p_buf buf : ℕ) → Taking → Run Outcome
  put_on_ring rxd p_buf buf t = do
    v ← get
    p ← lift (v.bufs p_buf)
    modify (emit (Event.store64 rxd ((p.buf_addr_phy + offsetof_data) % 2 ^ 64)))
    modify (emit (Event.store64 (rxd + offsetof_hdr_addr) 0))
    modify (λ u. record u { queues = set_virtual_address rxq t.rx_index p_buf u.queues })
    bufs' ← lift (set? t.bufs t.i buf)
    u ← get
    pure (
        taking (record {
          i = t.i + 1;
          rx_index = wrap_ring t.rx_index (num_entries rxq u.queues);
          prev_rx_index = t.rx_index;
          bufs = bufs';
        }))

  -- Its end.
  abbrev next_round : Taking → List ℕ → World → Run Outcome
  next_round t bufs' u = pure (
      taking (record {
        i = t.i + 1;
        rx_index = wrap_ring t.rx_index (num_entries rxq u.queues);
        prev_rx_index = t.rx_index;
        bufs = bufs';
      }))

  Takes-next_round : (t : Taking) (bufs' : List ℕ) → T 0 (get >>= next_round t bufs')
  Takes-next_round t bufs' m w w' a g e = Takes-pure n pool rxq _ m w w' a g e

  Takes-put_on_ring : (rxd p_buf buf : ℕ) (t : Taking) → T 0 (put_on_ring rxd p_buf buf t)
  Takes-put_on_ring rxd p_buf buf t m w w' a g e =
      Takes-then n pool rxq 0 (lift (w.bufs p_buf)) _ (Takes-lift n pool rxq (w.bufs p_buf))
        (λ p.
          Takes-then n pool rxq 0
            (modify (emit (Event.store64 rxd ((p.buf_addr_phy + offsetof_data) % 2 ^ 64)))) _
            (Takes-emit n pool rxq _)
            (λ _.
              Takes-then n pool rxq 0 (modify (emit (Event.store64 (rxd + offsetof_hdr_addr) 0))) _
                (Takes-emit n pool rxq _)
                (λ _.
                  Takes-then n pool rxq 0
                    (modify (λ u. record u {
                      queues = set_virtual_address rxq t.rx_index p_buf u.queues;
                    }))
                    _ (Takes-set_virtual_address n pool rxq t.rx_index p_buf)
                    (λ _.
                      Takes-then n pool rxq 0 (lift (set? t.bufs t.i buf)) _
                        (Takes-lift n pool rxq (set? t.bufs t.i buf)) (Takes-next_round t)))))
        m w w' a g e

  -- What take_one does once it has asked for a new buffer.
  abbrev with_buffer : (rxd buf : ℕ) → Taking → (p_buf : ℕ) → Run Outcome
  with_buffer rxd buf t p_buf =
      if p_buf == null then pure (exhausted t.bufs) else put_on_ring rxd p_buf buf t

  Takes-take_one : (t : Taking) → T 1 (take_one env rxq t)
  unfolding take_one
  Takes-take_one t m w w' a g e =
      let rxd = descriptor_at (descriptors rxq w.queues) t.rx_index in
      let buf = virtual_address rxq t.rx_index w.queues in
      Takes-then n pool rxq 1 (load_length env rxd) _ (Takes-load_length rxd)
        (λ length.
          Takes-then n pool rxq 1 (set_size buf length) _ (Takes-set_size n pool rxq buf length)
            (λ _.
              Takes-bind n pool rxq 1 0 (alloc_pkt_buf (mempool rxq w.queues))
                (with_buffer rxd buf t)
                (Takes-alloc_pkt_buf n pool rxq (mempool rxq w.queues) g.own)
                (λ p_buf.
                  Takes-if n pool rxq 0 (p_buf == null) (pure (exhausted t.bufs))
                    (put_on_ring rxd p_buf buf t) (Takes-pure n pool rxq (exhausted t.bufs))
                    (Takes-put_on_ring rxd p_buf buf t))))
        m w w' a g e

  Takes-go_on :
      (rounds : ℕ) (o : Outcome)
      → ((t : Taking) → T rounds (rx_loop env rounds rxq t))
      → T rounds (go_on (rx_loop env rounds rxq) o)
  Takes-go_on rounds (taking t) h = h t
  Takes-go_on rounds (exhausted bufs) h =
      Takes-more n pool rxq 0 rounds (pure (exhausted bufs)) (omega arith)
        (Takes-pure n pool rxq (exhausted bufs))

  -- What a round does once it has loaded the status.
  abbrev by_status : (rounds : ℕ) → Taking → (status : ℕ) → Run Outcome
  by_status rounds t status =
      if bit_and status Flags.rxdadv_stat_dd == 0
      then rx_loop env rounds rxq (record t { i = t.i + 1 })
      else (take_one env rxq t >>= go_on (rx_loop env rounds rxq))

  Takes-rx_loop : (rounds : ℕ) (t : Taking) → T rounds (rx_loop env rounds rxq t)
  unfolding rx_loop
  Takes-rx_loop zero t = Takes-pure n pool rxq (taking t)
  Takes-rx_loop (suc rounds) t = λ m w w' a g e.
      let rxd = descriptor_at (descriptors rxq w.queues) t.rx_index in
      let took : T (suc rounds) (take_one env rxq t >>= go_on (rx_loop env rounds rxq)) =
        Takes-more n pool rxq (1 + rounds) (suc rounds) _ (omega arith) (
          Takes-bind n pool rxq 1 rounds (take_one env rxq t) (go_on (rx_loop env rounds rxq))
            (Takes-take_one t) (λ o. Takes-go_on rounds o (Takes-rx_loop rounds))) in
      Takes-then n pool rxq (suc rounds) (load_status_error env rxd) (by_status rounds t)
        (Takes-load_status_error rxd)
        (λ status.
          Takes-if n pool rxq (suc rounds) (bit_and status Flags.rxdadv_stat_dd == 0)
            (rx_loop env rounds rxq (record t { i = t.i + 1 }))
            (take_one env rxq t >>= go_on (rx_loop env rounds rxq))
            (Takes-more n pool rxq rounds (suc rounds)
              (rx_loop env rounds rxq (record t { i = t.i + 1 })) (omega arith)
              (Takes-rx_loop rounds (record t { i = t.i + 1 })))
            took)
        m w w' a g e

-- What follows the loop.
Takes-finish :
    (n pool : ℕ) (dev : Device) (queue_id : ℕ) (o : Outcome)
    → Takes n pool (queue_at dev.rx_queues queue_id) 0 (finish dev queue_id o)
unfolding finish
Takes-finish n pool dev queue_id (exhausted bufs) =
    Takes-pure n pool (queue_at dev.rx_queues queue_id) (minus_one, bufs)
Takes-finish n pool dev queue_id (taking t) =
    let rxq = queue_at dev.rx_queues queue_id in
    Takes-if n pool rxq 0 (t.rx_index == t.prev_rx_index) _ _ (Takes-pure n pool rxq (t.i, t.bufs))
      (Takes-then n pool rxq 0 (set_reg32 dev.addr (rdt queue_id) t.prev_rx_index) _
        (Takes-set_reg32 n pool rxq dev.addr (rdt queue_id) t.prev_rx_index)
        (λ _.
          Takes-then n pool rxq 0
            (modify (λ u. record u { queues = set_rx_index rxq t.rx_index u.queues })) _
            (Takes-set_rx_index n pool rxq t.rx_index) (λ _. Takes-pure n pool rxq (t.i, t.bufs))))

-- When rx_batch returns, with or without an error, it has taken at most num_buf buffers from the
-- pool of its queue, from the top of the stack. The pool is valid if it was before, and is still
-- that of the queue.
pub rx_batch-IsValid :
    (env : Env) (dev : Device) (queue_id num_buf r n : ℕ) (bufs bufs' : List ℕ) (m : Mempool)
    (w w' : World)
    → IsValid n (mempool (queue_at dev.rx_queues queue_id) w.queues) m w
    → rx_batch env dev queue_id bufs num_buf w ≡ some ((r, bufs'), w')
    → let pool = mempool (queue_at dev.rx_queues queue_id) w.queues in
      (k : ℕ) × (k ≤ num_buf)
      × IsValid n pool (taken k m) w'
      × (mempool (queue_at dev.rx_queues queue_id) w'.queues ≡ pool)
      × (stack (taken k m) ≡ drop k (stack m))
unfolding rx_batch
rx_batch-IsValid env dev queue_id num_buf r n bufs bufs' m w w' v h =
    let rxq = queue_at dev.rx_queues queue_id in
    let pool = mempool rxq w.queues in
    let start = rx_index rxq w.queues in
    let first : Taking = record { i = 0; rx_index = start; prev_rx_index = start; bufs = bufs } in
    let (k, le, g) =
      Takes-bind n pool rxq num_buf 0 (rx_loop env num_buf rxq first) (finish dev queue_id)
        (Takes-rx_loop env n pool rxq num_buf first) (Takes-finish n pool dev queue_id) m w w'
        (r, bufs') (record { valid = v; own = refl }) h in
    (k, omega arith, g.valid, g.own, stack_of-drop m.free_stack k m.free_stack_top)
