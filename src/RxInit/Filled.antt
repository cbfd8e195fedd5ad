-- ===== src/RxInit/Filled.antt =====
-- start_rx_queue of recv/init.c: the buffers that it puts on the ring.
use mathlib.Core.Path.{subst}
use ixgbe82599_driver.Base.{
  get_or, ℕ, zero, suc, ◌+◌, ◌-◌, ◌%◌, ◌^◌, ◌≤◌, ◌<◌, ◌≡◌, refl, sym, ap, ◌∙◌, List, [], ◌∷◌, some,
  arith, take, map, update, ◌>>=◌,
}
use ixgbe82599_driver.Base.Memory.{Memory, load-store-Apart}
use ixgbe82599_driver.World.{Event, PktBuf, Mempool, World, Trace}
use ixgbe82599_driver.Dma.{offsetof_data}
use ixgbe82599_driver.Pool.{buf_at}
use ixgbe82599_driver.Pool.Stack.{stack, stack_of}
use ixgbe82599_driver.Pool.Alloc.{taken, taken-zero, taken-taken}
use ixgbe82599_driver.Pool.Valid.{IsValid, taken-IsValid, alloc_pkt_buf-IsValid}
use ixgbe82599_driver.Rx.{
  descriptor_at, offsetof_hdr_addr, descriptors, mempool, num_entries, rx_index,
  set_virtual_address,
}
use ixgbe82599_driver.RxInit.{fill_rx_ring}

-- The stores that give the device a buffer, the newest first: a cleared status, and the address of its data.
abbrev pub offered : (rxd : ℕ) → PktBuf → Trace → Trace
offered rxd b t =
    Event.store64 (rxd + offsetof_hdr_addr) 0
    ∷ Event.store64 rxd ((b.buf_addr_phy + offsetof_data) % 2 ^ 64)
    ∷ t

-- Buffers of the pool from entry i on: each is taken from the pool, offered in its descriptor and
-- recorded in virtual_address.
pub Offered : (rxq ring pool i : ℕ) → Mempool → List ℕ → World → World → Type 0
Offered rxq ring pool i m [] w w' = w' ≡ w
Offered rxq ring pool i m (buf ∷ bufs) w w' =
    (b : PktBuf) × (w.bufs buf ≡ some b)
    × Offered rxq ring pool (i + 1) (taken 1 m) bufs
        (record w {
          pools = update w.pools pool (some (taken 1 m));
          trace = offered (descriptor_at ring i) b w.trace;
          queues = set_virtual_address rxq i buf w.queues;
        })
        w'

-- The header of a queue.
pub record Header (rxq ring pool num index : ℕ) (m : Memory) : Type 0 where
  pub ring_at : descriptors rxq m ≡ ring
  pub pool_at : mempool rxq m ≡ pool
  pub size : num_entries rxq m ≡ num
  pub next : rx_index rxq m ≡ index

set_virtual_address-Header :
    {rxq ring pool num index : ℕ} (i p : ℕ) (m : Memory)
    → Header rxq ring pool num index m
    → Header rxq ring pool num index (set_virtual_address rxq i p m)
unfolding set_virtual_address descriptors mempool num_entries rx_index
set_virtual_address-Header i p m h = record {
  ring_at = load-store-Apart 8 8 _ p _ m (omega arith) ∙ h.ring_at;
  pool_at = load-store-Apart 8 8 _ p _ m (omega arith) ∙ h.pool_at;
  size = load-store-Apart 2 8 _ p _ m (omega arith) ∙ h.size;
  next = load-store-Apart 2 8 _ p _ m (omega arith) ∙ h.next;
}

module _ (n rxq ring pool num index : ℕ) where
  -- The world after one round.
  abbrev filled : (i buf : ℕ) → PktBuf → Mempool → World → World
  filled i buf b m w = record w {
    pools = update w.pools pool (some (taken 1 m));
    trace = offered (descriptor_at ring i) b w.trace;
    queues = set_virtual_address rxq i buf w.queues;
  }

  -- One round takes the top of the stack.
  fill_step :
      (rounds i x : ℕ) (rest : List ℕ) (m : Mempool) (w : World)
      → (v : IsValid n pool m w) → Header rxq ring pool num index w.queues
      → stack m ≡ x ∷ rest
      → 0 < m.free_stack_top
      → (b : PktBuf) × (w.bufs (buf_at m x) ≡ some b)
        × (fill_rx_ring (suc rounds) i rxq w
            ≡ fill_rx_ring rounds (i + 1) rxq (filled i (buf_at m x) b m w))
        × (stack (taken 1 m) ≡ rest)
        × IsValid n pool (taken 1 m) (filled i (buf_at m x) b m w)
  unfolding fill_rx_ring
  fill_step rounds i x rest m w v h e some_free =
      let (alloc, left, lt, not_left) = alloc_pkt_buf-IsValid x rest v e some_free in
      let (b, at, own, idx) = v.header x lt in
      let t = taken-IsValid v 1 in
      (
        b,
        at,
        rw (h.pool_at, alloc, ◌>>=◌) (rw (at, h.ring_at) refl),
        left,
        record {
          here = t.here;
          array = t.array;
          small = t.small;
          top_le = t.top_le;
          below = t.below;
          distinct = t.distinct;
          header = t.header;
        },
      )

  pub fill_rx_ring-Offered :
      (rounds i : ℕ) (m : Mempool) (w : World)
      → IsValid n pool m w
      → Header rxq ring pool num index w.queues
      → rounds ≤ m.free_stack_top
      → (w' : World) × (fill_rx_ring rounds i rxq w ≡ some (tt, w'))
        × Offered rxq ring pool i m (map (buf_at m) (take rounds (stack m))) w w'
        × IsValid n pool (taken rounds m) w'
        × Header rxq ring pool num index w'.queues
  unfolding Offered fill_rx_ring
  fill_rx_ring-Offered zero i m w v h enough =
      (w, refl, refl, subst (λ p. IsValid n pool p w) (sym (taken-zero m)) v, h)
  fill_rx_ring-Offered (suc rounds) i m w v h enough =
      let top = m.free_stack_top - 1 in
      let x = get_or m.free_stack top 0 in
      let rest = stack_of m.free_stack top in
      let split : stack m ≡ x ∷ rest = ap (stack_of m.free_stack) {y = suc top} (omega arith) in
      let (b, at, step, left, v1) = fill_step rounds i x rest m w v h split (omega arith) in
      let (w', run, done, valid, header) =
        fill_rx_ring-Offered rounds (i + 1) (taken 1 m) (filled i (buf_at m x) b m w) v1
          (set_virtual_address-Header i (buf_at m x) w.queues h) (omega arith) in
      let more : Offered rxq ring pool (i + 1) (taken 1 m) (map (buf_at m) (take rounds rest))
          (filled i (buf_at m x) b m w) w' =
        subst
          (λ l.
            Offered rxq ring pool (i + 1) (taken 1 m) (map (buf_at m) (take rounds l))
              (filled i (buf_at m x) b m w) w')
          left done in
      (
        w',
        step ∙ run,
        rw split (b, at, more),
        subst (λ p. IsValid n pool p w')
            (taken-taken 1 rounds m ∙ ap (λ k. taken k m) {y = suc rounds} (omega arith)) valid,
        header,
      )
