-- ===== src/RxStart/Ready.antt =====
-- recv/init.c: the queue of the device that do_ixgbe returns with one queue.
use mathlib.Core.Path.{subst}
use ixgbe82599_driver.Base.{
  ℕ, ◌+◌, ◌-◌, ◌%◌, ◌^◌, ◌≤◌, ◌<◌, ◌≡◌, refl, sym, ap, ◌∙◌, some, arith, drop, ◌>>=◌, ◌>>◌, get,
}
use ixgbe82599_driver.Base.Countdown.{down_from}
use ixgbe82599_driver.Ixgbe.Flags
use ixgbe82599_driver.Ixgbe.Registers
use ixgbe82599_driver.World.{Env, Mempool, World, Run, Trace}
use ixgbe82599_driver.Mmio.{set_reg32, set_flag32, wait_set_reg32}
use ixgbe82599_driver.Mmio.Talks.{
  Talks, Talks-bind, Talks-set_reg32, Talks-set_flag32, Talks-wait_set_reg32,
}
use ixgbe82599_driver.Dma.{allocate_mempool_mem}
use ixgbe82599_driver.Dma.NewPool.{allocate_mempool_mem-IsValid, pool_address, stale_buf_size}
use ixgbe82599_driver.Dma.Kept.{allocate_mempool_mem-queues}
use ixgbe82599_driver.Pool.Stack.{stack, stack_of-drop}
use ixgbe82599_driver.Pool.Alloc.{taken}
use ixgbe82599_driver.Pool.Valid.{IsValid}
use ixgbe82599_driver.Rx.{Device, queue_at, descriptors, mempool, num_entries, rx_index}
use ixgbe82599_driver.RxInit.{fill_rx_ring, set_mempool, start_rx_queue}
use ixgbe82599_driver.RxInit.Queues.{Started}
use ixgbe82599_driver.RxInit.Filled.{Header}
use ixgbe82599_driver.RxInit.Started.{pooled, pooled-Offered}

-- The queue has 1012 entries, of which only the first four are visited, and a valid pool. From the
-- pool at least 1012 buffers were taken, and none was given back.
pub record Receiving (rxq : ℕ) (w : World) : Type 0 where
  pub pool : Mempool
  pub valid : IsValid 4096 (mempool rxq w.queues) pool w
  pub size : num_entries rxq w.queues ≡ 1012
  pub first_four : rx_index rxq w.queues < 4
  pub out : ℕ
  pub whole_ring : 1012 ≤ out
  pub rest : stack pool ≡ drop out (down_from 4096)

-- A run that only talks to the device keeps it so.
pub Receiving-Talks :
    {A : Type 0} (rxq : ℕ) (m : Run A) (w w' : World) (a : A)
    → Talks m
    → m w ≡ some (a, w')
    → Receiving rxq w
    → Receiving rxq w'
Receiving-Talks rxq m w w' a talks e r = subst (Receiving rxq) (sym (talks w w' a e).1) (record {
  pool = r.pool;
  valid = record {
    here = r.valid.here;
    array = r.valid.array;
    small = r.valid.small;
    top_le = r.valid.top_le;
    below = r.valid.below;
    distinct = r.valid.distinct;
    header = r.valid.header;
  };
  size = r.size;
  first_four = r.first_four;
  out = r.out;
  whole_ring = r.whole_ring;
  rest = r.rest;
})

-- The queue once its ring is filled.
filled-Receiving :
    (rxq ring pool : ℕ) (m : Mempool) (w : World)
    → Header rxq ring pool 1012 0 w.queues
    → IsValid 4096 pool (taken 1012 m) w
    → stack m ≡ down_from 4096
    → Receiving rxq w
filled-Receiving rxq ring pool m w h v full = record {
  pool = taken 1012 m;
  valid = subst (λ p. IsValid 4096 p (taken 1012 m) w) (sym h.pool_at) v;
  size = h.size;
  first_four = omega (arith, h.next);
  out = 1012;
  whole_ring = omega arith;
  rest = stack_of-drop m.free_stack 1012 m.free_stack_top ∙ ap (drop 1012) full;
}

-- What malloc gives, and what it leaves in the memory of a pool of 4096 buffers.
pub record Allocates (env : Env) : Type 0 where
  pub address : (t : Trace) (size : ℕ) → env.malloc t size < 2 ^ 64
  pub lucky : (w : World) → stale_buf_size env w 4096 ≡ 2048

module _ (env : Env) (mem : Allocates env) (fuel : ℕ) (dev : Device) (queue : ℕ) where
  -- start_rx_queue once the ring is filled.
  abbrev last_steps : Run (Unit {0})
  last_steps = do
    set_reg32 dev.addr (Registers.rdh queue) 0
    v ← get
    set_reg32 dev.addr (Registers.rdt queue)
        ((num_entries (queue_at dev.rx_queues queue) v.queues + 2 ^ 32 - 1) % 2 ^ 32)

  abbrev go_live : Run (Unit {0})
  go_live = do
    set_flag32 env dev.addr (Registers.rxdctl queue) Flags.rxdctl_enable
    wait_set_reg32 env fuel dev.addr (Registers.rxdctl queue) Flags.rxdctl_enable
    last_steps

  Talks-go_live : Talks go_live
  Talks-go_live =
      Talks-bind (set_flag32 env dev.addr (Registers.rxdctl queue) Flags.rxdctl_enable) _
        (Talks-set_flag32 env _ _ _)
        λ _.
          Talks-bind (wait_set_reg32 env fuel dev.addr (Registers.rxdctl queue) Flags.rxdctl_enable)
            (λ _. last_steps) (Talks-wait_set_reg32 env fuel _ _ _)
            λ _.
              Talks-bind (set_reg32 dev.addr (Registers.rdh queue) 0) _ (Talks-set_reg32 _ _ _)
                λ _ w w' a e.
                  Talks-set_reg32 dev.addr (Registers.rdt queue)
                    ((num_entries (queue_at dev.rx_queues queue) w.queues + 2 ^ 32 - 1) % 2 ^ 32) w
                    w' a e

  start_rx_queue-until :
      (pool : ℕ) (w w1 w2 : World)
      → let rxq = queue_at dev.rx_queues queue in
        allocate_mempool_mem env 4096 2048 w ≡ some (pool, w1)
        → num_entries rxq (set_mempool rxq pool w1.queues) ≡ 1012
        → fill_rx_ring 1012 0 rxq (pooled rxq pool w1) ≡ some (tt, w2)
        → start_rx_queue env fuel dev queue w ≡ go_live w2
  unfolding start_rx_queue
  start_rx_queue-until pool w w1 w2 made size filled =
      rw (made, ◌>>=◌) (rw (size, filled, ◌>>=◌) refl)

  pub start_rx_queue-Receiving :
      (w w' : World)
      → Started (queue_at dev.rx_queues queue) w.queues
      → start_rx_queue env fuel dev queue w ≡ some (tt, w')
      → Receiving (queue_at dev.rx_queues queue) w'
  start_rx_queue-Receiving w w' started h =
      let rxq = queue_at dev.rx_queues queue in
      let pool = pool_address env w 4096 in
      let (w1, m, made, valid, full) =
        allocate_mempool_mem-IsValid env 4096 2048 w (omega arith) (omega arith) (omega arith)
          (mem.lucky w) in
      let same = allocate_mempool_mem-queues env 4096 2048 w w1 pool made in
      let (w2, run, offered, valid', header, size) =
        pooled-Offered env fuel dev queue pool m w w1 started (mem.address _ _) same valid full in
      Receiving-Talks rxq go_live w2 w' tt Talks-go_live
        (sym (start_rx_queue-until pool w w1 w2 made size run) ∙ h)
        (filled-Receiving rxq (descriptors rxq w.queues) pool m w2 header valid' full)
