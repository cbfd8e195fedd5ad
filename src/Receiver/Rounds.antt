-- ===== src/Receiver/Rounds.antt =====
-- recv/recv.c: the loop of the receiving program.
use mathlib.Core.Path.{subst}
use ixgbe82599_driver.Base.{
  ℕ, zero, suc, ◌+◌, ◌-◌, ◌%◌, ◌^◌, ◌≡◌, refl, sym, ap, ◌∙◌, List, [], ◌∷◌, Option, none, some,
  arith, drop, some-bind, pure, ltb, if◌then◌else◌,
}
use ixgbe82599_driver.World.{Event, Env, World, clock_gettime}
use ixgbe82599_driver.Clock
use ixgbe82599_driver.Clock.{one_second}
use ixgbe82599_driver.Mmio.{sleep_us}
use ixgbe82599_driver.Mmio.Talks.{
  Talks, Talks-bind, Talks-pure, Talks-sleep_us, Talks-emit, Talks-if,
}
use ixgbe82599_driver.Init.Steps.{Talks-read_counters}
use ixgbe82599_driver.Stats.{Stats, read_counters, read_stats, add_reading}
use ixgbe82599_driver.Pool.Stack.{stack}
use ixgbe82599_driver.Base.Countdown.{down_from}
use ixgbe82599_driver.Pool.Alloc.{taken}
use ixgbe82599_driver.Pool.Valid.{IsValid}
use ixgbe82599_driver.Rx.{Device, rx_batch, queue_at}
use ixgbe82599_driver.Rx.Batch.{rx_batch-IsValid}
use ixgbe82599_driver.Rx.FourEntries.{rx_batch-four}
use ixgbe82599_driver.RxStart.{do_ixgbe}
use ixgbe82599_driver.RxStart.Ready.{Receiving, Receiving-Talks, Allocates}
use ixgbe82599_driver.RxStart.One.{Receives, do_ixgbe-Receives}
use ixgbe82599_driver.Receiver.{receive_rounds, main, batch_size, zero_stats}

drop_nil {ℓ} : {A : Type ℓ} (k : ℕ) → drop {A = A} k [] ≡ []
drop_nil zero = refl
drop_nil (suc k) = refl

drop-drop {ℓ} : {A : Type ℓ} (k j : ℕ) (xs : List A) → drop j (drop k xs) ≡ drop (k + j) xs
drop-drop zero j xs = ap (λ n. drop n xs) {y = 0 + j} (omega arith)
drop-drop (suc k) j [] = drop_nil j ∙ sym (drop_nil (suc k + j))
drop-drop (suc k) j (x ∷ xs) =
    drop-drop k j xs ∙ ap (λ n. drop n (x ∷ xs)) {x = suc (k + j)} {y = suc k + j} (omega arith)

module _ (env : Env) where
  -- What the loop asks rx_batch for keeps the queue.
  rx_batch-Receiving :
      (dev : Device) (q num_buf r : ℕ) (bufs bufs' : List ℕ) (w w' : World)
      → Receiving (queue_at dev.rx_queues q) w
      → rx_batch env dev q bufs num_buf w ≡ some ((r, bufs'), w')
      → Receiving (queue_at dev.rx_queues q) w'
  rx_batch-Receiving dev q num_buf r bufs bufs' w w' g e =
      let (k, le, valid, own, rest) =
        rx_batch-IsValid env dev q num_buf r 4096 bufs bufs' g.pool w w' g.valid e in
      let (size, first) =
        rx_batch-four env dev q num_buf bufs (r, bufs') w w' g.size g.first_four e in
      record {
        pool = taken k g.pool;
        valid = subst (λ p. IsValid 4096 p (taken k g.pool) w') (sym own) valid;
        size = size;
        first_four = first;
        out = g.out + k;
        whole_ring = omega (arith, g.whole_ring);
        rest = rest ∙ (ap (drop k) {x = stack g.pool} g.rest ∙ drop-drop g.out k (down_from 4096));
      }

  Talks-monotonic_time : Talks (Clock.monotonic_time env)
  unfolding Clock.monotonic_time
  Talks-monotonic_time w w' t e = Talks-emit (Event.call clock_gettime (some 0)) w w' tt (cc e)

  Talks-read_stats : (addr : ℕ) (s : Option Stats) → Talks (read_stats env addr s)
  unfolding read_stats
  Talks-read_stats addr none =
      Talks-bind (read_counters env addr) _ (Talks-read_counters env addr) λ _. Talks-pure none
  Talks-read_stats addr (some s) =
      Talks-bind (read_counters env addr) _ (Talks-read_counters env addr)
        λ r. Talks-pure (some (add_reading r s))

  -- If the first receive queue has 1012 entries, an index among the first four, and a valid pool of
  -- 4096 buffers of which only the rest of the new stack is free, with at least the 1012 of the
  -- ring out, then it has so after any number of rounds of main's loop, the ones included in which
  -- no packet came or the pool ran out of buffers.
  pub receive_rounds-Receiving :
      (rounds : ℕ) (dev : Device) (prev_time : ℕ) (buf : List ℕ) (stats : Option Stats)
      (w w' : World) (r : List ℕ × Option Stats)
      → Receiving (queue_at dev.rx_queues 0) w
      → receive_rounds env rounds dev prev_time buf stats w ≡ some (r, w')
      → Receiving (queue_at dev.rx_queues 0) w'
  unfolding receive_rounds
  receive_rounds-Receiving zero dev prev_time buf stats w w' r g e =
      let end : w ≡ w' = cc e in subst (Receiving (queue_at dev.rx_queues 0)) end g
  receive_rounds-Receiving (suc rounds) dev prev_time buf stats w w' r g e =
      let rxq = queue_at dev.rx_queues 0 in
      let (_, w1, slept, rest) = some-bind (sleep_us 1000000) _ w w' r e in
      let g1 = Receiving-Talks rxq (sleep_us 1000000) w w1 tt (Talks-sleep_us 1000000) slept g in
      let ((num_rx, buf'), w2, took, rest) =
        some-bind (rx_batch env dev 0 buf batch_size) _ w1 w' r rest in
      let g2 = rx_batch-Receiving dev 0 batch_size num_rx buf buf' w1 w2 g1 took in
      let (now_time, w3, looked, rest) = some-bind (Clock.monotonic_time env) _ w2 w' r rest in
      let g3 =
        Receiving-Talks rxq (Clock.monotonic_time env) w2 w3 now_time Talks-monotonic_time looked
          g2 in
      let count =
        if ltb one_second ((now_time + 2 ^ 64 - prev_time) % 2 ^ 64)
        then read_stats env dev.addr stats
        else pure stats in
      let (stats', w4, counted, rest) = some-bind count _ w3 w' r rest in
      let g4 =
        Receiving-Talks rxq count w3 w4 stats'
          (Talks-if (ltb one_second ((now_time + 2 ^ 64 - prev_time) % 2 ^ 64))
            (read_stats env dev.addr stats) (pure stats) (Talks-read_stats dev.addr stats)
            (Talks-pure stats))
          counted g3 in
      receive_rounds-Receiving rounds dev prev_time buf' stats' w4 w' r g4 rest

-- If malloc gives addresses of 64 bits and leaves 2048 in the place of buf_size, then after any
-- number of rounds of its loop, the device of the receiver's main has one receive queue, of 1012
-- entries, whose index is one of the first four. The queue has a valid pool of 4096 buffers, of
-- which at least those of the ring are out: the free ones are what is left of the new stack, since
-- no buffer is ever given back.
pub main-Receives :
    (env : Env) (fuel rounds : ℕ) (name pci_addr buf : List ℕ) (r : Option (List ℕ × Option Stats))
    (w w' : World)
    → Allocates env
    → main env fuel rounds (name ∷ pci_addr ∷ []) buf w ≡ some (r, w')
    → (dev : Device) × (w1 w2 : World) × (do_ixgbe env fuel pci_addr 1 1 w1 ≡ some (dev, w2))
      × Receives dev w'
unfolding main
main-Receives env fuel rounds name pci_addr buf r w w' mem e =
    let (prev_time, w1, looked, rest) = some-bind (Clock.monotonic_time env) _ w w' r e in
    let (dev, w2, up, rest) = some-bind (do_ixgbe env fuel pci_addr 1 1) _ w1 w' r rest in
    let (end, w3, run, last) =
      some-bind (receive_rounds env rounds dev prev_time buf (some zero_stats)) (λ x. pure (some x))
        w2 w' r rest in
    let ready = do_ixgbe-Receives env mem fuel pci_addr 1 dev w1 w2 up in
    let same : w3 ≡ w' = cc last in
    (
      dev,
      w1,
      w2,
      up,
      (
        ready.0,
        subst (Receiving (queue_at dev.rx_queues 0)) same (
            receive_rounds-Receiving env rounds dev prev_time buf (some zero_stats) w2 w3 end
              ready.1 run),
      ),
    )
