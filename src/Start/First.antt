-- ===== src/Start/First.antt =====
-- send/init.c and send/through.c together: the first transmit on a device that start_ixgbe returned.
use mathlib.Core.Path.{subst}
use ixgbe82599_driver.Base.{
  ℕ, suc, true, ltb, modify, ap, bind-some, ◌+◌, ◌%◌, ◌^◌, ◌≤◌, ◌<◌, ◌≡◌, refl, ◌∙◌, List, some,
  arith, length, take,
}
use ixgbe82599_driver.Ixgbe.Registers.{tdt}
use ixgbe82599_driver.World.{Event, Env, World, emit}
use ixgbe82599_driver.TxQueue.{Device, queue_at, descriptors, num_entries, clean_index, tx_index}
use ixgbe82599_driver.Tx.{cleanable, clean_batch, tx_clean, clean_loop, transmit}
use ixgbe82599_driver.Tx.Ring.{IsRing}
use ixgbe82599_driver.Tx.Post.{AllBufs, AllBufs-world, Posted, transmit-posts-all}
use ixgbe82599_driver.Start.{start_ixgbe}
use ixgbe82599_driver.Start.Ready.{start_ixgbe-ready}

-- tx_clean finds nothing to do where nothing was posted.
clean_loop-stops :
    (env : Env) (fuel txq ring num tx clean : ℕ) (w : World)
    → ltb (cleanable tx clean num) clean_batch ≡ true
    → clean_loop env (suc fuel) txq ring num tx clean w ≡ some (clean, w)
unfolding clean_loop
clean_loop-stops env fuel txq ring num tx clean w few = rw few refl

clean_nothing :
    (env : Env) (txq : ℕ) (w : World)
    → tx_index txq w.queues ≡ 0
    → clean_index txq w.queues ≡ 0
    → tx_clean env txq w ≡ some (tt, record w { clean_index = 0 })
unfolding tx_clean
clean_nothing env txq w tail clean =
    let q = w.queues in
    let few : ltb (cleanable (tx_index txq q) (clean_index txq q) (num_entries txq q)) clean_batch
        ≡ true =
      ground (arith, tail, clean) in
    let stop =
      clean_loop-stops env 65535 txq (descriptors txq q) (num_entries txq q) (tx_index txq q)
        (clean_index txq q) w few in
    bind-some
      (clean_loop env (2 ^ 16) txq (descriptors txq q) (num_entries txq q) (tx_index txq q)
        (clean_index txq q))
      (λ c. modify (λ u. record u { clean_index = c })) stop
    ∙ ap (λ c. some (tt, record w { clean_index = c })) clean

-- What transmit has done with the buffers on a ring of `num` entries whose tail was `tx`.
abbrev Sent :
    Env → Device → (q : ℕ) → List ℕ → (num_bufs : ℕ) → (w w1 : World) → (num tx : ℕ) → Type 0
Sent env dev q bufs num_bufs w w1 num tx =
    let txq = queue_at dev.tx_queues q in
    (w2 : World) × (transmit env dev q bufs num_bufs w
      ≡ some (tt, emit (Event.store32 (dev.addr + tdt q) ((tx + num_bufs) % num % 2 ^ 32)) w2))
    × Posted txq (descriptors txq w1.queues) num tx (take num_bufs bufs) w1 w2
    × (tx_index txq w2.queues ≡ (tx + num_bufs) % num)

-- The first transmit on a queue of the device that start_ixgbe returned, of an array that holds
-- num_bufs pointers to buffers, always succeeds. It posts all of them in order, from entry 0 of
-- the ring of 512 on, and writes their number modulo 512 to TDT.
pub transmit-start_ixgbe :
    (env : Env) (fuel : ℕ) (pci_addr : List ℕ) (rx_queues tx_queues q : ℕ) (dev : Device)
    (w w1 : World) (num_bufs : ℕ) (bufs : List ℕ)
    → start_ixgbe env fuel pci_addr rx_queues tx_queues w ≡ some (dev, w1)
    → q < tx_queues
    → num_bufs ≤ length bufs
    → AllBufs (take num_bufs bufs) w1
    → let txq = queue_at dev.tx_queues q in
      let cleaned : World = record w1 { clean_index = 0 } in
      (w2 : World) × (transmit env dev q bufs num_bufs w1
        ≡ some (tt, emit (Event.store32 (dev.addr + tdt q) (num_bufs % 512)) w2))
      × Posted txq (descriptors txq w1.queues) 512 0 (take num_bufs bufs) cleaned w2
      × (tx_index txq w2.queues ≡ num_bufs % 512)
transmit-start_ixgbe env fuel pci_addr rx_queues tx_queues q dev w w1 n bufs h lt room all =
    let (count, size, clean, tail) =
      start_ixgbe-ready env fuel pci_addr rx_queues tx_queues q dev w w1 h lt in
    let txq = queue_at dev.tx_queues q in
    let cleaned : World = record w1 { clean_index = 0 } in
    let ring : IsRing 9 512 = record {
      size = refl;
      small = omega arith;
      some_entries = omega arith;
    } in
    let posted : Sent env dev q bufs n w1 cleaned (num_entries txq w1.queues)
        (tx_index txq w1.queues) =
      transmit-posts-all env 9 dev q n bufs w1 cleaned (clean_nothing env txq w1 tail clean)
        (rw size ring) (omega (arith, size)) (omega (arith, size, tail)) room
        (AllBufs-world (take n bufs) w1 cleaned refl all) in
    let (w2, run, done, end) =
      subst (λ num. Sent env dev q bufs n w1 cleaned num 0) size
        (subst (Sent env dev q bufs n w1 cleaned (num_entries txq w1.queues)) tail posted) in
    let small : (0 + n) % 512 % 2 ^ 32 ≡ n % 512 = omega arith in
    (
      w2,
      run ∙ ap (λ v. some (tt, emit (Event.store32 (dev.addr + tdt q) v) w2)) small,
      done,
      end ∙ omega arith,
    )
