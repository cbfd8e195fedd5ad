-- ===== src/Tx/Post.antt =====
-- transmit: what it puts on the ring, and that it never stops early.
use native.Mathlib.Nat.{mod-eq_of_lt}
use ixgbe82599_driver.Base.{
  drop-cons, bind-some, get_or, get_elem?-eq-get_or, drop, take, length, zero, suc, ◌+◌, ◌≤◌, ◌<◌,
  refl, sym, ne→==, false, ◌==◌, ◌>>=◌, ℕ, ◌*◌, ◌%◌, ◌^◌, ◌≡◌, ◌∙◌, arith, List, [], ◌∷◌, some,
  bit_or,
}
use ixgbe82599_driver.Ixgbe.Flags
use ixgbe82599_driver.World.{emit, Env, Event, Trace, PktBuf, World}
use ixgbe82599_driver.Ixgbe.Registers.{tdt}
use ixgbe82599_driver.Mmio.{set_reg32}
use ixgbe82599_driver.Dma.{offsetof_data}
use ixgbe82599_driver.TxQueue.{
  Device, queue_at, descriptors, num_entries, tx_index, set_tx_index, set_virtual_address,
}
use ixgbe82599_driver.TxQueue.Layout.{set_virtual_address-header, set_tx_index-header}
use ixgbe82599_driver.Tx.{
  descriptor_at, dcmd_dtype_flags, post, transmit_loop, transmit, tx_clean, offsetof_cmd_type_len,
  offsetof_olinfo_status,
}
use ixgbe82599_driver.Tx.Ring.{IsRing, wrap_ring-mod, step-ne, step-step}

-- The stores that describe buffer b in a descriptor, the newest first: the address of its data, its
-- command word and its length.
abbrev pub described : (txd : ℕ) → PktBuf → Trace → Trace
described txd b t =
    Event.store32 (txd + offsetof_olinfo_status) (b.size * 2 ^ Flags.advtxd_paylen_shift % 2 ^ 32)
    ∷ Event.store32 (txd + offsetof_cmd_type_len) (bit_or dcmd_dtype_flags b.size)
    ∷ Event.store64 txd ((b.buf_addr_phy + offsetof_data) % 2 ^ 64)
    ∷ t

-- Buffers from entry tx on: each is described in its descriptor and recorded in virtual_address, and
-- the tail index goes one entry further, modulo the ring.
pub Posted : (txq ring num tx : ℕ) → List ℕ → World → World → Type 0
Posted txq ring num tx [] w w' = w' ≡ w
Posted txq ring num tx (buf ∷ bufs) w w' =
    (b : PktBuf) × (w.bufs buf ≡ some b)
    × Posted txq ring num ((tx + 1) % num) bufs
        (record w {
          trace = described (descriptor_at ring tx) b w.trace;
          queues = set_tx_index txq ((tx + 1) % num) (set_virtual_address txq tx buf w.queues);
        })
        w'

-- Every pointer of the list points to a buffer.
abbrev pub AllBufs : List ℕ → World → Type 0
AllBufs [] w = Unit
AllBufs (buf ∷ bufs) w = ((b : PktBuf) × (w.bufs buf ≡ some b)) × AllBufs bufs w

pub AllBufs-world :
    (bufs : List ℕ) (w w' : World) → w'.bufs ≡ w.bufs → AllBufs bufs w → AllBufs bufs w'
AllBufs-world [] w w' e h = tt
AllBufs-world (buf ∷ bufs) w w' e h = ((h.0.0, rw e (h.0.1)), AllBufs-world bufs w w' e h.1)

-- The header of the queue, with the descriptors at `ring`.
record At (txq ring num tx : ℕ) (w : World) : Type 0 where
  ring_at : descriptors txq w.queues ≡ ring
  size : num_entries txq w.queues ≡ num
  tail : tx_index txq w.queues ≡ tx

-- The world after one post.
abbrev posted : (txq ring next tx buf : ℕ) → PktBuf → World → World
posted txq ring next tx buf b w = record w {
  trace = described (descriptor_at ring tx) b w.trace;
  queues = set_tx_index txq next (set_virtual_address txq tx buf w.queues);
}

module _ (k num txq ring : ℕ) (r : IsRing k num) where
  post_lem :
      (tx buf : ℕ) (b : PktBuf) (w : World)
      → At txq ring num tx w
      → w.bufs buf ≡ some b
      → (post txq tx ((tx + 1) % num) buf w
          ≡ some (tt, posted txq ring ((tx + 1) % num) tx buf b w))
        × At txq ring num ((tx + 1) % num) (posted txq ring ((tx + 1) % num) tx buf b w)
  unfolding post
  post_lem tx buf b w at here =
      let (v, t) = set_virtual_address-header txq w.queues tx buf in
      let (h, s) =
        set_tx_index-header txq (set_virtual_address txq tx buf w.queues) ((tx + 1) % num)
          (omega (arith, r.small, r.some_entries)) in
      (
        rw (here, v.descriptors, at.ring_at, post),
        record {
          ring_at = h.descriptors ∙ (v.descriptors ∙ at.ring_at);
          size = h.num_entries ∙ (v.num_entries ∙ at.size);
          tail = s;
        },
      )

  -- One round of the loop goes on with the next.
  transmit_step :
      (rounds sent tx : ℕ) (bufs : List ℕ) (b : PktBuf) (w : World)
      → 2 ≤ num
      → tx < num
      → At txq ring num tx w
      → sent < length bufs
      → w.bufs (get_or bufs sent 0) ≡ some b
      → transmit_loop (suc rounds) sent txq bufs w
        ≡ transmit_loop rounds
            (sent + 1)
            txq
            bufs
            (posted txq ring ((tx + 1) % num) tx (get_or bufs sent 0) b w)
  unfolding transmit_loop
  transmit_step rounds sent tx bufs b w two ht at room here =
      let next = (tx + 1) % num in
      let go_on : (tx == next) ≡ false =
        ne→== tx next (λ e. step-ne num tx 0 ht (omega arith) (sym e)) in
      rw (at.tail, at.size, wrap_ring-mod k num tx r, go_on, get_elem?-eq-get_or bufs sent 0 room)
        (bind-some (post txq tx next (get_or bufs sent 0))
          (λ _. transmit_loop rounds (sent + 1) txq bufs)
          (post_lem tx (get_or bufs sent 0) b w at here).0)

  transmit_loop-Posted :
      (rounds sent tx : ℕ) (bufs : List ℕ) (w : World)
      → 2 ≤ num
      → tx < num
      → At txq ring num tx w
      → sent + rounds ≤ length bufs
      → AllBufs (take rounds (drop sent bufs)) w
      → (w' : World) × (transmit_loop rounds sent txq bufs w ≡ some (tt, w'))
        × Posted txq ring num tx (take rounds (drop sent bufs)) w w'
        × At txq ring num ((tx + rounds) % num) w'
  unfolding Posted transmit_loop
  transmit_loop-Posted zero sent tx bufs w two ht at room all =
      let stay : (tx + 0) % num ≡ tx =
        mod-eq_of_lt {n = tx + 0} {m = num} (omega arith) ∙ omega arith in
      (w, refl, refl, rw stay at)
  transmit_loop-Posted (suc rounds) sent tx bufs w two ht at room all =
      let buf = get_or bufs sent 0 in
      let split : drop sent bufs ≡ buf ∷ drop (sent + 1) bufs =
        drop-cons bufs sent 0 (omega arith) in
      let all' : AllBufs (buf ∷ take rounds (drop (sent + 1) bufs)) w = (rw split at all) in
      let ((b, here), more) = all' in
      let next = (tx + 1) % num in
      let w1 = posted txq ring next tx buf b w in
      let (step, at1) = post_lem tx buf b w at here in
      let (w', run, done, end) =
        transmit_loop-Posted rounds (sent + 1) next bufs w1 two (omega (arith, r.some_entries)) at1
          (omega arith) (AllBufs-world (take rounds (drop (sent + 1) bufs)) w w1 refl more) in
      (
        w',
        transmit_step rounds sent tx bufs b w two ht at (omega arith) here ∙ run,
        rw split (b, here, done),
        rw (← step-step num tx rounds) end,
      )

-- transmit never stops before the last buffer, however full the ring is: when tx_clean has
-- returned, the ring has 2^k >= 2 entries with the tail in range, and the array holds num_bufs
-- pointers to buffers, it posts all num_bufs buffers in order from the tail on, each to the next
-- entry modulo the ring, and then writes the new tail, num_bufs entries further, to TDT.
pub transmit-posts-all :
    (env : Env) (k : ℕ) (dev : Device) (queue_id num_bufs : ℕ) (bufs : List ℕ) (w w1 : World)
    → tx_clean env (queue_at dev.tx_queues queue_id) w ≡ some (tt, w1)
    → IsRing k (num_entries (queue_at dev.tx_queues queue_id) w1.queues)
    → 2 ≤ num_entries (queue_at dev.tx_queues queue_id) w1.queues
    → tx_index (queue_at dev.tx_queues queue_id) w1.queues
      < num_entries (queue_at dev.tx_queues queue_id) w1.queues
    → num_bufs ≤ length bufs
    → AllBufs (take num_bufs bufs) w1
    → let txq = queue_at dev.tx_queues queue_id in
      let num = num_entries txq w1.queues in
      let tx = tx_index txq w1.queues in
      (w' : World) × (transmit env dev queue_id bufs num_bufs w
        ≡ some (
          tt,
          emit (Event.store32 (dev.addr + tdt queue_id) ((tx + num_bufs) % num % 2 ^ 32)) w',
        ))
      × Posted txq (descriptors txq w1.queues) num tx (take num_bufs bufs) w1 w'
      × (tx_index txq w'.queues ≡ (tx + num_bufs) % num)
unfolding transmit set_reg32
transmit-posts-all env k dev queue_id n bufs w w1 cleaned r two ht room all =
    let txq = queue_at dev.tx_queues queue_id in
    let at : At txq (descriptors txq w1.queues) (num_entries txq w1.queues) (tx_index txq w1.queues)
        w1 =
      record { ring_at = refl; size = refl; tail = refl } in
    let (w', run, done, end) =
      transmit_loop-Posted k (num_entries txq w1.queues) txq (descriptors txq w1.queues) r n 0
        (tx_index txq w1.queues) bufs w1 two ht at (omega arith) all in
    (w', rw (cleaned, transmit, ◌>>=◌) (rw (run, ◌>>=◌) (rw end.tail refl)), done, end.tail)
