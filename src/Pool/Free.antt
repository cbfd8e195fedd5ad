-- ===== src/Pool/Free.antt =====
-- pkt_buf_free against the stack of free buffers.
use ixgbe82599_driver.Base.{
  ℕ, ◌+◌, ◌<◌, ◌≡◌, refl, ◌∷◌, some, arith, length, set, update, suc, ◌∙◌, ap,
}
use ixgbe82599_driver.World.{PktBuf, Mempool, World}
use ixgbe82599_driver.Pool.{pkt_buf_free}
use ixgbe82599_driver.Pool.Stack.{Fits, stack, stack_of, push_lem, stack_of-set}

-- The pool after a buffer was given back.
abbrev pub given : ℕ → Mempool → Mempool
given entry_id m = record m {
  free_stack_top = m.free_stack_top + 1;
  free_stack = set m.free_stack m.free_stack_top entry_id;
}

pub stack-given :
    (m : Mempool) (entry_id : ℕ)
    → m.free_stack_top < length m.free_stack
    → stack (given entry_id m) ≡ entry_id ∷ stack m
stack-given m entry_id h =
    ap (stack_of (set m.free_stack m.free_stack_top entry_id)) {y = suc m.free_stack_top}
      (omega arith)
    ∙ stack_of-set m.free_stack m.free_stack_top entry_id h

-- pkt_buf_free pushes the index in the buffer's header on the stack of the pool that the header
-- names, and changes nothing else, while there is room in the array.
pub pkt_buf_free_lem :
    (w : World) (buf : ℕ) (b : PktBuf) (m : Mempool)
    → w.bufs buf ≡ some b
    → w.pools b.mempool ≡ some m
    → Fits m
    → m.free_stack_top < length m.free_stack
    → (pkt_buf_free buf w
        ≡ some (tt, record w { pools = update w.pools b.mempool (some (given b.mempool_idx m)) }))
      × (stack (given b.mempool_idx m) ≡ b.mempool_idx ∷ stack m)
unfolding pkt_buf_free
pkt_buf_free_lem w buf b m at_buf at_pool f room = (
  rw (at_buf, pkt_buf_free) (rw at_pool (rw (push_lem m b.mempool_idx f room) refl)),
  stack-given m b.mempool_idx room,
)
