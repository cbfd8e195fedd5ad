-- ===== src/Pool/Alloc.antt =====
-- alloc_pkt_buf_batch and alloc_pkt_buf against the stack of free buffers.
use ixgbe82599_driver.Base.{
  ap, ◌+◌, ℕ, ◌-◌, ◌≤◌, ◌≡◌, refl, List, [], ◌∷◌, refl, zero, suc, ◌++◌, some, arith, length,
  length-map, length-take, take, drop, map, min, update,
}
use ixgbe82599_driver.World.{Mempool, World}
use ixgbe82599_driver.Pool.{alloc_pkt_buf, null, buf_at, granted, alloc_loop, alloc_pkt_buf_batch}
use ixgbe82599_driver.Pool.Stack.{
  stack_of, Fits, stack, fill-append, alloc_loop_lem, stack_of-drop, length-stack_of,
}

-- The pool after k buffers were taken.
abbrev pub taken : ℕ → Mempool → Mempool
taken k m = record m { free_stack_top = m.free_stack_top - k }

pub taken-zero : (m : Mempool) → taken 0 m ≡ m
taken-zero m = ap (λ t. record m { free_stack_top = t }) {y = m.free_stack_top} (omega arith)

pub taken-taken : (k j : ℕ) (m : Mempool) → taken j (taken k m) ≡ taken (k + j) m
taken-taken k j m =
    ap (λ t. record m { free_stack_top = t }) {y = m.free_stack_top - (k + j)} (omega arith)

-- The buffers that the next k requests get.
abbrev pub next_bufs : ℕ → Mempool → List ℕ
next_bufs k m = map (buf_at m) (take k (stack m))

length-next_bufs : (k : ℕ) (m : Mempool) → k ≤ m.free_stack_top → length (next_bufs k m) ≡ k
length-next_bufs k m h = omega (
  arith,
  length-map {0, 0} (buf_at m) (take k (stack m)),
  length-take {0} k (stack m),
  length-stack_of m.free_stack m.free_stack_top,
)

pub granted-eq-min : (m : Mempool) (n : ℕ) → granted m n ≡ min n m.free_stack_top
granted-eq-min m n = ground arith

alloc_loop-next_bufs :
    (k : ℕ) (m : Mempool) (buf : List ℕ)
    → Fits m
    → k ≤ m.free_stack_top
    → k ≤ length buf
    → alloc_loop k 0 m buf ≡ some (taken k m, next_bufs k m ++ drop k buf)
alloc_loop-next_bufs k m buf f enough room = ground (
  arith,
  alloc_loop_lem k 0 m buf f enough (omega arith),
  fill-append (next_bufs k m) buf,
  length-next_bufs k m enough,
)

-- On a pool whose top lies in its array, and with room in the caller's array, alloc_pkt_buf_batch
-- hands out min(num_bufs, free buffers) buffers and returns that number. It writes their
-- addresses at the front of the caller's array, the top of the stack first, and leaves the rest
-- of the array and all other state alone; the stack loses exactly these entries.
pub alloc_pkt_buf_batch_lem :
    (w : World) (mempool : ℕ) (buf : List ℕ) (num_bufs : ℕ) (m : Mempool)
    → w.pools mempool ≡ some m
    → Fits m
    → granted m num_bufs ≤ length buf
    → let k = min num_bufs m.free_stack_top in
      (alloc_pkt_buf_batch mempool buf num_bufs w
        ≡ some (
          (k, next_bufs k m ++ drop k buf),
          record w { pools = update w.pools mempool (some (taken k m)) },
        ))
      × (stack (taken k m) ≡ drop k (stack m))
unfolding alloc_pkt_buf_batch
alloc_pkt_buf_batch_lem w mempool buf num_bufs m here f room = (
  rw (here, alloc_pkt_buf_batch)
      (rw (alloc_loop-next_bufs (granted m num_bufs) m buf f (ground arith) room)
        (rw (granted-eq-min m num_bufs))),
  stack_of-drop m.free_stack (min num_bufs m.free_stack_top) m.free_stack_top,
)

-- The buffer on the top of the stack, NULL if there is none.
abbrev pub top_buf : Mempool → List ℕ → ℕ
top_buf m [] = null
top_buf m (entry_id ∷ _) = buf_at m entry_id

one_buf :
    (m : Mempool) (fs : List ℕ) (t : ℕ)
    → map (buf_at m) (take (min 1 t) (stack_of fs t)) ++ drop (min 1 t) (null ∷ [])
      ≡ top_buf m (stack_of fs t) ∷ []
one_buf m fs zero = refl
one_buf m fs (suc t) = let one : min 1 (suc t) ≡ 1 = omega arith in rw one

-- On a pool whose top lies in its array, alloc_pkt_buf returns the buffer on the top of the stack
-- and removes it, and returns NULL, with the stack unchanged, when the stack is empty.
pub alloc_pkt_buf_lem :
    (w : World) (mempool : ℕ) (m : Mempool)
    → w.pools mempool ≡ some m
    → Fits m
    → alloc_pkt_buf mempool w
      ≡ some (
        top_buf m (stack m),
        record w { pools = update w.pools mempool (some (taken (min 1 m.free_stack_top) m)) },
      )
unfolding alloc_pkt_buf
alloc_pkt_buf_lem w mempool m here f =
    rw ((alloc_pkt_buf_batch_lem w mempool (null ∷ []) 1 m here f (ground arith)).0, alloc_pkt_buf)
      (rw (one_buf m m.free_stack m.free_stack_top))
