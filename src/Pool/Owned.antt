-- ===== src/Pool/Owned.antt =====
-- The pool and its clients: who holds which buffer, over every order of calls.
pub mod Shared
pub mod Apart
use mathlib.Core.Path.{subst}
use native.Mathlib.Nat.{mul-lt-mul_of_pos_right, eq_of_mul-eq-mul_right}
use ixgbe82599_driver.Base.{
  ℕ, zero, suc, ◌+◌, ◌*◌, ◌-◌, ◌%◌, ◌^◌, ◌≤◌, ◌<◌, ◌≡◌, refl, sym, ap, ◌∙◌, List, [], ◌∷◌, ◌++◌,
  true, false, some, arith, length, take, drop, map, min, update, ltb, if◌then◌else◌, length-append,
  length-take, length-map, ◌==◌, ==_iff, Bool-cases, inl, inr,
}
use ixgbe82599_driver.Base.Distinct.{has, Distinct, AllBelow}
use ixgbe82599_driver.Base.Count.{
  count, count-tail, count-cons, count-append, count-take-drop, count-middle, count_self, count_all,
  has-count_zero, Distinct-count, AllBelow-count, count-has,
}
use ixgbe82599_driver.World.{PktBuf, Mempool, World}
use ixgbe82599_driver.Pool.{buf_at, granted, alloc_pkt_buf_batch, pkt_buf_free}
use ixgbe82599_driver.Pool.Stack.{stack, length-stack_of, stack_of-drop}
use ixgbe82599_driver.Pool.Alloc.{taken}
use ixgbe82599_driver.Pool.Free.{given}
use ixgbe82599_driver.Pool.Valid.{
  IsValid, HasHeader, with_pool, fits, taken-IsValid, alloc_pkt_buf_batch-IsValid,
  pkt_buf_free-IsValid,
}

-- The world, and the addresses of the buffers that are with the pool's clients.
pub record State : Type 0 where
  pub world : World
  pub out : List ℕ

abbrev pub filled : (buf : ℕ) → PktBuf → World → World
filled buf b w = record w { bufs = update w.bufs buf (some b) }

-- A call of the pool, or something that its clients do between the calls. They free only what they
-- hold, and may change a buffer's size and bytes, and all but the pools and the buffers.
pub data Step (mempool : ℕ) : State → State → Type 0 where
  alloc :
      {s : State} {w' : World} (buf buf' : List ℕ) (num_bufs k : ℕ)
      → num_bufs ≤ length buf
      → alloc_pkt_buf_batch mempool buf num_bufs s.world ≡ some ((k, buf'), w')
      → Step mempool s (record { world = w'; out = take k buf' ++ s.out })
  free :
      {s : State} {w' : World} (front back : List ℕ) (buf : ℕ)
      → s.out ≡ front ++ buf ∷ back
      → pkt_buf_free buf s.world ≡ some (tt, w')
      → Step mempool s (record { world = w'; out = front ++ back })
  fill :
      {s : State} (buf size : ℕ) (bytes : List ℕ) (b : PktBuf)
      → s.world.bufs buf ≡ some b
      → Step mempool s
          (record s { world = filled buf (record b { size = size; bytes = bytes }) s.world })
  elsewhere :
      {s : State} {w' : World}
      → w'.pools ≡ s.world.pools
      → w'.bufs ≡ s.world.bufs
      → Step mempool s (record s { world = w' })

pub data Reach (mempool : ℕ) (s : State) : State → Type 0 where
  start : Reach mempool s s
  next : {t u : State} → Reach mempool s t → Step mempool t u → Reach mempool s u
