-- ===== src/Examples/Owned.antt =====
-- A pool of four buffers and its clients.
use ixgbe82599_driver.Base.{◌<◌, ◌∷◌, ◌+◌, ℕ, ◌≡◌, refl, [], some, true, arith, set?}
use ixgbe82599_driver.Base.Distinct.{has, Distinct}
use ixgbe82599_driver.Base.Count.{count}
use ixgbe82599_driver.Pool.Stack.{stack}
use ixgbe82599_driver.World.{Mempool, World}
use ixgbe82599_driver.Pool.{buf_at, alloc_pkt_buf_batch, alloc_loop, pop, push, pkt_buf_free}
use ixgbe82599_driver.Pool.Valid.{IsValid}
use ixgbe82599_driver.Pool.Owned.{State, alloc, free, Reach, start, next}
use ixgbe82599_driver.Pool.Owned.Apart.{Reach-Distinct}
use ixgbe82599_driver.Examples.Data.{four_bufs, pool_world, left_by}
use ixgbe82599_driver.Examples.Pools.{four_bufs-header}

four_free-IsValid : IsValid 4 4096 (four_bufs 4) (pool_world 4)
four_free-IsValid = record {
  here = refl;
  array = refl;
  small = omega arith;
  top_le = omega arith;
  below = (omega arith, (omega arith, (omega arith, (omega arith, tt))));
  distinct = (refl, (refl, (refl, (refl, tt))));
  header = four_bufs-header 4;
}

-- Three are taken, the middle one is given back, and two are taken again.
abbrev after_alloc : World
after_alloc = left_by (alloc_pkt_buf_batch 4096 (0 ∷ 0 ∷ 0 ∷ []) 3) (pool_world 4)

abbrev after_free : World
after_free = left_by (pkt_buf_free 12288) after_alloc

abbrev after_both : World
after_both = left_by (alloc_pkt_buf_batch 4096 (0 ∷ 0 ∷ []) 2) after_free

abbrev all_out : State
all_out = record { world = after_both; out = 12288 ∷ 8192 ∷ 14336 ∷ 10240 ∷ [] }

all_out-Reach : Reach 4096 (record { world = pool_world 4; out = [] }) all_out
unfolding alloc_pkt_buf_batch alloc_loop pop set? pkt_buf_free push
all_out-Reach =
    next
      (next
        (next start (alloc (0 ∷ 0 ∷ 0 ∷ []) (14336 ∷ 12288 ∷ 10240 ∷ []) 3 3 (omega arith) refl))
        (free (14336 ∷ []) (10240 ∷ []) 12288 refl refl))
      (alloc (0 ∷ 0 ∷ []) (12288 ∷ 8192 ∷ []) 2 2 (omega arith) refl)

Reach-Distinct_example :
    (m' : Mempool) × IsValid 4 4096 m' after_both
    × (m'.base_addr ≡ 8192)
    × (m'.buf_size ≡ 2048)
    × Distinct (12288 ∷ 8192 ∷ 14336 ∷ 10240 ∷ [])
    × (4 + m'.free_stack_top ≡ 4)
    × ((id : ℕ)
        → id < 4
        → count (buf_at m' id) (12288 ∷ 8192 ∷ 14336 ∷ 10240 ∷ []) + count id (stack m') ≡ 1)
    × ((buf : ℕ)
        → has buf (12288 ∷ 8192 ∷ 14336 ∷ 10240 ∷ []) ≡ true
        → (id : ℕ) × (id < 4)
          × (buf ≡ buf_at m' id)
          × (w' : World) × (pkt_buf_free buf after_both ≡ some (tt, w')))
Reach-Distinct_example =
    Reach-Distinct 4 4096 (four_bufs 4) (pool_world 4) all_out four_free-IsValid refl (omega arith)
      (omega arith) all_out-Reach
