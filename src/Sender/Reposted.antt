-- ===== src/Sender/Reposted.antt =====
-- send/through.c, the loop of main: which buffers a round posts.
use ixgbe82599_driver.Base.{
  ℕ, suc, ◌≤◌, ◌≡◌, List, ◌++◌, some, arith, length, drop, min, update, bind-some, ◌∙◌,
}
use ixgbe82599_driver.World.{Env, World, Mempool}
use ixgbe82599_driver.Pool.{alloc_pkt_buf_batch}
use ixgbe82599_driver.Pool.Stack.{Fits}
use ixgbe82599_driver.Pool.Alloc.{next_bufs, taken, alloc_pkt_buf_batch_lem}
use ixgbe82599_driver.TxQueue.{Device}
use ixgbe82599_driver.Tx.{transmit}
use ixgbe82599_driver.Sender.{send_rounds, batch_size}

-- A round of the loop of main, on an array of at least 68 buffers, whose call of transmit returns
-- and leaves a pool with its top in its array. With k the number of free buffers, or 68 if there
-- are more, the next round posts the next k free buffers and, after them, the buffers that this
-- round posted from the k-th on. If no buffer is free it posts the same array again.
pub send_rounds-reposts :
    (env : Env) (rounds : ℕ) (dev : Device) (memp : ℕ) (buf : List ℕ) (w w1 : World) (m : Mempool)
    → transmit env dev 0 buf batch_size w ≡ some (tt, w1)
    → w1.pools memp ≡ some m
    → Fits m
    → batch_size ≤ length buf
    → let k = min batch_size m.free_stack_top in
      send_rounds env (suc rounds) dev memp buf w
      ≡ send_rounds env rounds dev memp
          (next_bufs k m ++ drop k buf)
          (record w1 { pools = update w1.pools memp (some (taken k m)) })
unfolding send_rounds
send_rounds-reposts env rounds dev memp buf w w1 m sent here f room =
    bind-some (transmit env dev 0 buf batch_size) _ sent
    ∙ bind-some (alloc_pkt_buf_batch memp buf batch_size) _
        (alloc_pkt_buf_batch_lem w1 memp buf batch_size m here f (ground arith)).0
