-- ===== src/Recv/Pool.antt =====
-- recv/struct.h and recv/lib.c: the packet buffers and their pool. alloc_pkt_buf_batch also
-- prints a message when it gives fewer buffers than were asked for. The text is that of send/, and so are the definitions.
use ixgbe82599_driver.Base.{ℕ, List}
use ixgbe82599_driver.World.{Run}
use ixgbe82599_driver.Pool

abbrev pub alloc_pkt_buf_batch : (mempool : ℕ) (buf : List ℕ) (num_bufs : ℕ) → Run (ℕ × List ℕ)
alloc_pkt_buf_batch = Pool.alloc_pkt_buf_batch

abbrev pub alloc_pkt_buf : (mempool : ℕ) → Run ℕ
alloc_pkt_buf = Pool.alloc_pkt_buf

abbrev pub pkt_buf_free : (buf : ℕ) → Run (Unit {0})
pkt_buf_free = Pool.pkt_buf_free
