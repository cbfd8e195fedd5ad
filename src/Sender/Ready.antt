-- ===== src/Sender/Ready.antt =====
-- send/through.c: the pool and the packets that init_mempool returns.
use ixgbe82599_driver.Base.{
  ℕ, ◌/◌, ◌%◌, ◌^◌, ◌≤◌, ◌<◌, ◌≡◌, refl, ◌∙◌, List, ◌++◌, some, arith, length, take, drop, set,
  pure, ◌>>=◌, ◌>>◌, bind-some,
}
use ixgbe82599_driver.World.{Env, Mempool, World}
use ixgbe82599_driver.Checksum.{half_words, calc_ip_checksum}
use ixgbe82599_driver.Pool.Valid.{IsValid}
use ixgbe82599_driver.Dma.{zeros, allocate_mempool_mem}
use ixgbe82599_driver.Dma.Entries.{length-zeros}
use ixgbe82599_driver.Dma.NewPool.{pool_address, stale_buf_size, allocate_mempool_mem-zeros}
use ixgbe82599_driver.Sender.{
  packet_bytes, init_packets, free_bufs, init_mempool, init_mempool_with, num_bufs, pkt_data,
}
use ixgbe82599_driver.Sender.Bytes.{packet_bytes_lem}
use ixgbe82599_driver.Sender.Filled.{Spaced}
use ixgbe82599_driver.Sender.NewPackets.{buf_of, Carries, fill_pool_lem}

-- pkt_data with a checksum in its place, at the start of a buffer of 2048 bytes.
abbrev pub sent_packet : ℕ → List ℕ
sent_packet checksum = set (set pkt_data 24 (checksum % 256)) 25 (checksum / 256 % 256)

abbrev pub sent_bytes : ℕ → List ℕ
sent_bytes checksum = sent_packet checksum ++ drop (length pkt_data) (zeros 1984)

pkt_data-sent :
    (c : ℕ) × (packet_bytes pkt_data (zeros 1984) ≡ some (sent_bytes c))
    × (calc_ip_checksum (half_words (take 20 (drop 14 (sent_packet c)))) 20 ≡ some 0)
pkt_data-sent =
    let fit : length pkt_data ≤ length (zeros 1984) = omega (arith, length-zeros 1984) in
    packet_bytes_lem (take 14 pkt_data) (take 10 (drop 14 pkt_data)) (take 8 (drop 26 pkt_data))
      (drop 34 pkt_data) (zeros 1984) refl refl refl (ground arith) (ground arith) fit

-- Entries of 2048 bytes that fit into 32 bits stand apart.
Spaced-2048 : (n : ℕ) (m : Mempool) → m.buf_size ≡ 2048 → n ≤ 2048 → Spaced n m
Spaced-2048 n m e le i j hi hj same = let apart = (rw e at same) in omega arith

-- If malloc leaves 2048, the size of an entry, in the place of buf_size, which nothing writes,
-- then init_mempool succeeds. It returns a valid pool of 2048 buffers, all of them free. Each of
-- them has the size that was asked for, as an int, and holds the packet with one and the same
-- checksum, and the checksum of a header that carries it is 0.
pub init_mempool_lem :
    (env : Env) (size : ℕ) (w : World)
    → stale_buf_size env w num_bufs ≡ 2048
    → (c : ℕ) × (w' : World) × (m : Mempool) × (init_mempool env size w
        ≡ some (pool_address env w num_bufs, w'))
      × IsValid num_bufs (pool_address env w num_bufs) m w'
      × (m.free_stack_top ≡ num_bufs)
      × ((i : ℕ) → i < num_bufs → Carries (size % 2 ^ 32) (sent_bytes c) m w' i)
      × (calc_ip_checksum (half_words (take 20 (drop 14 (sent_packet c)))) 20 ≡ some 0)
unfolding init_mempool init_mempool_with
init_mempool_lem env size w lucky =
    let (w1, m, made, valid, buf_size, full, zero) =
      allocate_mempool_mem-zeros env num_bufs 0 w (omega arith) (omega arith) (omega arith) lucky in
    let (c, packed, check) = pkt_data-sent in
    let mempool = pool_address env w num_bufs in
    let s = size % 2 ^ 32 in
    let packed_at : (i : ℕ)
        → i < num_bufs
        → packet_bytes pkt_data (buf_of m w1 i).bytes ≡ some (sent_bytes c) =
      λ i lt. let (b, at, blank) = zero i lt in rw (at, blank) packed in
    let (w', m', run, valid', top, carries) =
      fill_pool_lem num_bufs mempool pkt_data s (λ _. sent_bytes c) m w1 valid
        (Spaced-2048 num_bufs m buf_size (omega arith)) full packed_at in
    (
      c,
      w',
      m',
      bind-some (allocate_mempool_mem env num_bufs 0)
            (λ pool. (do bufs ← init_packets num_bufs pool pkt_data s; free_bufs bufs; pure pool))
            made
          ∙ run,
      valid',
      top,
      carries,
      check,
    )
