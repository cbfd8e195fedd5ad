-- ===== src/Examples/Pools.antt =====
-- Pools.
use ixgbe82599_driver.Base.{
  ℕ, zero, suc, ◌+◌, ◌%◌, ◌≤◌, ◌<◌, ◌≡◌, refl, ◌∷◌, [], some, none, set?, true, false, arith,
  update, ◌>>=◌,
}
use ixgbe82599_driver.Base.Distinct.{has, Distinct}
use ixgbe82599_driver.World.{Mempool, World}
use ixgbe82599_driver.Pool.{alloc_pkt_buf_batch, alloc_pkt_buf, pkt_buf_free}
use ixgbe82599_driver.Pool.Stack.{Fits, stack}
use ixgbe82599_driver.Pool.Alloc.{alloc_pkt_buf_batch_lem}
use ixgbe82599_driver.Pool.Free.{given}
use ixgbe82599_driver.Pool.Valid.{
  IsValid, HasHeader, alloc_pkt_buf_batch-IsValid, pkt_buf_free-IsValid, pkt_buf_free-alloc_pkt_buf,
}
use ixgbe82599_driver.Dma.{
  init_entries, init_entry, virt_to_phys, write_header, zeros, allocate_mempool_mem,
  round_to_huge_pages, huge_page_size,
}
use ixgbe82599_driver.Dma.Address.{round_to_huge_pages_lem}
use ixgbe82599_driver.Dma.NewPool.{
  allocate_mempool_mem-IsValid, allocate_mempool_mem-stale, alloc_pkt_buf_batch-one_address,
}
use ixgbe82599_driver.Examples.Data.{left_by, ready, silent, four_bufs, pool_world, header_of}

pub four_bufs-header : (free i : ℕ) → i < 4 → HasHeader 4096 (four_bufs free) (pool_world free) i
four_bufs-header free zero h = (header_of 0, refl, refl, refl)
four_bufs-header free (suc zero) h = (header_of 1, refl, refl, refl)
four_bufs-header free (suc (suc zero)) h = (header_of 2, refl, refl, refl)
four_bufs-header free (suc (suc (suc zero))) h = (header_of 3, refl, refl, refl)
four_bufs-header free (suc (suc (suc (suc i)))) h = absurd (omega arith)

two_free-IsValid : IsValid 4 4096 (four_bufs 2) (pool_world 2)
two_free-IsValid = record {
  here = refl;
  array = refl;
  small = omega arith;
  top_le = omega arith;
  below = (omega arith, (omega arith, tt));
  distinct = (refl, (refl, tt));
  header = four_bufs-header 2;
}

two_free-Fits : Fits (four_bufs 2)
two_free-Fits = record { top_le = omega arith; small = omega arith }

four_free-Fits : Fits (four_bufs 4)
four_free-Fits = record { top_le = omega arith; small = omega arith }

-- Three are asked for, and the two that are free are handed out.
alloc_pkt_buf_batch_lem_example :
    (alloc_pkt_buf_batch 4096 (7 ∷ 7 ∷ 7 ∷ []) 3 (pool_world 2)
      ≡ some (
        (2, 10240 ∷ 8192 ∷ 7 ∷ []),
        record (pool_world 2) { pools = update (pool_world 2).pools 4096 (some (four_bufs 0)) },
      ))
    × (stack (four_bufs 0) ≡ [])
alloc_pkt_buf_batch_lem_example =
    alloc_pkt_buf_batch_lem (pool_world 2) 4096 (7 ∷ 7 ∷ 7 ∷ []) 3 (four_bufs 2) refl two_free-Fits
      (omega arith)

alloc_pkt_buf_batch-IsValid_example :
    let w = record (pool_world 2) {
      pools = update (pool_world 2).pools 4096 (some (four_bufs 1));
    } in
    (alloc_pkt_buf_batch 4096 (0 ∷ []) 1 (pool_world 2) ≡ some ((1, 10240 ∷ []), w))
    × IsValid 4 4096 (four_bufs 1) w
    × Distinct (1 ∷ [])
    × ((a : ℕ) → has a (1 ∷ []) ≡ true → has a (0 ∷ []) ≡ false)
alloc_pkt_buf_batch-IsValid_example =
    alloc_pkt_buf_batch-IsValid two_free-IsValid (0 ∷ []) 1 (omega arith)

pkt_buf_free-IsValid_example :
    let m = given 3 (four_bufs 2) in
    let w = record (pool_world 2) { pools = update (pool_world 2).pools 4096 (some m) } in
    (pkt_buf_free 14336 (pool_world 2) ≡ some (tt, w))
    × IsValid 4 4096 m w
    × (stack m ≡ 3 ∷ 1 ∷ 0 ∷ [])
pkt_buf_free-IsValid_example = pkt_buf_free-IsValid two_free-IsValid 3 (omega arith) refl

pkt_buf_free-alloc_pkt_buf_example :
    (m : Mempool) × ((do pb ← alloc_pkt_buf 4096; pkt_buf_free pb) (pool_world 2)
      ≡ some (tt, record (pool_world 2) { pools = update (pool_world 2).pools 4096 (some m) }))
    × IsValid 4 4096 m (record (pool_world 2) { pools = update (pool_world 2).pools 4096 (some m) })
    × (stack m ≡ 1 ∷ 0 ∷ [])
pkt_buf_free-alloc_pkt_buf_example = pkt_buf_free-alloc_pkt_buf two_free-IsValid (omega arith)

round_to_huge_pages_lem_example :
    (round_to_huge_pages 3000000 % huge_page_size ≡ 0)
    × (3000000 ≤ round_to_huge_pages 3000000)
    × (round_to_huge_pages 3000000 < 3000000 + huge_page_size)
round_to_huge_pages_lem_example = round_to_huge_pages_lem 3000000 (omega arith)

allocate_mempool_mem-IsValid_example :
    (w : World) × (m : Mempool) × (allocate_mempool_mem ready 3 0 (pool_world 2) ≡ some (4096, w))
    × IsValid 3 4096 m w
    × (stack m ≡ 2 ∷ 1 ∷ 0 ∷ [])
allocate_mempool_mem-IsValid_example =
    allocate_mempool_mem-IsValid ready 3 0 (pool_world 2) (omega arith) (omega arith) (omega arith)
      refl

-- Entries of 8 bytes: the header of buffer 1 is written into that of buffer 0.
headers_overlap :
    (left_by (init_entries silent 2 0 8 4096 65536 (0 ∷ 0 ∷ [])) (pool_world 2)).bufs 65536 ≡ none
unfolding init_entries init_entry virt_to_phys write_header zeros set?
headers_overlap = refl

allocate_mempool_mem-stale_example :
    (w : World) × (m : Mempool) × (allocate_mempool_mem silent 3 0 (pool_world 2) ≡ some (4096, w))
    × (w.pools 4096 ≡ some m)
    × (m.buf_size ≡ 0)
    × (m.num_entries ≡ 2048)
allocate_mempool_mem-stale_example =
    allocate_mempool_mem-stale silent 3 0 (pool_world 2) (omega arith)

alloc_pkt_buf_batch-one_address_example :
    (base : ℕ) × (w : World) × ((do
      pool ← allocate_mempool_mem silent 3 0
      alloc_pkt_buf_batch pool (7 ∷ 7 ∷ 7 ∷ []) 2)
        (pool_world 2)
      ≡ some ((2, base ∷ base ∷ 7 ∷ []), w))
alloc_pkt_buf_batch-one_address_example =
    alloc_pkt_buf_batch-one_address silent 3 0 2 (7 ∷ 7 ∷ 7 ∷ []) (pool_world 2) (omega arith)
      (omega arith) refl (omega arith) (omega arith)
