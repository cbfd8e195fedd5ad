-- ===== src/Recv/Dma.antt =====
-- recv/lib.c: memory for DMA, and a new pool on it. The text is that of send/, and so are the definitions.
use ixgbe82599_driver.Base.{ℕ}
use ixgbe82599_driver.World.{DmaAddress, Env, Run}
use ixgbe82599_driver.Dma

abbrev pub virt_to_phys : Env → (virt : ℕ) → Run ℕ
virt_to_phys = Dma.virt_to_phys

abbrev pub allocate_dma_address : Env → (size : ℕ) → Run DmaAddress
allocate_dma_address = Dma.allocate_dma_address

abbrev pub allocate_mempool_mem : Env → (num_entries entry_size : ℕ) → Run ℕ
allocate_mempool_mem = Dma.allocate_mempool_mem
