-- ===== src/Dma.antt =====
-- send/lib.c: physical addresses, memory for DMA on huge pages, and a new memory pool on it.
pub mod Address
pub mod Entries
pub mod NewPool
pub mod Kept
use ixgbe82599_driver.Base.{
  ℕ, zero, suc, ◌+◌, ◌-◌, ◌*◌, ◌/◌, ◌%◌, ◌^◌, List, [], ◌∷◌, Option, none, some, M, pure, ◌>>=◌,
  ◌>>◌, modify, get, lift, bit_and, ◌==◌, if◌then◌else◌, set?, length, ltb, update, Bool, ◌&&◌,
  ◌||◌,
}
use ixgbe82599_driver.World.{Event, Trace, Env, PktBuf, Mempool, DmaAddress, World, Run, emit}

-- Bits 0 to 54 of a pagemap entry: the number of the physical page.
abbrev pub page_number_mask : ℕ
page_number_mask = 0x7f_ffff_ffff_ffff

abbrev pub huge_page_bits : ℕ
huge_page_bits = 21

abbrev pub huge_page_size : ℕ
huge_page_size = 2 ^ huge_page_bits

-- The size that allocate_dma_address maps: a size_t, rounded up to whole huge pages.
unfoldable pub round_to_huge_pages : ℕ → ℕ
round_to_huge_pages size =
    if size % huge_page_size == 0
    then size
    else (size / 2 ^ huge_page_bits + 1) * 2 ^ huge_page_bits % 2 ^ 64

-- sizeof(struct mempool), and the offset of its array.
abbrev pub sizeof_mempool : ℕ
sizeof_mempool = 24

abbrev pub offsetof_free_stack : ℕ
offsetof_free_stack = 20

abbrev pub offsetof_buf_size : ℕ
offsetof_buf_size = 8

-- offsetof(struct pkt_buf, data): the header has 24 bytes, and `data` is aligned to 64.
abbrev pub offsetof_data : ℕ
offsetof_data = 64

-- The fields before `data`, which allocate_mempool_mem writes, take 24 bytes.
abbrev pub sizeof_header : ℕ
sizeof_header = 24

-- The bytes of a header written at `buf` lie in the header or in the data of the buffer b at `a`.
abbrev pub overlaps : (buf a : ℕ) → PktBuf → Bool
overlaps buf a b =
    (ltb a (buf + sizeof_header) && ltb buf (a + sizeof_header))
    || (ltb 0 (length b.bytes)
        && ltb (a + offsetof_data) (buf + sizeof_header)
        && ltb buf (a + offsetof_data + length b.bytes))

-- The buffers once the header of b is written at `buf`: what it is written into is no longer a
-- buffer.
unfoldable pub write_header : (buf : ℕ) → PktBuf → (ℕ → Option PktBuf) → ℕ → Option PktBuf
write_header buf b bufs a =
    if buf == a
    then some b
    else elim (bufs a) [ none ↦ none | some c ↦ if overlaps buf a c then none else some c ]

-- A new huge page holds zeros.
unfoldable pub zeros : ℕ → List ℕ
zeros zero = []
zeros (suc n) = 0 ∷ zeros n

module _ (env : Env) where
  -- open, lseek, read and close of /proc/self/pagemap are one event; the entry is 0 when they fail.
  unfoldable pub virt_to_phys : (virt : ℕ) → Run ℕ
  virt_to_phys virt w =
      let index = virt / env.pagesize in
      let phy = env.pagemap w.trace index % 2 ^ 64 in
      some (
        (bit_and phy page_number_mask * env.pagesize + virt % env.pagesize) % 2 ^ 64,
        emit (Event.pagemap index phy) w,
      )

  -- open, ftruncate, mmap, mlock, close and unlink of the file /mnt/huge/<pid>_<id> are one event.
  unfoldable pub allocate_dma_address : (size : ℕ) → Run DmaAddress
  allocate_dma_address size = do
    let bytes = round_to_huge_pages size
    w ← get
    let vaddr = env.mmap w.trace bytes
    modify (λ u. record u {
      trace = Event.mmap u.pci_id bytes vaddr ∷ u.trace;
      pci_id = (u.pci_id + 1) % 2 ^ 32;
    })
    phy ← virt_to_phys vaddr
    pure (record { virt_addr = vaddr; phy_addr = phy })

  -- The words of an array that malloc leaves uninitialised.
  unfoldable pub uninit_array : Trace → ℕ → ℕ → List ℕ
  uninit_array t a zero = []
  uninit_array t a (suc n) = env.uninit t a % 2 ^ 32 ∷ uninit_array t (a + 4) n

  -- One round of that loop: the header of buffer i.
  unfoldable pub init_entry : (i entry_size mempool base : ℕ) → Run (Unit {0})
  init_entry i entry_size mempool base = do
    let buf = base + i * entry_size % 2 ^ 32
    phy ← virt_to_phys buf
    let header : PktBuf = record {
      mempool = mempool;
      buf_addr_phy = phy;
      mempool_idx = i;
      size = 0;
      bytes = zeros (entry_size - offsetof_data);
    }
    modify (λ u. record u { bufs = write_header buf header u.bufs })

  -- The loop of allocate_mempool_mem: the array of free indices, and the buffers' headers.
  unfoldable pub init_entries :
      (rounds i entry_size mempool base : ℕ) (stack : List ℕ) → Run (List ℕ)
  init_entries zero i entry_size mempool base stack = pure stack
  init_entries (suc rounds) i entry_size mempool base stack = do
    stack' ← lift (set? stack i i)
    init_entry i entry_size mempool base
    init_entries rounds (i + 1) entry_size mempool base stack'

  -- allocate_mempool_mem. The source assigns `num_entries` twice and never `buf_size`, which keeps
  -- what malloc left there.
  unfoldable pub allocate_mempool_mem : (num_entries entry_size : ℕ) → Run ℕ
  allocate_mempool_mem num_entries entry_size = do
    let entry_size' = if entry_size == 0 then 2048 else entry_size
    w ← get
    let mempool = env.malloc w.trace (sizeof_mempool + num_entries * 4)
    modify (emit (Event.malloc (sizeof_mempool + num_entries * 4) mempool))
    v ← get
    let stack = uninit_array v.trace (mempool + offsetof_free_stack) num_entries
    let buf_size = env.uninit v.trace (mempool + offsetof_buf_size) % 2 ^ 32
    dma_addr ← allocate_dma_address (num_entries * entry_size' % 2 ^ 32)
    stack' ← init_entries num_entries 0 entry_size' mempool dma_addr.virt_addr stack
    modify (λ u. record u {
      pools = update u.pools mempool (
          some (record {
            base_addr = dma_addr.virt_addr;
            buf_size = buf_size;
            num_entries = entry_size';
            free_stack_top = num_entries;
            free_stack = stack';
          }));
    })
    pure mempool
