-- ===== src/Dma/NewPool.antt =====
-- The pool that allocate_mempool_mem returns.
use ixgbe82599_driver.Base.{
  ◌∙◌, map, replicate, drop, take, min, length-take, ◌++◌, ℕ, zero, suc, ◌+◌, ◌-◌, ◌*◌, ◌%◌, ◌^◌,
  ◌≤◌, ◌<◌, ◌≡◌, refl, List, [], ◌∷◌, some, arith, length, get_or, update, update_self, ap, ◌>>=◌,
  ◌==◌, if◌then◌else◌,
}
use ixgbe82599_driver.Base.Countdown.{down_from, Distinct-down_from, AllBelow-down_from}
use ixgbe82599_driver.Pool.{buf_at, alloc_pkt_buf_batch}
use ixgbe82599_driver.Pool.Alloc.{taken, next_bufs, alloc_pkt_buf_batch_lem}
use ixgbe82599_driver.Pool.Valid.{IsValid, HasHeader}
use ixgbe82599_driver.World.{Event, Env, PktBuf, Mempool, DmaAddress, World, emit}
use ixgbe82599_driver.Pool.Stack.{stack, length-stack_of, stack_of}
use ixgbe82599_driver.Dma.{
  virt_to_phys, allocate_dma_address, uninit_array, allocate_mempool_mem, sizeof_mempool,
  offsetof_buf_size, offsetof_free_stack, offsetof_data, sizeof_header, zeros,
}
use ixgbe82599_driver.Dma.Entries.{Entries, init_entries-Entries}

stack_of-down_from :
    (s : List ℕ) (n : ℕ) → ((j : ℕ) → j < n → get_or s j 0 ≡ j) → stack_of s n ≡ down_from n
stack_of-down_from s zero h = refl
stack_of-down_from s (suc n) h =
    rw (h n (omega arith), stack_of-down_from s n (λ j k. h j (omega arith)))

-- The size of an entry that is asked for: 0 stands for 2048.
abbrev pub entry_size_of : ℕ → ℕ
entry_size_of entry_size = if entry_size == 0 then 2048 else entry_size

map-buf_at_zero :
    (m : Mempool) (ids : List ℕ)
    → m.buf_size ≡ 0
    → map (buf_at m) ids ≡ replicate (length ids) m.base_addr
map-buf_at_zero m [] h = refl
map-buf_at_zero m (x ∷ ids) h = ground (arith, map-buf_at_zero m ids h)

module _ (env : Env) where
  -- Where malloc puts the pool, and what it leaves in the place of buf_size.
  abbrev pub pool_address : World → ℕ → ℕ
  pool_address w num_entries = env.malloc w.trace (sizeof_mempool + num_entries * 4)

  abbrev pub stale_buf_size : World → ℕ → ℕ
  stale_buf_size w num_entries =
      let mempool = pool_address w num_entries in
      env.uninit (Event.malloc (sizeof_mempool + num_entries * 4) mempool ∷ w.trace)
        (mempool + offsetof_buf_size)
      % 2 ^ 32

  length-uninit_array : (t : List Event) (a n : ℕ) → length (uninit_array env t a n) ≡ n
  unfolding uninit_array
  length-uninit_array t a zero = refl
  length-uninit_array t a (suc n) = ap suc (length-uninit_array t (a + 4) n)

  allocate_dma_address-pools :
      (size : ℕ) (w : World)
      → (d : DmaAddress) × (w' : World) × (allocate_dma_address env size w ≡ some (d, w'))
  unfolding allocate_dma_address virt_to_phys
  allocate_dma_address-pools size w = (_, _, refl)

  -- What allocate_mempool_mem leaves behind.
  record NewPool (num_entries entry_size : ℕ) (w w' : World) (m : Mempool) : Type 0 where
    run : allocate_mempool_mem env num_entries entry_size w ≡ some (pool_address w num_entries, w')
    here : w'.pools (pool_address w num_entries) ≡ some m
    stale : m.buf_size ≡ stale_buf_size w num_entries
    entries : m.num_entries ≡ entry_size_of entry_size
    top : m.free_stack_top ≡ num_entries
    done :
        (s : List ℕ) × (u u' : World) × (length s ≡ num_entries)
        × (u'.bufs ≡ w'.bufs)
        × Entries
            (entry_size_of entry_size)
            (pool_address w num_entries)
            m.base_addr
            0
            num_entries
            s
            m.free_stack
            u
            u'

  new_pool :
      (num_entries entry_size : ℕ) (w : World)
      → num_entries * entry_size_of entry_size < 2 ^ 32
      → (w' : World) × (m : Mempool) × NewPool num_entries entry_size w w' m
  unfolding allocate_mempool_mem
  new_pool n es w fit =
      let w1 = emit (Event.malloc (sizeof_mempool + n * 4) (pool_address w n)) w in
      let (d, w2, dma) = allocate_dma_address-pools (n * entry_size_of es % 2 ^ 32) w1 in
      let s0 = uninit_array env w1.trace (pool_address w n + offsetof_free_stack) n in
      let len = length-uninit_array w1.trace (pool_address w n + offsetof_free_stack) n in
      let (s, w3, loop, done) =
        init_entries-Entries env (entry_size_of es) (pool_address w n) d.virt_addr n n 0 s0 w2
          (ground arith) (omega arith) (omega arith) len in
      let m : Mempool = record {
        base_addr = d.virt_addr;
        buf_size = stale_buf_size w n;
        num_entries = entry_size_of es;
        free_stack_top = n;
        free_stack = s;
      } in
      (
        record w3 { pools = update w3.pools (pool_address w n) (some m) },
        m,
        record {
          run = rw (dma, allocate_mempool_mem, ◌>>=◌) (rw (loop, ◌>>=◌) refl);
          here = update_self w3.pools (pool_address w n) (some m);
          stale = refl;
          entries = refl;
          top = refl;
          done = (s0, w2, w3, len, refl, done);
        },
      )

  NewPool-stack :
      {n es : ℕ} {w w' : World} {m : Mempool} → NewPool n es w w' m → stack m ≡ down_from n
  NewPool-stack {n} {m} p =
      let (s, u, u', len, same, made) = p.done in
      rw (p.top) (stack_of-down_from m.free_stack n (λ j k. made.index j (omega arith) k))

  NewPool-header :
      {n es : ℕ} {w w' : World} {m : Mempool}
      → NewPool n es w w' m
      → sizeof_header ≤ entry_size_of es
      → m.buf_size ≡ entry_size_of es
      → (j : ℕ) → j < n
      → HasHeader (pool_address w n) m w' j
  NewPool-header {m} p room size j k =
      let (s, u, u', len, same, made) = p.done in
      let (b, at, pool, idx, empty, zero_bytes) = made.header room j (omega arith) k in
      (b, rw (size, ← same) at, pool, idx)

  NewPool-zeros :
      {n es : ℕ} {w w' : World} {m : Mempool}
      → NewPool n es w w' m
      → sizeof_header ≤ entry_size_of es
      → m.buf_size ≡ entry_size_of es
      → (j : ℕ) → j < n
      → (b : PktBuf) × (w'.bufs (buf_at m j) ≡ some b)
        × (b.bytes ≡ zeros (entry_size_of es - offsetof_data))
  NewPool-zeros p room size j k =
      let (s, u, u', len, same, made) = p.done in
      let (b, at, pool, idx, empty, zero_bytes) = made.header room j (omega arith) k in
      (b, rw (size, ← same) at, zero_bytes)

  NewPool-IsValid :
      {n es : ℕ} {w w' : World} {m : Mempool} (p : NewPool n es w w' m)
      → n < 2 ^ 32
      → sizeof_header ≤ entry_size_of es
      → stale_buf_size w n ≡ entry_size_of es
      → IsValid n (pool_address w n) m w'
  NewPool-IsValid {n} p small room lucky =
      let (s, u, u', len, same, made) = p.done in
      record {
        here = p.here;
        array = made.size ∙ len;
        small = small;
        top_le = omega (arith, p.top);
        below = rw (NewPool-stack p) (AllBelow-down_from n n (omega arith));
        distinct = rw (NewPool-stack p) (Distinct-down_from n);
        header = NewPool-header p room (p.stale ∙ lucky);
      }

  -- If malloc happens to leave the size of an entry in the place of buf_size, which the function
  -- does not write, an entry has room for the 24 bytes of a header, and the number and the memory
  -- of the buffers fit into 32 bits, then
  -- allocate_mempool_mem succeeds and returns a valid pool with all its buffers free, the last
  -- one on the top of the stack.
  pub allocate_mempool_mem-IsValid :
      (num_entries entry_size : ℕ) (w : World)
      → num_entries < 2 ^ 32
      → num_entries * entry_size_of entry_size < 2 ^ 32
      → sizeof_header ≤ entry_size_of entry_size
      → stale_buf_size w num_entries ≡ entry_size_of entry_size
      → (w' : World) × (m : Mempool) × (allocate_mempool_mem env num_entries entry_size w
          ≡ some (pool_address w num_entries, w'))
        × IsValid num_entries (pool_address w num_entries) m w'
        × (stack m ≡ down_from num_entries)
  allocate_mempool_mem-IsValid n es w small fit room lucky =
      let (w', m, p) = new_pool n es w fit in
      (w', m, p.run, NewPool-IsValid p small room lucky, NewPool-stack p)

  -- The same pool, and its buffers: they stand at the size of an entry, and hold zeros.
  pub allocate_mempool_mem-zeros :
      (num_entries entry_size : ℕ) (w : World)
      → num_entries < 2 ^ 32
      → num_entries * entry_size_of entry_size < 2 ^ 32
      → sizeof_header ≤ entry_size_of entry_size
      → stale_buf_size w num_entries ≡ entry_size_of entry_size
      → (w' : World) × (m : Mempool) × (allocate_mempool_mem env num_entries entry_size w
          ≡ some (pool_address w num_entries, w'))
        × IsValid num_entries (pool_address w num_entries) m w'
        × (m.buf_size ≡ entry_size_of entry_size)
        × (stack m ≡ down_from num_entries)
        × ((j : ℕ)
            → j < num_entries
            → (b : PktBuf) × (w'.bufs (buf_at m j) ≡ some b)
              × (b.bytes ≡ zeros (entry_size_of entry_size - offsetof_data)))
  allocate_mempool_mem-zeros n es w small fit room lucky =
      let (w', m, p) = new_pool n es w fit in
      let size = p.stale ∙ lucky in
      (
        w',
        m,
        p.run,
        NewPool-IsValid p small room lucky,
        size,
        NewPool-stack p,
        NewPool-zeros p room size,
      )

  -- While the memory of the buffers fits into 32 bits, allocate_mempool_mem succeeds without
  -- writing buf_size: the new pool has whatever malloc left there, and its num_entries is the
  -- size of an entry instead of the number of the buffers.
  pub allocate_mempool_mem-stale :
      (num_entries entry_size : ℕ) (w : World)
      → num_entries * entry_size_of entry_size < 2 ^ 32
      → (w' : World) × (m : Mempool) × (allocate_mempool_mem env num_entries entry_size w
          ≡ some (pool_address w num_entries, w'))
        × (w'.pools (pool_address w num_entries) ≡ some m)
        × (m.buf_size ≡ stale_buf_size w num_entries)
        × (m.num_entries ≡ entry_size_of entry_size)
  allocate_mempool_mem-stale n es w fit =
      let (w', m, p) = new_pool n es w fit in (w', m, p.run, p.here, p.stale, p.entries)

  -- If malloc left a zero in the place of buf_size, and the number and the memory of the buffers
  -- fit into 32 bits, every batch of at most num_entries buffers that is taken from the new pool
  -- consists of copies of one pointer.
  pub alloc_pkt_buf_batch-one_address :
      (num_entries entry_size num_bufs : ℕ) (buf : List ℕ) (w : World)
      → num_entries < 2 ^ 32
      → num_entries * entry_size_of entry_size < 2 ^ 32
      → stale_buf_size w num_entries ≡ 0
      → num_bufs ≤ num_entries
      → num_bufs ≤ length buf
      → (base : ℕ) × (w' : World) × ((do
        pool ← allocate_mempool_mem env num_entries entry_size
        alloc_pkt_buf_batch pool buf num_bufs)
            w
          ≡ some ((num_bufs, replicate num_bufs base ++ drop num_bufs buf), w'))
  alloc_pkt_buf_batch-one_address n es k buf w small fit zeroed enough room =
      let (w', m, p) = new_pool n es w fit in
      let (s, u, u', len, same, made) = p.done in
      let got =
        alloc_pkt_buf_batch_lem w' (pool_address w n) buf k m p.here
          (omega (arith, p.top, made.size, len)) (ground (arith, p.top)) in
      let all : min k m.free_stack_top ≡ k = omega (arith, p.top) in
      let size : length (take k (stack m)) ≡ k = omega (
        arith,
        length-take {0} k (stack m),
        length-stack_of m.free_stack m.free_stack_top,
        p.top,
      ) in
      let same_bufs : next_bufs k m ≡ replicate k m.base_addr =
        map-buf_at_zero m (take k (stack m)) (p.stale ∙ zeroed)
        ∙ ap (λ i. replicate i m.base_addr) size in
      (
        m.base_addr,
        record w' { pools = update w'.pools (pool_address w n) (some (taken k m)) },
        rw (p.run, ◌>>=◌) (rw all at (got.0) ∙ rw same_bufs refl),
      )
