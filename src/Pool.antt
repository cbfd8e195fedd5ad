-- ===== src/Pool.antt =====
-- send/lib.c: the memory pool. A free buffer is named by its index, and the indices of the free
-- buffers are a stack in the array `free_stack`, with its top at `free_stack_top`.
pub mod Stack
pub mod Alloc
pub mod Free
pub mod Valid
pub mod Owned
use ixgbe82599_driver.Base.{
  ℕ, zero, suc, ◌+◌, ◌-◌, ◌*◌, ◌%◌, ◌^◌, List, [], ◌∷◌, Option, none, some, ltb, if◌then◌else◌,
  get_elem?, set?, update,
}
use ixgbe82599_driver.World.{Mempool, Run}

-- `--n` and `n++` of a uint32_t.
abbrev pub decrement32 : ℕ → ℕ
decrement32 n = (n + 2 ^ 32 - 1) % 2 ^ 32

abbrev pub increment32 : ℕ → ℕ
increment32 n = (n + 1) % 2 ^ 32

-- `(uint8_t *)base_addr + entry_id * buf_size`: the product is one of uint32_t.
abbrev pub buf_at : Mempool → ℕ → ℕ
buf_at m entry_id = m.base_addr + entry_id * m.buf_size % 2 ^ 32

-- `free_stack[--free_stack_top]`; none for a read outside the array.
unfoldable pub pop : Mempool → Option (ℕ × Mempool)
pop m =
    let top = decrement32 m.free_stack_top in
    elim (get_elem? m.free_stack top) [
      | none ↦ none
      | some entry_id ↦ some (entry_id, record m { free_stack_top = top })
    ]

-- `free_stack[free_stack_top++] = entry_id`; none for a write outside the array.
unfoldable pub push : ℕ → Mempool → Option Mempool
push entry_id m = elim (set? m.free_stack m.free_stack_top entry_id) [
  | none ↦ none
  | some stack ↦
      some (record m { free_stack_top = increment32 m.free_stack_top; free_stack = stack })
]

-- The loop of alloc_pkt_buf_batch, with the rounds left: the pool, and the caller's array.
unfoldable pub alloc_loop : (rounds i : ℕ) → Mempool → List ℕ → Option (Mempool × List ℕ)
alloc_loop zero i m buf = some (m, buf)
alloc_loop (suc rounds) i m buf = elim (pop m) [
  | none ↦ none
  | some (entry_id, m') ↦ elim (set? buf i (buf_at m' entry_id)) [
    | none ↦ none
    | some buf' ↦ alloc_loop rounds (i + 1) m' buf'
  ]
]

-- The number of buffers that a request for `num_bufs` gets.
abbrev pub granted : Mempool → ℕ → ℕ
granted m num_bufs = if ltb m.free_stack_top num_bufs then m.free_stack_top else num_bufs

-- alloc_pkt_buf_batch: the count that it returns, and the array as it leaves it.
unfoldable pub alloc_pkt_buf_batch : (mempool : ℕ) (buf : List ℕ) (num_bufs : ℕ) → Run (ℕ × List ℕ)
alloc_pkt_buf_batch mempool buf num_bufs w = elim (w.pools mempool) [
  | none ↦ none
  | some m ↦ elim (alloc_loop (granted m num_bufs) 0 m buf) [
    | none ↦ none
    | some (m', buf') ↦
        some ((granted m num_bufs, buf'), record w { pools = update w.pools mempool (some m') })
  ]
]

abbrev pub null : ℕ
null = 0

-- alloc_pkt_buf: an array of one pointer, which stays NULL if the pool is empty.
unfoldable pub alloc_pkt_buf : (mempool : ℕ) → Run ℕ
alloc_pkt_buf mempool w = elim (alloc_pkt_buf_batch mempool (null ∷ []) 1 w) [
  | none ↦ none
  | some ((_, pb ∷ _), w') ↦ some (pb, w')
  | some ((_, []), w') ↦ none
]

-- pkt_buf_free of lib.c; buf_free of through.c has the same body.
unfoldable pub pkt_buf_free : (buf : ℕ) → Run (Unit {0})
pkt_buf_free buf w = elim (w.bufs buf) [
  | none ↦ none
  | some b ↦ elim (w.pools b.mempool) [
    | none ↦ none
    | some m ↦ elim (push b.mempool_idx m) [
      | none ↦ none
      | some m' ↦ some (tt, record w { pools = update w.pools b.mempool (some m') })
    ]
  ]
]
