-- ===== src/Sender/NewPackets.antt =====
-- send/through.c: the pool that init_mempool returns.
use ixgbe82599_driver.Base.{
  ℕ, ◌<◌, ◌≡◌, refl, ap, sym, ◌∙◌, List, [], Option, none, some, arith, length, map, pure, ◌>>=◌,
  ◌>>◌, bind-some,
}
use ixgbe82599_driver.Base.Distinct.{AllBelow-has}
use ixgbe82599_driver.World.{PktBuf, Mempool, World}
use ixgbe82599_driver.Pool.{buf_at}
use ixgbe82599_driver.Pool.Stack.{stack, length-stack_of}
use ixgbe82599_driver.Pool.Valid.{IsValid}
use ixgbe82599_driver.Base.Countdown.{down_from, has-down_from_below, length-down_from}
use ixgbe82599_driver.Sender.{packet_bytes, init_packets, free_bufs}
use ixgbe82599_driver.Sender.Filled.{
  Spaced, Holds, fill_all, fill_all-has, init_packets_lem, emptied, given_all, given_all-place,
  free_bufs_lem,
}

abbrev buf_or : PktBuf → Option PktBuf → PktBuf
buf_or d none = d
buf_or d (some b) = b

abbrev no_buf : PktBuf
no_buf = record { mempool = 0; buf_addr_phy = 0; mempool_idx = 0; size = 0; bytes = [] }

-- Buffer i of a pool.
abbrev pub buf_of : Mempool → World → ℕ → PktBuf
buf_of m w i = buf_or no_buf (w.bufs (buf_at m i))

IsValid-Holds :
    {n mempool : ℕ} {m : Mempool} {w : World}
    → IsValid n mempool m w
    → Holds n mempool (buf_of m w) m w
IsValid-Holds v = record {
  at = λ i lt. let (b, at, pool, idx) = v.header i lt in rw at refl;
  pool = λ i lt. let (b, at, pool, idx) = v.header i lt in rw at pool;
  idx = λ i lt. let (b, at, pool, idx) = v.header i lt in rw at idx;
}

-- Buffer i has these bytes, and the size.
abbrev pub Carries : (size : ℕ) → List ℕ → Mempool → World → ℕ → Type 0
Carries size bytes m w i =
    (b : PktBuf) × (w.bufs (buf_at m i) ≡ some b) × (b.size ≡ size) × (b.bytes ≡ bytes)

module _ (n mempool : ℕ) (packet : List ℕ) (size : ℕ) (contents : ℕ → List ℕ) where
  -- The two loops of init_mempool, on a valid pool of which all buffers are free.
  pub fill_pool_lem :
      (m : Mempool) (w : World)
      → IsValid n mempool m w
      → Spaced n m
      → stack m ≡ down_from n
      → ((i : ℕ) → i < n → packet_bytes packet (buf_of m w i).bytes ≡ some (contents i))
      → (w' : World) × (m' : Mempool) × ((do
        bufs ← init_packets n mempool packet size
        free_bufs bufs
        pure mempool)
            w
          ≡ some (mempool, w'))
        × IsValid n mempool m' w'
        × (m'.free_stack_top ≡ n)
        × ((i : ℕ) → i < n → Carries size (contents i) m' w' i)
  fill_pool_lem m w v apart e packed =
      let ids = stack m in
      let len : length ids ≡ n = ap length e ∙ length-down_from n in
      let top : m.free_stack_top ≡ length ids =
        sym (length-stack_of m.free_stack m.free_stack_top) in
      let f = buf_of m w in
      let (w1, taken_all, valid1, holds1) =
        init_packets_lem n mempool packet size contents ids f m w apart v (IsValid-Holds v) refl top
          (λ i h. packed i (AllBelow-has n i ids v.below h)) in
      let (w2, freed, valid2, same) =
        free_bufs_lem ids (emptied m) w1 valid1 v.distinct v.below (λ i h. refl) in
      let (base, buf_size, top2) = given_all-place ids (emptied m) in
      let first : init_packets n mempool packet size w ≡ some (map (buf_at m) ids, w1) =
        ap (λ k. init_packets k mempool packet size w) (sym len) ∙ taken_all in
      let m2 = given_all ids (emptied m) in
      let place : (i : ℕ) → buf_at m2 i ≡ buf_at m i = λ i. rw (base, buf_size) refl in
      let run =
        bind-some (init_packets n mempool packet size) (λ bufs. free_bufs bufs >> pure mempool)
          first
        ∙ bind-some (free_bufs (map (buf_at m) ids)) (λ _. pure mempool) freed in
      let carries : (i : ℕ) → i < n → Carries size (contents i) m2 w2 i = λ i lt.
        let full =
          fill_all-has n mempool packet size contents ids f i v.distinct
            (rw e (has-down_from_below i n lt)) in
        (
          fill_all n mempool packet size contents ids f i,
          ap w2.bufs (place i)
              ∙ ap (λ (g : ℕ → Option PktBuf). g (buf_at m i)) same
              ∙ holds1.at i lt,
          ap (λ (b : PktBuf). b.size) full,
          ap (λ (b : PktBuf). b.bytes) full,
        ) in
      (w2, m2, run, valid2, omega (arith, top2, len), carries)
