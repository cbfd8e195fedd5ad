-- ===== src/Sender/Filled.antt =====
-- send/through.c, the two loops of init_mempool: every buffer of the pool is taken, filled and given
-- back.
use mathlib.Core.Path.{subst}
use ixgbe82599_driver.Base.{
  ℕ, ◌+◌, ◌<◌, ◌≡◌, ◌≢◌, refl, sym, ap, ◌∙◌, List, [], ◌∷◌, true, false, some, arith, length, map,
  update, update_self, update_ne, ◌>>=◌, ◌>>◌, ℕ_discrete,
}
use ixgbe82599_driver.Base.Distinct.{has, Distinct, AllBelow}
use ixgbe82599_driver.World.{PktBuf, Mempool, World}
use ixgbe82599_driver.Pool.{buf_at, alloc_pkt_buf}
use ixgbe82599_driver.Pool.Stack.{stack}
use ixgbe82599_driver.Pool.Alloc.{taken}
use ixgbe82599_driver.Pool.Valid.{
  IsValid, with_pool, taken-IsValid, alloc_pkt_buf-IsValid, pkt_buf_free-IsValid,
}
use ixgbe82599_driver.Pool.Free.{given}
use ixgbe82599_driver.Sender.{packet_bytes, init_packet, init_packets, free_bufs}

-- The buffers of a pool stand at different addresses.
abbrev pub Spaced : ℕ → Mempool → Type 0
Spaced n m = (i j : ℕ) → i < n → j < n → buf_at m i ≡ buf_at m j → i ≡ j

-- Buffer i of a pool is `f i`, which names the pool and its index.
pub record Holds (n mempool : ℕ) (f : ℕ → PktBuf) (m : Mempool) (w : World) : Type 0 where
  pub at : (i : ℕ) → i < n → w.bufs (buf_at m i) ≡ some (f i)
  pub pool : (i : ℕ) → i < n → (f i).mempool ≡ mempool
  pub idx : (i : ℕ) → i < n → (f i).mempool_idx ≡ i

-- The pool with all its buffers out.
abbrev pub emptied : Mempool → Mempool
emptied m = record m { free_stack_top = 0 }

module _ (n mempool : ℕ) (packet : List ℕ) (size : ℕ) (contents : ℕ → List ℕ) where
  -- Buffer i once it was filled.
  abbrev pub filled : (ℕ → PktBuf) → ℕ → PktBuf
  filled f i = record (f i) { size = size; bytes = contents i }

  abbrev fill : ℕ → (ℕ → PktBuf) → ℕ → PktBuf
  fill x f = update f x (filled f x)

  -- The world after a round of the first loop.
  abbrev after_fill : (ℕ → PktBuf) → ℕ → Mempool → World → World
  after_fill f x m w = record w {
    pools = update w.pools mempool (some (taken 1 m));
    bufs = update w.bufs (buf_at m x) (some (filled f x));
  }

  Holds-fill :
      (f : ℕ → PktBuf) (x : ℕ) (m : Mempool) (w : World)
      → Spaced n m
      → x < n
      → Holds n mempool f m w
      → Holds n mempool (fill x f) (taken 1 m) (after_fill f x m w)
  Holds-fill f x m w apart lt h = record {
    at = λ i below. elim (ℕ_discrete x i) [
      | yes same ↦ rw (← same) (
          update_self w.bufs (buf_at m x) (some (filled f x))
          ∙ ap some (sym (update_self f x (filled f x))))
      | no ne ↦
          update_ne w.bufs (some (filled f x)) (λ e. ne (apart x i lt below e))
          ∙ h.at i below
          ∙ ap some (sym (update_ne f (filled f x) ne))
    ];
    pool = λ i below. ground (arith, h.pool i below);
    idx = λ i below. ground (arith, h.idx i below);
  }

  -- What a round of the first loop does.
  fill_one :
      (f : ℕ → PktBuf) (x : ℕ) (rest : List ℕ) (m : Mempool) (w : World)
      → Spaced n m
      → (v : IsValid n mempool m w) → Holds n mempool f m w
      → stack m ≡ x ∷ rest
      → 0 < m.free_stack_top
      → packet_bytes packet (f x).bytes ≡ some (contents x)
      → (alloc_pkt_buf mempool w ≡ some (buf_at m x, with_pool v (taken 1 m)))
        × (init_packet packet size (buf_at m x) (with_pool v (taken 1 m))
            ≡ some (tt, after_fill f x m w))
        × IsValid n mempool (taken 1 m) (after_fill f x m w)
        × Holds n mempool (fill x f) (taken 1 m) (after_fill f x m w)
        × (stack (taken 1 m) ≡ rest)
        × (x < n)
        × (has x rest ≡ false)
  unfolding init_packet
  fill_one f x rest m w apart v h e some_free packed =
      let (alloc, left, lt, out) = alloc_pkt_buf-IsValid x rest v e some_free in
      let holds = Holds-fill f x m w apart lt h in
      let old = taken-IsValid v 1 in
      (
        alloc,
        rw (h.at x lt) (rw packed refl),
        record {
          here = old.here;
          array = old.array;
          small = old.small;
          top_le = old.top_le;
          below = old.below;
          distinct = old.distinct;
          header = λ i below. (fill x f i, holds.at i below, holds.pool i below, holds.idx i below);
        },
        holds,
        left,
        lt,
        out,
      )

  pub fill_all : List ℕ → (ℕ → PktBuf) → ℕ → PktBuf
  fill_all [] f = f
  fill_all (x ∷ ids) f = fill_all ids (fill x f)

  fill_all-other :
      (ids : List ℕ) (f : ℕ → PktBuf) (i : ℕ) → has i ids ≡ false → fill_all ids f i ≡ f i
  unfolding fill_all
  fill_all-other [] f i out = refl
  fill_all-other (x ∷ ids) f i out = ground (arith, fill_all-other ids (fill x f) i)

  pub fill_all-has :
      (ids : List ℕ) (f : ℕ → PktBuf) (i : ℕ)
      → Distinct ids
      → has i ids ≡ true
      → fill_all ids f i ≡ filled f i
  unfolding fill_all
  fill_all-has [] f i d h = absurd (ground arith)
  fill_all-has (x ∷ ids) f i d h = elim (ℕ_discrete x i) [
    | yes same ↦ rw (← same) (fill_all-other ids (fill x f) x d.0 ∙ update_self f x (filled f x))
    | no ne ↦
        fill_all-has ids (fill x f) i d.1 (ground (arith, h, ne))
        ∙ ap (λ (b : PktBuf). record b { size = size; bytes = contents i })
            (update_ne f (filled f x) ne)
  ]

  pub init_packets_lem :
      (ids : List ℕ) (f : ℕ → PktBuf) (m : Mempool) (w : World)
      → Spaced n m
      → IsValid n mempool m w
      → Holds n mempool f m w
      → stack m ≡ ids
      → m.free_stack_top ≡ length ids
      → ((i : ℕ) → has i ids ≡ true → packet_bytes packet (f i).bytes ≡ some (contents i))
      → (w' : World) × (init_packets (length ids) mempool packet size w
          ≡ some (map (buf_at m) ids, w'))
        × IsValid n mempool (emptied m) w'
        × Holds n mempool (fill_all ids f) (emptied m) w'
  unfolding init_packets fill_all
  init_packets_lem [] f m w apart v h e top packed =
      let same : m ≡ emptied m = ap (λ t. record m { free_stack_top = t }) top in
      (
        w,
        refl,
        subst (λ u. IsValid n mempool u w) same v,
        subst (λ u. Holds n mempool f u w) same h,
      )
  init_packets_lem (x ∷ ids) f m w apart v h e top packed =
      let (alloc, init, valid, holds, left, lt, out) =
        fill_one f x ids m w apart v h e (omega arith) (packed x (ground arith)) in
      let left_packed = λ (i : ℕ) (more : has i ids ≡ true).
        (let ne : x ≢ i = ground (arith, out, more) in
          ap (λ (b : PktBuf). packet_bytes packet b.bytes) (update_ne f (filled f x) ne)
          ∙ packed i (ground (arith, more))) in
      let (w', rest, valid', holds') =
        init_packets_lem ids (fill x f) (taken 1 m) (after_fill f x m w) apart valid holds left
          (omega arith) left_packed in
      (w', rw (alloc, ◌>>=◌) (rw (init, ◌>>=◌) (rw (rest, ◌>>=◌) refl)), valid', holds')

-- The pool once the buffers were given back.
pub given_all : List ℕ → Mempool → Mempool
given_all [] m = m
given_all (x ∷ ids) m = given_all ids (given x m)

pub given_all-place :
    (ids : List ℕ) (m : Mempool)
    → ((given_all ids m).base_addr ≡ m.base_addr)
      × ((given_all ids m).buf_size ≡ m.buf_size)
      × ((given_all ids m).free_stack_top ≡ length ids + m.free_stack_top)
unfolding given_all
given_all-place [] m = (refl, refl, omega arith)
given_all-place (x ∷ ids) m =
    let (base, size, top) = given_all-place ids (given x m) in (base, size, omega (arith, top))

-- Buffers that are out, all of them different, are given back.
pub free_bufs_lem :
    {n mempool : ℕ} (ids : List ℕ) (m : Mempool) (w : World)
    → IsValid n mempool m w
    → Distinct ids
    → AllBelow n ids
    → ((i : ℕ) → has i ids ≡ true → has i (stack m) ≡ false)
    → (w' : World) × (free_bufs (map (buf_at m) ids) w ≡ some (tt, w'))
      × IsValid n mempool (given_all ids m) w'
      × (w'.bufs ≡ w.bufs)
unfolding free_bufs given_all
free_bufs_lem [] m w v d below out = (w, refl, v, refl)
free_bufs_lem (x ∷ ids) m w v d below out =
    let (done, valid, pushed) = pkt_buf_free-IsValid v x below.0 (out x (ground arith)) in
    let still_out : (i : ℕ) → has i ids ≡ true → has i (stack (given x m)) ≡ false = λ i more.
      let ne : x ≢ i = ground (arith, d.0, more) in
      let before : has i (stack m) ≡ false = out i (ground (arith, more)) in
      rw pushed (ground (arith, before, ne)) in
    let (w', rest, valid', same) =
      free_bufs_lem ids (given x m) (with_pool v (given x m)) valid d.1 below.1 still_out in
    (w', rw (done, ◌>>=◌, ◌>>◌) rest, valid', same)
