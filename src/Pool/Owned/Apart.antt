-- ===== src/Pool/Owned/Apart.antt =====
-- The addresses of the buffers that are out of a pool.
use native.Mathlib.Nat.{mul-lt-mul_of_pos_right, eq_of_mul-eq-mul_right}
use ixgbe82599_driver.Base.{
  ℕ, ◌+◌, ◌*◌, ◌^◌, ◌≤◌, ◌<◌, ◌≡◌, refl, ap, ◌∙◌, List, [], ◌∷◌, true, false, some, arith, length,
  map, ltb, if◌then◌else◌, length-map, ◌==◌, ==_iff, Bool-cases, inl, inr, lt→ltb, dec_lt,
}
use ixgbe82599_driver.Base.Distinct.{has, Distinct, AllBelow}
use ixgbe82599_driver.Base.Count.{
  count, count-tail, count_self, count_all, Distinct-count, AllBelow-count,
}
use ixgbe82599_driver.World.{Mempool, World}
use ixgbe82599_driver.Pool.{buf_at, pkt_buf_free}
use ixgbe82599_driver.Pool.Stack.{stack, length-stack_of}
use ixgbe82599_driver.Pool.Valid.{IsValid}
use ixgbe82599_driver.Pool.Owned.{State, Reach}
use ixgbe82599_driver.Pool.Owned.Shared.{Shared, Reach-Shared, free_id}

ids-Distinct :
    (n : ℕ) (ids xs : List ℕ)
    → ((a : ℕ) → count a ids + count a xs ≡ (if ltb a n then 1 else 0))
    → Distinct ids
ids-Distinct n ids xs once = Distinct-count ids (λ a. ground (arith, once a))

ids-AllBelow :
    (n : ℕ) (ids xs : List ℕ)
    → ((a : ℕ) → count a ids + count a xs ≡ (if ltb a n then 1 else 0))
    → AllBelow n ids
ids-AllBelow n ids xs once = AllBelow-count n ids (λ a ge. ground (arith, once a))

-- Different indices below n, and entries that fit into 32 bits: different addresses.
buf_at-injective :
    (m : Mempool) (n i j : ℕ)
    → 0 < m.buf_size
    → n * m.buf_size ≤ 2 ^ 32
    → i < n
    → j < n
    → buf_at m i ≡ buf_at m j
    → i ≡ j
buf_at-injective m n i j some_bytes room lti ltj e =
    eq_of_mul-eq-mul_right m.buf_size some_bytes i j (
      omega (arith, mul-lt-mul_of_pos_right lti some_bytes, mul-lt-mul_of_pos_right ltj some_bytes))

has-map :
    (m : Mempool) (n i : ℕ) (ids : List ℕ)
    → 0 < m.buf_size
    → n * m.buf_size ≤ 2 ^ 32
    → i < n
    → AllBelow n ids
    → has i ids ≡ false
    → has (buf_at m i) (map (buf_at m) ids) ≡ false
has-map m n i [] some_bytes room lt b h = refl
has-map m n i (j ∷ ids) some_bytes room lt b h = ground (
  arith,
  b.0,
  buf_at-injective m n i j some_bytes room lt b.0,
  has-map m n i ids some_bytes room lt b.1,
)

Distinct-map :
    (m : Mempool) (n : ℕ) (ids : List ℕ)
    → 0 < m.buf_size
    → n * m.buf_size ≤ 2 ^ 32
    → AllBelow n ids
    → Distinct ids
    → Distinct (map (buf_at m) ids)
Distinct-map m n [] some_bytes room b d = tt
Distinct-map m n (i ∷ ids) some_bytes room b d =
    (has-map m n i ids some_bytes room b.0 b.1 d.0, Distinct-map m n ids some_bytes room b.1 d.1)

-- A buffer is as often among the addresses as its index is among the indices.
count-map :
    (m : Mempool) (n a : ℕ) (ids : List ℕ)
    → 0 < m.buf_size
    → n * m.buf_size ≤ 2 ^ 32
    → a < n
    → AllBelow n ids
    → count (buf_at m a) (map (buf_at m) ids) ≡ count a ids
unfolding count
count-map m n a [] some_bytes room lt b = refl
count-map m n a (i ∷ ids) some_bytes room lt b = ground (
  arith,
  buf_at-injective m n a i some_bytes room lt b.0,
  count-map m n a ids some_bytes room lt b.1,
)

-- A new pool has its buffers on the stack.
new-Shared :
    (n mempool : ℕ) (m : Mempool) (w : World)
    → IsValid n mempool m w
    → m.free_stack_top ≡ n
    → Shared n mempool m.base_addr m.buf_size (record { world = w; out = [] })
unfolding count
new-Shared n mempool m w v full = record {
  pool = m;
  valid = v;
  base_at = refl;
  size_is = refl;
  ids = [];
  held = refl;
  all = omega (arith, full);
  once = λ a. omega (
    arith,
    count_all n a (stack m) v.distinct v.below
        (length-stack_of m.free_stack m.free_stack_top ∙ full),
  );
}

-- A buffer that is out is the one of some index.
held_index :
    (m : Mempool) (ids : List ℕ) (buf : ℕ)
    → has buf (map (buf_at m) ids) ≡ true
    → (id : ℕ) × (buf ≡ buf_at m id) × (0 < count id ids)
unfolding count
held_index m [] buf h = absurd (cc h)
held_index m (i ∷ ids) buf h = elim (Bool-cases (buf == buf_at m i)) [
  | inl same ↦ (i, (==_iff buf (buf_at m i)).0 same, omega (arith, count_self i ids))
  | inr other ↦
      let (id, at, some_of) = held_index m ids buf (ground (arith, h, other)) in
      (id, at, omega (arith, some_of, count-tail id i ids))
]

-- Whatever calls of alloc_pkt_buf_batch and pkt_buf_free are made in whatever order on a pool that
-- starts with all its n buffers free, of a size that is not 0 and at most 2^32 bytes together, by
-- clients that free only what they hold, write only the size and the bytes of a buffer, and ask for
-- no more buffers than their array holds: the pool stays valid, with its base and its size of a
-- buffer; each of its n buffers is either out or free, once; every address that is out is that of
-- one of these n, no two are the same, they are as many as the stack lacks, and each of them can be
-- freed.
pub Reach-Distinct :
    (n mempool : ℕ) (m : Mempool) (w : World) (s : State)
    → IsValid n mempool m w
    → m.free_stack_top ≡ n
    → 0 < m.buf_size
    → n * m.buf_size ≤ 2 ^ 32
    → Reach mempool (record { world = w; out = [] }) s
    → (m' : Mempool) × IsValid n mempool m' s.world
      × (m'.base_addr ≡ m.base_addr)
      × (m'.buf_size ≡ m.buf_size)
      × Distinct s.out
      × (length s.out + m'.free_stack_top ≡ n)
      × ((id : ℕ) → id < n → count (buf_at m' id) s.out + count id (stack m') ≡ 1)
      × ((buf : ℕ)
          → has buf s.out ≡ true
          → (id : ℕ) × (id < n)
            × (buf ≡ buf_at m' id)
            × (w' : World) × (pkt_buf_free buf s.world ≡ some (tt, w')))
Reach-Distinct n mempool m w s v full some_bytes room r =
    let h = Reach-Shared r (new-Shared n mempool m w v full) in
    let p = h.pool in
    let below = ids-AllBelow n h.ids (stack p) h.once in
    (
      p,
      h.valid,
      h.base_at,
      h.size_is,
      rw h.held (
          Distinct-map p n h.ids (rw h.size_is some_bytes) (rw h.size_is room) below
            (ids-Distinct n h.ids (stack p) h.once)),
      omega (arith, h.all, ap length h.held, length-map (buf_at p) h.ids),
      λ id lt.
          rw
            (
              h.held,
              count-map p n id h.ids (rw h.size_is some_bytes) (rw h.size_is room) lt below,
              h.once id,
              lt→ltb id n lt,
            )
            refl,
      λ buf out.
          let (id, at, some_of) = held_index p h.ids buf (rw h.held at out) in
          (
            id,
            elim (dec_lt id n) [
              | yes lt ↦ lt
              | no ge ↦ absurd (ground (arith, h.once id, some_of))
            ],
            at,
            _,
            ap (λ b. pkt_buf_free b s.world) at ∙ (free_id h id some_of).0,
          ),
    )
