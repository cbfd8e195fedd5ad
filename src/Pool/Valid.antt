-- ===== src/Pool/Valid.antt =====
-- The invariant of a pool whose buffers are in their places, and what keeps it.
use ixgbe82599_driver.Base.{
  ℕ, ◌-◌, ◌^◌, ◌≤◌, ◌<◌, ◌≡◌, refl, List, ◌∷◌, ◌++◌, true, false, some, arith, length, take, drop,
  map, min, update, ◌∙◌, get_or, update-update, ◌>>=◌, suc, update_self, length-set, ap,
}
use ixgbe82599_driver.Base.Distinct.{
  has, Distinct, AllBelow, AllBelow-drop, Distinct-drop, has-take-drop, length-le, Distinct-take,
}
use ixgbe82599_driver.World.{PktBuf, Mempool, World}
use ixgbe82599_driver.Pool.{buf_at, granted, alloc_pkt_buf_batch, alloc_pkt_buf, pkt_buf_free}
use ixgbe82599_driver.Pool.Stack.{stack_of, Fits, stack, stack_of-drop, length-stack_of}
use ixgbe82599_driver.Pool.Alloc.{alloc_pkt_buf_lem, taken, alloc_pkt_buf_batch_lem}
use ixgbe82599_driver.Pool.Free.{given, pkt_buf_free_lem, stack-given}

-- The header of buffer entry_id names its pool and its index.
abbrev pub HasHeader : ℕ → Mempool → World → ℕ → Type 0
HasHeader mempool m w entry_id =
    (b : PktBuf) × (w.bufs (buf_at m entry_id) ≡ some b)
    × (b.mempool ≡ mempool)
    × (b.mempool_idx ≡ entry_id)

-- Pool m of n buffers stands at `mempool`; the free indices are different and below n.
pub record IsValid (n mempool : ℕ) (m : Mempool) (w : World) : Type 0 where
  pub here : w.pools mempool ≡ some m
  pub array : length m.free_stack ≡ n
  pub small : n < 2 ^ 32
  pub top_le : m.free_stack_top ≤ n
  pub below : AllBelow n (stack m)
  pub distinct : Distinct (stack m)
  pub header : (entry_id : ℕ) → entry_id < n → HasHeader mempool m w entry_id

module _ {n mempool : ℕ} {m : Mempool} {w : World} (v : IsValid n mempool m w) where
  pub fits : Fits m
  fits = omega (arith, v.array, v.small, v.top_le)

  -- The world with this pool changed.
  abbrev pub with_pool : Mempool → World
  with_pool m' = record w { pools = update w.pools mempool (some m') }

  pub taken-IsValid : (k : ℕ) → IsValid n mempool (taken k m) (with_pool (taken k m))
  taken-IsValid k =
      let rest = stack_of-drop m.free_stack k m.free_stack_top in
      record {
        here = update_self w.pools mempool (some (taken k m));
        array = v.array;
        small = v.small;
        top_le = omega (arith, v.top_le);
        below = rw rest (AllBelow-drop k n (stack m) v.below);
        distinct = rw rest (Distinct-drop k (stack m) v.distinct);
        header = v.header;
      }

  -- From a valid pool, with room for them in the caller's array, alloc_pkt_buf_batch hands out
  -- min(num_bufs, free buffers) buffers from the top of the stack. Their indices are different,
  -- none of them is still free, and the pool stays valid.
  pub alloc_pkt_buf_batch-IsValid :
      (buf : List ℕ) (num_bufs : ℕ)
      → granted m num_bufs ≤ length buf
      → let k = min num_bufs m.free_stack_top in
        let ids = take k (stack m) in
        (alloc_pkt_buf_batch mempool buf num_bufs w
          ≡ some ((k, map (buf_at m) ids ++ drop k buf), with_pool (taken k m)))
        × IsValid n mempool (taken k m) (with_pool (taken k m))
        × Distinct ids
        × ((a : ℕ) → has a ids ≡ true → has a (stack (taken k m)) ≡ false)
  alloc_pkt_buf_batch-IsValid buf num_bufs room =
      let k = min num_bufs m.free_stack_top in
      let done = alloc_pkt_buf_batch_lem w mempool buf num_bufs m v.here fits room in
      (
        done.0,
        taken-IsValid k,
        Distinct-take k (stack m) v.distinct,
        λ a taken_a. rw (done.1) (has-take-drop k a (stack m) v.distinct taken_a),
      )

  module _ (entry_id : ℕ) (lt : entry_id < n) (out : has entry_id (stack m) ≡ false) where
    -- A buffer that is out leaves room on the stack: n + 1 different indices are not below n.
    room_for : m.free_stack_top < n
    room_for = omega (
      arith,
      length-le n (entry_id ∷ stack m) (out, v.distinct) (lt, v.below),
      length-stack_of m.free_stack m.free_stack_top,
    )

    pub given-IsValid : IsValid n mempool (given entry_id m) (with_pool (given entry_id m))
    given-IsValid =
        let more = stack-given m entry_id (omega (arith, room_for, v.array)) in
        record {
          here = update_self w.pools mempool (some (given entry_id m));
          array = omega (arith, length-set {0} m.free_stack m.free_stack_top entry_id, v.array);
          small = v.small;
          top_le = omega (arith, room_for);
          below = rw more (lt, v.below);
          distinct = rw more (out, v.distinct);
          header = v.header;
        }

    -- pkt_buf_free of a buffer of a valid pool whose index is below the pool's size and not on
    -- its stack always succeeds: the stack has room. It pushes the index of the buffer, and the
    -- pool stays valid.
    pub pkt_buf_free-IsValid :
        (pkt_buf_free (buf_at m entry_id) w ≡ some (tt, with_pool (given entry_id m)))
        × IsValid n mempool (given entry_id m) (with_pool (given entry_id m))
        × (stack (given entry_id m) ≡ entry_id ∷ stack m)
    pkt_buf_free-IsValid =
        let (b, at, pool, idx) = v.header entry_id lt in
        let done =
          pkt_buf_free_lem w (buf_at m entry_id) b m at (rw pool v.here) fits
            (omega (arith, room_for, v.array)) in
        (
          done.0 ∙ (λ i.
              some (tt, record w { pools = update w.pools (pool i) (some (given (idx i) m)) })),
          given-IsValid,
          stack-given m entry_id (omega (arith, room_for, v.array)),
        )

-- alloc_pkt_buf on a valid pool whose stack is x and then `rest`.
pub alloc_pkt_buf-IsValid :
    {n mempool : ℕ} {m : Mempool} {w : World} (x : ℕ) (rest : List ℕ) (v : IsValid n mempool m w)
    → stack m ≡ x ∷ rest
    → 0 < m.free_stack_top
    → (alloc_pkt_buf mempool w ≡ some (buf_at m x, with_pool v (taken 1 m)))
      × (stack (taken 1 m) ≡ rest)
      × (x < n)
      × (has x rest ≡ false)
alloc_pkt_buf-IsValid {n} {mempool} {m} {w} x rest v e some_free =
    let one : min 1 m.free_stack_top ≡ 1 = omega arith in
    (
      alloc_pkt_buf_lem w mempool m v.here (fits v) ∙ rw (one, e) refl,
      stack_of-drop m.free_stack 1 m.free_stack_top ∙ ap (drop 1) e,
      (let b = (rw e at v.below) in b.0),
      (let d = (rw e at v.distinct) in d.0),
    )

alloc_free :
    {n mempool : ℕ} {m : Mempool} {w : World} (x : ℕ) (rest : List ℕ)
    → (v : IsValid n mempool m w) → stack m ≡ x ∷ rest
    → 0 < m.free_stack_top
    → let m' = given x (taken 1 m) in
      ((do pb ← alloc_pkt_buf mempool; pkt_buf_free pb) w ≡ some (tt, with_pool v m'))
      × IsValid n mempool m' (with_pool v m')
      × (stack m' ≡ stack m)
alloc_free {n} {mempool} {m} {w} x rest v e some_free =
    let (alloc, left, lt, not_left) = alloc_pkt_buf-IsValid x rest v e some_free in
    let (done, valid, pushed) = pkt_buf_free-IsValid (taken-IsValid v 1) x lt (rw left not_left) in
    let same = update-update w.pools mempool (some (taken 1 m)) (some (given x (taken 1 m))) in
    (rw (alloc, ◌>>=◌) (done ∙ rw same refl), rw same at valid, pushed ∙ rw (left, e) refl)

-- alloc_pkt_buf followed by pkt_buf_free of the buffer that it returned: on a valid pool with a free
-- buffer both succeed, and the same indices are free in the same order as before.
pub pkt_buf_free-alloc_pkt_buf :
    {n mempool : ℕ} {m : Mempool} {w : World}
    → IsValid n mempool m w
    → 0 < m.free_stack_top
    → (m' : Mempool) × ((do pb ← alloc_pkt_buf mempool; pkt_buf_free pb) w
        ≡ some (tt, record w { pools = update w.pools mempool (some m') }))
      × IsValid n mempool m' (record w { pools = update w.pools mempool (some m') })
      × (stack m' ≡ stack m)
pkt_buf_free-alloc_pkt_buf {n} {mempool} {m} {w} v some_free =
    let x = get_or m.free_stack (m.free_stack_top - 1) 0 in
    let (done, valid, same) =
      alloc_free x (stack_of m.free_stack (m.free_stack_top - 1)) v
        (ap (stack_of m.free_stack) {y = suc (m.free_stack_top - 1)} (omega arith)) some_free in
    (given x (taken 1 m), done, valid, same)
