-- ===== src/Pool/Owned/Shared.antt =====
-- The invariant of a pool and its clients, over their steps.
use mathlib.Core.Path.{subst}
use ixgbe82599_driver.Base.{
  ℕ, zero, suc, ◌+◌, ◌≤◌, ◌<◌, ◌≡◌, refl, sym, ap, ◌∙◌, List, [], ◌∷◌, ◌++◌, some, arith, length,
  take, drop, map, min, ltb, if◌then◌else◌, length-append, length-take, length-map, ◌==◌, ==_iff,
  Bool-cases, inl, inr,
}
use ixgbe82599_driver.Base.Count.{
  count, count-cons, count-append, count-take-drop, count-middle, count_self, has-count_zero,
}
use ixgbe82599_driver.World.{PktBuf, Mempool, World}
use ixgbe82599_driver.Pool.{buf_at, alloc_pkt_buf_batch, pkt_buf_free}
use ixgbe82599_driver.Pool.Stack.{stack, length-stack_of, stack_of-drop}
use ixgbe82599_driver.Pool.Alloc.{taken}
use ixgbe82599_driver.Pool.Free.{given}
use ixgbe82599_driver.Pool.Valid.{
  IsValid, HasHeader, with_pool, alloc_pkt_buf_batch-IsValid, pkt_buf_free-IsValid,
}
use ixgbe82599_driver.Pool.Owned.{
  State, Step, alloc, free, fill, elsewhere, Reach, start, next, filled,
}

-- Each index below n is either on the stack, or that of one buffer that is out.
pub record Shared (n mempool base size : ℕ) (s : State) : Type 0 where
  pub pool : Mempool
  pub valid : IsValid n mempool pool s.world
  pub base_at : pool.base_addr ≡ base
  pub size_is : pool.buf_size ≡ size
  pub ids : List ℕ
  pub held : s.out ≡ map (buf_at pool) ids
  pub all : length ids + pool.free_stack_top ≡ n
  pub once : (a : ℕ) → count a ids + count a (stack pool) ≡ (if ltb a n then 1 else 0)

map-append {ℓ κ} :
    {A : Type ℓ} {B : Type κ} (f : A → B) (xs ys : List A) → map f (xs ++ ys) ≡ map f xs ++ map f ys
map-append f [] ys = refl
map-append f (x ∷ xs) ys = rw (map-append f xs ys)

-- A place in a mapped list is one in the list.
record Split (f : ℕ → ℕ) (ids front back : List ℕ) (buf : ℕ) : Type 0 where
  before : List ℕ
  id : ℕ
  after : List ℕ
  whole : ids ≡ before ++ id ∷ after
  front_is : front ≡ map f before
  buf_is : buf ≡ f id
  back_is : back ≡ map f after

split :
    (f : ℕ → ℕ) (ids front back : List ℕ) (buf : ℕ)
    → map f ids ≡ front ++ buf ∷ back
    → Split f ids front back buf
split f [] [] back buf e = absurd (cc e)
split f [] (x ∷ front) back buf e = absurd (cc e)
split f (i ∷ ids) [] back buf e = record {
  before = [];
  id = i;
  after = ids;
  whole = refl;
  front_is = refl;
  buf_is = cc e;
  back_is = cc e;
}
split f (i ∷ ids) (x ∷ front) back buf e =
    let s = split f ids front back buf (cc e) in
    record {
      before = i ∷ s.before;
      id = s.id;
      after = s.after;
      whole = ap (λ l. i ∷ l) s.whole;
      front_is = cc (e, s.front_is);
      buf_is = s.buf_is;
      back_is = s.back_is;
    }

take-append {ℓ} : {A : Type ℓ} (k : ℕ) (xs ys : List A) → length xs ≡ k → take k (xs ++ ys) ≡ xs
take-append zero [] ys e = refl
take-append (suc k) [] ys e = absurd (omega arith)
take-append zero (x ∷ xs) ys e = absurd (omega arith)
take-append (suc k) (x ∷ xs) ys e = ap (λ l. x ∷ l) (take-append k xs ys (omega arith))

filled-HasHeader :
    (mempool : ℕ) (m : Mempool) (w : World) (i buf size : ℕ) (bytes : List ℕ) (b : PktBuf)
    → w.bufs buf ≡ some b
    → HasHeader mempool m w i
    → HasHeader mempool m (filled buf (record b { size = size; bytes = bytes }) w) i
filled-HasHeader mempool m w i buf size bytes b at (c, at_c, pool, idx) =
    elim (Bool-cases (buf == buf_at m i)) [
      | inl same ↦
          let place : buf ≡ buf_at m i = (==_iff buf (buf_at m i)).0 same in
          let here : b ≡ c = cc (at, at_c, place) in
          (
            record b { size = size; bytes = bytes },
            rw same refl,
            ap (λ x. x.mempool) here ∙ pool,
            ap (λ x. x.mempool_idx) here ∙ idx,
          )
      | inr other ↦ (c, rw other at_c, pool, idx)
    ]

module _ {n mempool base size : ℕ} where
  alloc-Shared :
      {s : State} {w' : World} (buf buf' : List ℕ) (num_bufs k : ℕ)
      → Shared n mempool base size s
      → num_bufs ≤ length buf
      → alloc_pkt_buf_batch mempool buf num_bufs s.world ≡ some ((k, buf'), w')
      → Shared n mempool base size (record { world = w'; out = take k buf' ++ s.out })
  alloc-Shared {s} {w'} buf buf' num_bufs k h room run =
      let m = h.pool in
      let j = min num_bufs m.free_stack_top in
      let (done, valid, _, _) = alloc_pkt_buf_batch-IsValid h.valid buf num_bufs (ground arith) in
      let ids = take j (stack m) in
      let world : with_pool h.valid (taken j m) ≡ w' = cc (done, run) in
      let count : j ≡ k = cc (done, run) in
      let array : map (buf_at m) ids ++ drop j buf ≡ buf' = cc (done, run) in
      let many : length (map (buf_at m) ids) ≡ j = omega (
        arith,
        length-map (buf_at m) ids,
        length-take j (stack m),
        length-stack_of m.free_stack m.free_stack_top,
      ) in
      record {
        pool = taken j m;
        valid = subst (IsValid n mempool (taken j m)) world valid;
        base_at = h.base_at;
        size_is = h.size_is;
        ids = ids ++ h.ids;
        held =
            rw (sym array, sym count, take-append j (map (buf_at m) ids) (drop j buf) many, h.held)
              (sym (map-append (buf_at m) ids h.ids));
        all = omega (arith, h.all, length-append ids h.ids, many, length-map (buf_at m) ids);
        once = λ a.
            rw (stack_of-drop m.free_stack j m.free_stack_top)
              (omega (arith, count-append a ids h.ids, count-take-drop j a (stack m), h.once a));
      }

  -- A buffer that is out can be freed.
  pub free_id :
      {s : State} (h : Shared n mempool base size s) (id : ℕ)
      → 0 < count id h.ids
      → (pkt_buf_free (buf_at h.pool id) s.world ≡ some (tt, with_pool h.valid (given id h.pool)))
        × IsValid n mempool (given id h.pool) (with_pool h.valid (given id h.pool))
        × (stack (given id h.pool) ≡ id ∷ stack h.pool)
  free_id h id held =
      pkt_buf_free-IsValid h.valid id (ground (arith, h.once id, held))
        (has-count_zero id (stack h.pool) (ground (arith, h.once id, held)))

  free-Split :
      {s : State} {w' : World} {front back : List ℕ} {buf : ℕ} (h : Shared n mempool base size s)
      → Split (buf_at h.pool) h.ids front back buf
      → pkt_buf_free buf s.world ≡ some (tt, w')
      → Shared n mempool base size (record { world = w'; out = front ++ back })
  free-Split {s} {w'} h p run =
      let m = h.pool in
      let at : (a : ℕ) → count a h.ids ≡ count a (p.id ∷ p.before) + count a p.after =
        λ a. ap (count a) p.whole ∙ count-middle a p.id p.before p.after in
      let (done, valid, pushed) =
        free_id h p.id (omega (arith, at p.id, count_self p.id p.before)) in
      let world : with_pool h.valid (given p.id m) ≡ w' = cc (done, run, p.buf_is) in
      record {
        pool = given p.id m;
        valid = subst (IsValid n mempool (given p.id m)) world valid;
        base_at = h.base_at;
        size_is = h.size_is;
        ids = p.before ++ p.after;
        held = cc (p.front_is, p.back_is, map-append (buf_at m) p.before p.after);
        all = omega (
          arith,
          h.all,
          ap length p.whole,
          length-append p.before (p.id ∷ p.after),
          length-append p.before p.after,
        );
        once = λ a. omega (
          arith,
          at a,
          h.once a,
          count-append a p.before p.after,
          count-cons a p.id p.before,
          count-cons a p.id (stack m),
          ap (count a) pushed,
        );
      }

  fill-Shared :
      {s : State} (buf size' : ℕ) (bytes : List ℕ) (b : PktBuf)
      → Shared n mempool base size s
      → s.world.bufs buf ≡ some b
      → Shared n mempool base size
          (record s { world = filled buf (record b { size = size'; bytes = bytes }) s.world })
  fill-Shared {s} buf size' bytes b h at =
      let b' = record b { size = size'; bytes = bytes } in
      record {
        pool = h.pool;
        valid = record {
          here = h.valid.here;
          array = h.valid.array;
          small = h.valid.small;
          top_le = h.valid.top_le;
          below = h.valid.below;
          distinct = h.valid.distinct;
          header = λ i lt.
              filled-HasHeader mempool h.pool s.world i buf size' bytes b at (h.valid.header i lt);
        };
        base_at = h.base_at;
        size_is = h.size_is;
        ids = h.ids;
        held = h.held;
        all = h.all;
        once = h.once;
      }

  elsewhere-Shared :
      {s : State} {w' : World}
      → Shared n mempool base size s
      → w'.pools ≡ s.world.pools
      → w'.bufs ≡ s.world.bufs
      → Shared n mempool base size (record s { world = w' })
  elsewhere-Shared {s} {w'} h pools bufs = record {
    pool = h.pool;
    valid = record {
      here = rw pools h.valid.here;
      array = h.valid.array;
      small = h.valid.small;
      top_le = h.valid.top_le;
      below = h.valid.below;
      distinct = h.valid.distinct;
      header = rw bufs h.valid.header;
    };
    base_at = h.base_at;
    size_is = h.size_is;
    ids = h.ids;
    held = h.held;
    all = h.all;
    once = h.once;
  }

  Step-Shared :
      {s t : State} → Step mempool s t → Shared n mempool base size s → Shared n mempool base size t
  Step-Shared (alloc buf buf' num_bufs k room run) h = alloc-Shared buf buf' num_bufs k h room run
  Step-Shared {s} (free front back buf at run) h =
      free-Split h (split (buf_at h.pool) h.ids front back buf (sym h.held ∙ at)) run
  Step-Shared (fill buf size' bytes b at) h = fill-Shared buf size' bytes b h at
  Step-Shared (elsewhere pools bufs) h = elsewhere-Shared h pools bufs

  pub Reach-Shared :
      {s t : State}
      → Reach mempool s t
      → Shared n mempool base size s
      → Shared n mempool base size t
  Reach-Shared start h = h
  Reach-Shared (next r st) h = Step-Shared st (Reach-Shared r h)
