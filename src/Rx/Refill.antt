-- ===== src/Rx/Refill.antt =====
-- Runs of the receiver that take buffers from the pool of a queue, and leave it valid.
use mathlib.Core.Path.{subst}
use ixgbe82599_driver.Base.{
  ℕ, ◌+◌, ◌≤◌, ◌≡◌, refl, ap, sym, ◌∙◌, Option, none, some, arith, min, Bool, true, false, update,
  update_self, update_ne, Option-cases, ℕ_discrete, pure, get, lift, modify, ◌>>=◌, some-bind,
  if◌then◌else◌, inl, inr,
}
use ixgbe82599_driver.Base.Memory.{load-store-Apart}
use ixgbe82599_driver.World.{Event, PktBuf, Mempool, World, Run, emit}
use ixgbe82599_driver.Recv.Pool.{alloc_pkt_buf}
use ixgbe82599_driver.Pool.{buf_at}
use ixgbe82599_driver.Pool.Alloc.{taken, taken-zero, taken-taken, alloc_pkt_buf_lem}
use ixgbe82599_driver.Pool.Valid.{IsValid, fits, with_pool, taken-IsValid}
use ixgbe82599_driver.Rx.{mempool, set_virtual_address, set_size}

module _ (n pool rxq : ℕ) where
  -- The queue has a valid pool.
  pub record HasPool (m : Mempool) (w : World) : Type 0 where
    pub valid : IsValid n pool m w
    pub own : mempool rxq w.queues ≡ pool

  -- A run that returns has taken at most `most` buffers from the pool, and done nothing else to it.
  abbrev pub Takes : {A : Type 0} → (most : ℕ) → Run A → Type 0
  Takes {A} most run =
      (m : Mempool) (w w' : World) (a : A)
      → HasPool m w
      → run w ≡ some (a, w')
      → (k : ℕ) × (k ≤ most) × HasPool (taken k m) w'

  pub Takes-bind :
      {A B : Type 0} (r s : ℕ) (run : Run A) (k : A → Run B)
      → Takes r run
      → ((a : A) → Takes s (k a))
      → Takes (r + s) (run >>= k)
  Takes-bind r s run k hr hk m w w' b g e =
      let (a, u, first, rest) = some-bind run k w w' b e in
      let (i, le, g1) = hr m w u a g first in
      let (j, le', g2) = hk a (taken i m) u w' b g1 rest in
      (i + j, omega arith, subst (λ p. HasPool p w') (taken-taken i j m) g2)

  pub Takes-more : {A : Type 0} (r s : ℕ) (run : Run A) → r ≤ s → Takes r run → Takes s run
  Takes-more r s run le h m w w' a g e = let (k, lt, g') = h m w w' a g e in (k, omega arith, g')

  -- A step that takes nothing, and what comes after it.
  pub Takes-then :
      {A B : Type 0} (most : ℕ) (run : Run A) (k : A → Run B)
      → Takes 0 run
      → ((a : A) → Takes most (k a))
      → Takes most (run >>= k)
  Takes-then most run k hr hk =
      Takes-more (0 + most) most (run >>= k) (omega arith) (Takes-bind 0 most run k hr hk)

  -- What is not changed by a step.
  pub record Same (w w' : World) : Type 0 where
    pub pools : w'.pools ≡ w.pools
    pub bufs : w'.bufs ≡ w.bufs
    pub own : mempool rxq w'.queues ≡ mempool rxq w.queues

  HasPool-Same : (m : Mempool) (w w' : World) → Same w w' → HasPool m w → HasPool m w'
  HasPool-Same m w w' s g = record {
    valid = record {
      here = ap (λ (f : ℕ → Option Mempool). f pool) s.pools ∙ g.valid.here;
      array = g.valid.array;
      small = g.valid.small;
      top_le = g.valid.top_le;
      below = g.valid.below;
      distinct = g.valid.distinct;
      header = λ i lt.
          let (b, at, own, idx) = g.valid.header i lt in
          (b, ap (λ (f : ℕ → Option PktBuf). f (buf_at m i)) s.bufs ∙ at, own, idx);
    };
    own = s.own ∙ g.own;
  }

  -- A run that has taken nothing.
  untouched : (m : Mempool) (w : World) → HasPool m w → (k : ℕ) × (k ≤ 0) × HasPool (taken k m) w
  untouched m w g = (0, omega arith, subst (λ p. HasPool p w) (sym (taken-zero m)) g)

  pub Takes-modify : (f : World → World) → ((w : World) → Same w (f w)) → Takes 0 (modify f)
  Takes-modify f same m w w' a g e =
      let end : f w ≡ w' = cc e in
      untouched m w' (subst (HasPool m) end (HasPool-Same m w (f w) (same w) g))

  pub Takes-pure : {A : Type 0} (a : A) → Takes 0 (pure a)
  Takes-pure a m w w' b g e = let end : w ≡ w' = cc e in untouched m w' (subst (HasPool m) end g)

  pub Takes-lift : {A : Type 0} (o : Option A) → Takes 0 (lift o)
  Takes-lift none m w w' b g e = absurd (cc e)
  Takes-lift (some a) m w w' b g e =
      let end : w ≡ w' = cc e in untouched m w' (subst (HasPool m) end g)

  pub Takes-if :
      {A : Type 0} (r : ℕ) (b : Bool) (x y : Run A)
      → Takes r x
      → Takes r y
      → Takes r (if b then x else y)
  Takes-if r true x y h k = h
  Takes-if r false x y h k = k

  -- A run that begins by looking at the world.
  Takes-get :
      {A : Type 0} (r : ℕ) (k : World → Run A)
      → ((u : World) → mempool rxq u.queues ≡ pool → Takes r (k u))
      → Takes r (get >>= k)
  Takes-get r k h m w w' a g e = h w g.own m w w' a g e

  pub Takes-emit : (e : Event) → Takes 0 (modify (emit e))
  Takes-emit e = Takes-modify (emit e) (λ w. record { pools = refl; bufs = refl; own = refl })

  pub Takes-set_virtual_address :
      (i p : ℕ) → Takes 0 (modify (λ u. record u { queues = set_virtual_address rxq i p u.queues }))
  unfolding set_virtual_address mempool
  Takes-set_virtual_address i p = Takes-modify _ λ w. record {
    pools = refl;
    bufs = refl;
    own = load-store-Apart 8 8 _ p _ w.queues (omega arith);
  }

  pub Takes-alloc_pkt_buf : (p : ℕ) → p ≡ pool → Takes 1 (alloc_pkt_buf p)
  Takes-alloc_pkt_buf p own m w w' a g e =
      let v = g.valid in
      let k = min 1 m.free_stack_top in
      let run = alloc_pkt_buf_lem w pool m v.here (fits v) in
      let end : with_pool v (taken k m) ≡ w' = cc (own, run, e) in
      (
        k,
        omega arith,
        subst (HasPool (taken k m)) end (record { valid = taken-IsValid v k; own = g.own }),
      )

  -- The world in which a buffer has another size.
  abbrev resized : (buf size : ℕ) → PktBuf → World → World
  resized buf size b w = record w { bufs = update w.bufs buf (some (record b { size = size })) }

  HasPool-resized :
      (buf size : ℕ) (b : PktBuf) (m : Mempool) (w : World)
      → w.bufs buf ≡ some b
      → HasPool m w
      → HasPool m (resized buf size b w)
  HasPool-resized buf size b m w here g = record {
    valid = record {
      here = g.valid.here;
      array = g.valid.array;
      small = g.valid.small;
      top_le = g.valid.top_le;
      below = g.valid.below;
      distinct = g.valid.distinct;
      header = λ i lt.
          let (c, at, own, idx) = g.valid.header i lt in
          elim (ℕ_discrete buf (buf_at m i)) [
            | yes same ↦
                let found : b ≡ c = cc (here, at, same) in
                (
                  record b { size = size },
                  ap (resized buf size b w).bufs (sym same)
                      ∙ update_self w.bufs buf (some (record b { size = size })),
                  ap (λ (d : PktBuf). d.mempool) found ∙ own,
                  ap (λ (d : PktBuf). d.mempool_idx) found ∙ idx,
                )
            | no ne ↦ (c, update_ne w.bufs (some (record b { size = size })) ne ∙ at, own, idx)
          ];
    };
    own = g.own;
  }

  pub Takes-set_size : (buf size : ℕ) → Takes 0 (set_size buf size)
  unfolding set_size
  Takes-set_size buf size m w w' a g e = elim (Option-cases (w.bufs buf)) [
    | inl missing ↦
        let fault : none ≡ some (a, w') = rw (missing, set_size) at e in absurd (cc fault)
    | inr (b, here) ↦
        let done : some (tt, resized buf size b w) ≡ some (a, w') = rw (here, set_size) at e in
        let end : resized buf size b w ≡ w' = cc done in
        untouched m w' (subst (HasPool m) end (HasPool-resized buf size b m w here g))
  ]
