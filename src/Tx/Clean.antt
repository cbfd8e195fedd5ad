-- ===== src/Tx/Clean.antt =====
-- tx_clean against a description of it that counts entries and takes indices modulo the ring.
use native.Mathlib.Nat.{mod-eq_of_lt, mod-add-mod}
use ixgbe82599_driver.Base.{
  true, false, ==_iff, ℕ, zero, suc, ◌+◌, ◌/◌, ◌%◌, ◌^◌, ◌≤◌, ◌<◌, ◌≡◌, refl, sym, ap, ◌∙◌, arith,
  bit_and, ltb, ◌==◌, if◌then◌else◌, pure, get, modify, ◌>>=◌, ◌>>◌, ne→==, le→ltb, lt→ltb,
}
use ixgbe82599_driver.Ixgbe.Flags
use ixgbe82599_driver.World.{Env, World, Run}
use ixgbe82599_driver.Pool.{pkt_buf_free}
use ixgbe82599_driver.TxQueue.{descriptors, num_entries, clean_index, tx_index, virtual_address}
use ixgbe82599_driver.Tx.{
  wrap_ring, cleanable, descriptor_at, load_status, free_batch, clean_loop, tx_clean,
}
use ixgbe82599_driver.Tx.Ring.{
  IsRing, wrap_ring-mod, step-step, step-ne, cleanup_end-mod, cleanable-step, between,
  cleanable-between,
}

-- Frees the buffers of n entries of the ring, from entry c on.
pub free_entries : (txq num c n : ℕ) → Run (Unit {0})
free_entries txq num c zero = pure tt
free_entries txq num c (suc n) = do
  w ← get
  pkt_buf_free (virtual_address txq c w.queues)
  free_entries txq num ((c + 1) % num) n

-- At most `batches` times: if the device has marked the last of the next 64 entries as done, frees
-- the buffers of these 64. Returns the first entry that was not freed.
pub reclaim : Env → (batches txq ring num c : ℕ) → Run ℕ
reclaim env zero txq ring num c = pure c
reclaim env (suc batches) txq ring num c = do
  status ← load_status env (descriptor_at ring ((c + 63) % num))
  if bit_and status Flags.advtxd_stat_dd == 0
      then pure c
      else do free_entries txq num c 64; reclaim env batches txq ring num ((c + 64) % num)

module _ (k num : ℕ) (ring : IsRing k num) (txq : ℕ) where
  free_batch-eq :
      (fuel r c to : ℕ)
      → r < fuel
      → r < num
      → c < num
      → to ≡ (c + r) % num
      → free_batch fuel txq num to c ≡ free_entries txq num c (suc r)
  unfolding free_batch free_entries
  free_batch-eq zero r c to h hr hc e = absurd (omega arith)
  free_batch-eq (suc fuel) zero c to h hr hc e =
      let last : (c == to) ≡ true =
        (==_iff c to).1 (omega (arith, mod-eq_of_lt {n = c + 0} {m = num} (omega arith))) in
      rw last
  free_batch-eq (suc fuel) (suc r) c to h hr hc e =
      let more : (c == to) ≡ false = ne→== c to (λ s. step-ne num c r hc hr (sym e ∙ sym s)) in
      rw (
        more,
        wrap_ring-mod k num c ring,
        free_batch-eq fuel r ((c + 1) % num) to (omega arith) (omega arith)
            (omega (arith, ring.some_entries)) (e ∙ sym (step-step num c r)),
      )

  -- The outer loop makes one round for each whole batch, and needs one unit of fuel more.
  clean_loop-eq :
      (env : Env) (fuel batches desc tx c : ℕ)
      → 64 ≤ num
      → batches < fuel
      → c < num
      → tx < num
      → batches ≡ cleanable tx c num / 64
      → clean_loop env fuel txq desc num tx c ≡ reclaim env batches txq desc num c
  unfolding clean_loop reclaim
  clean_loop-eq env zero b desc tx c big h hc ht e = absurd (omega arith)
  clean_loop-eq env (suc fuel) zero desc tx c big h hc ht e =
      let few : ltb (cleanable tx c num) 64 ≡ true = lt→ltb _ _ (omega arith) in rw few
  clean_loop-eq env (suc fuel) (suc b) desc tx c big h hc ht e =
      let enough : ltb (cleanable tx c num) 64 ≡ false = le→ltb _ _ (omega arith) in
      let next : wrap_ring ((c + 63) % num) num ≡ (c + 64) % num =
        wrap_ring-mod k num ((c + 63) % num) ring
        ∙ (mod-add-mod (c + 63) num 1 ∙ ap (λ i. i % num) (omega arith)) in
      let left : b ≡ cleanable tx ((c + 64) % num) num / 64 =
        omega (arith, cleanable-step tx c num hc ht (omega arith)) in
      rw (
        enough,
        cleanup_end-mod c num big hc,
        free_batch-eq (2 ^ 16) 63 c ((c + 63) % num) (omega arith) (omega arith) hc refl,
        next,
        clean_loop-eq env fuel b desc tx ((c + 64) % num) big (omega arith)
            (omega (arith, ring.some_entries)) ht left,
      )

-- On a ring of 2^k >= 64 entries whose indices are in range, tx_clean gives back the buffers of
-- the oldest entries in whole batches of 64, as far as the device has marked the last entry of
-- each batch as done, and at most those between the two indices, whatever the device shows. The
-- fuel of its loops is never used up.
pub tx_clean-reclaim :
    (env : Env) (k txq : ℕ) (w : World)
    → IsRing k (num_entries txq w.queues)
    → 64 ≤ num_entries txq w.queues
    → clean_index txq w.queues < num_entries txq w.queues
    → tx_index txq w.queues < num_entries txq w.queues
    → let q = w.queues in
      tx_clean env txq w
      ≡ (do
        clean ←
            reclaim env
              (between (clean_index txq q) (tx_index txq q) (num_entries txq q) / 64)
              txq
              (descriptors txq q)
              (num_entries txq q)
              (clean_index txq q)
        modify (λ u. record u { clean_index = clean }))
          w
unfolding tx_clean
tx_clean-reclaim env k txq w ring big hc ht =
    let q = w.queues in
    rw (
      clean_loop-eq k (num_entries txq q) ring txq env (2 ^ 16)
          (between (clean_index txq q) (tx_index txq q) (num_entries txq q) / 64)
          (descriptors txq q) (tx_index txq q) (clean_index txq q) big (ground (arith, ring.small))
          hc ht
          (ap (λ n. n / 64)
            (sym
              (cleanable-between (tx_index txq q) (clean_index txq q) (num_entries txq q) hc ht))),
      tx_clean,
    )
