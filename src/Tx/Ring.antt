-- ===== src/Tx/Ring.antt =====
-- Arithmetic on a ring whose size is a power of two.
use native.Mathlib.Nat.{mod-eq_of_lt, mod-add-mod, mod-eq-sub-mod}
use ixgbe82599_driver.Base.{
  ℕ, suc, ◌+◌, ◌-◌, ◌%◌, ◌^◌, ◌≤◌, ◌<◌, ◌≡◌, ◌≢◌, arith, bit_and, ◌∙◌, ap, dec_lt, Bool-cases, inl,
  inr, ltb,
}
use ixgbe82599_driver.Base.Bits.{bit_and_low}
use ixgbe82599_driver.Tx.{wrap_ring, cleanable, cleanup_end}

-- A ring of 2^k entries, that the 16-bit fields of a queue can hold.
pub record IsRing (k num : ℕ) : Type 0 where
  pub size : num ≡ 2 ^ k
  pub small : num < 2 ^ 16
  pub some_entries : 0 < num

-- On a ring of 2^k entries, fewer than 2^16, the masked increment of an index is its increment
-- modulo the size.
pub wrap_ring-mod : (k num i : ℕ) → IsRing k num → wrap_ring i num ≡ (i + 1) % num
unfolding wrap_ring
wrap_ring-mod k num i r =
    let mask : (num + 2 ^ 32 - 1) % 2 ^ 32 ≡ num - 1 = omega (arith, r.small, r.some_entries) in
    let low : bit_and (i + 1) (num - 1) ≡ (i + 1) % num = rw (r.size) (bit_and_low k (i + 1)) in
    rw (mask, low) (omega (arith, r.small, r.some_entries))

-- Steps round the ring add up.
pub step-step : (num c r : ℕ) → ((c + 1) % num + r) % num ≡ (c + suc r) % num
step-step num c r = mod-add-mod _ _ _ ∙ ap (λ k. k % num) (omega arith)

-- A number below twice the size, in the two cases of its remainder.
mod_wrapped : (x num : ℕ) → num ≤ x → x < num + num → x % num ≡ x - num
mod_wrapped x num h k = mod-eq-sub-mod h ∙ mod-eq_of_lt (omega arith)

-- Fewer steps than the ring has entries do not lead back.
pub step-ne : (num c r : ℕ) → c < num → suc r < num → (c + suc r) % num ≢ c
step-ne num c r hc hr = elim (dec_lt (c + suc r) num) [
  | yes p ↦ omega (arith, mod-eq_of_lt p)
  | no p ↦ omega (arith, mod_wrapped (c + suc r) num (omega arith) (omega arith))
]

-- How many entries of a ring of num lie between two indices, counted from `clean` on.
abbrev pub between : (clean tx num : ℕ) → ℕ
between clean tx num = (tx + num - clean) % num

pub cleanable-between : (tx c num : ℕ) → c < num → tx < num → cleanable tx c num ≡ between c tx num
cleanable-between tx c num hc ht = elim (Bool-cases (ltb tx c)) [
  | inl wrapped ↦ ground (arith, wrapped, mod-eq_of_lt {n = tx + num - c} {m = num})
  | inr ordered ↦ ground (arith, ordered, mod_wrapped (tx + num - c) num)
]

pub cleanup_end-mod : (c num : ℕ) → 64 ≤ num → c < num → cleanup_end c num ≡ (c + 63) % num
cleanup_end-mod c num big hc = elim (dec_lt (c + 63) num) [
  | yes p ↦ ground (arith, mod-eq_of_lt p)
  | no p ↦ ground (arith, mod_wrapped (c + 63) num (omega arith) (omega arith))
]

pub cleanable-step :
    (tx c num : ℕ)
    → c < num
    → tx < num
    → 64 ≤ cleanable tx c num
    → cleanable tx ((c + 64) % num) num + 64 ≡ cleanable tx c num
cleanable-step tx c num hc ht enough = elim (dec_lt (c + 64) num) [
  | yes p ↦ ground (arith, mod-eq_of_lt p)
  | no p ↦ ground (arith, mod_wrapped (c + 64) num)
]
