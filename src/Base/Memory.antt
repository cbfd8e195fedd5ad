-- ===== src/Base/Memory.antt =====
-- Byte-addressed memory: a little-endian scalar of n bytes is loaded and stored at an address.
use Prim.Native.Nat.{ℕ, zero, suc, ◌+◌, ◌*◌, ◌/◌, ◌%◌, ◌^◌, ◌≤◌, ◌<◌}
use mathlib.Core.Path.{◌≡◌, refl, ◌∙◌}
use mathlib.Core.Logic.{◌⊎◌, inl}
use native.Mathlib.Nat.{pow-suc}
use native.Mathlib.Omega.{arith}
use ixgbe82599_driver.Base.Lists.{update, update_self, update_ne}

abbrev pub Memory : Type 0
Memory = ℕ → ℕ

unfoldable pub load : ℕ → ℕ → Memory → ℕ
load zero a m = 0
load (suc n) a m = m a + 256 * load n (a + 1) m

unfoldable pub store : ℕ → ℕ → ℕ → Memory → Memory
store zero a v m = m
store (suc n) a v m = store n (a + 1) (v / 256) (update m a (v % 256))

-- The ranges [a, a + n) and [b, b + k) have no byte in common.
abbrev pub Apart : ℕ → ℕ → ℕ → ℕ → Type 0
Apart a n b k = (a + n ≤ b) ⊎ (b + k ≤ a)

store_other : (n a v b : ℕ) (m : Memory) → (b < a) ⊎ (a + n ≤ b) → store n a v m b ≡ m b
unfolding store
store_other zero a v b m h = refl
store_other (suc n) a v b m h =
    store_other n (a + 1) (v / 256) b (update m a (v % 256)) (omega arith)
    ∙ update_ne m (v % 256) (omega arith)

pub load-store-Apart :
    (k n a v b : ℕ) (m : Memory) → Apart a n b k → load k b (store n a v m) ≡ load k b m
unfolding load
load-store-Apart zero n a v b m h = refl
load-store-Apart (suc k) n a v b m h =
    omega
      (arith, store_other n a v b m (omega arith), load-store-Apart k n a v (b + 1) m (omega arith))

-- What fits the width of the scalar is loaded back as it was stored.
pub load-store : (n a v : ℕ) (m : Memory) → v < 256 ^ n → load n a (store n a v m) ≡ v
unfolding load store
load-store zero a v m h = omega arith
load-store (suc n) a v m h = omega (
  arith,
  store_other n (a + 1) (v / 256) a (update m a (v % 256)) (inl (omega arith)),
  update_self m a (v % 256),
  load-store n (a + 1) (v / 256) (update m a (v % 256)) (omega (arith, pow-suc 256 n)),
)

-- The low half-word of a wider scalar.
pub load_half-store : (k a v : ℕ) (m : Memory) → load 2 a (store (suc (suc k)) a v m) ≡ v % 2 ^ 16
unfolding load store
load_half-store k a v m =
    let m1 = update m a (v % 256) in
    let m2 = update m1 (a + 1) (v / 256 % 256) in
    omega (
      arith,
      store_other k (a + 1 + 1) (v / 256 / 256) a m2 (inl (omega arith)),
      store_other k (a + 1 + 1) (v / 256 / 256) (a + 1) m2 (inl (omega arith)),
      update_self m1 (a + 1) (v / 256 % 256),
      update_ne m1 {p = a + 1} {q = a} (v / 256 % 256) (omega arith),
      update_self m a (v % 256),
    )
