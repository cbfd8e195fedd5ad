-- ===== src/TxQueue/Layout.antt =====
-- Which fields of the queue structures a store changes.
use ixgbe82599_driver.Base.{◌∙◌, ℕ, ◌+◌, ◌*◌, ◌^◌, ◌%◌, ◌<◌, ◌≡◌, inr, arith}
use ixgbe82599_driver.Base.Memory.{Memory, load-store, load_half-store, load-store-Apart}
use ixgbe82599_driver.TxQueue.{
  queue_at, descriptors, num_entries, clean_index, tx_index, set_tx_index, set_virtual_address,
  virtual_address_at,
}

-- The header of one queue is as it was in another memory, its tail index apart.
pub record SameHeader (txq : ℕ) (m m' : Memory) : Type 0 where
  pub descriptors : descriptors txq m' ≡ descriptors txq m
  pub num_entries : num_entries txq m' ≡ num_entries txq m
  pub clean_index : clean_index txq m' ≡ clean_index txq m

module _ (txq : ℕ) (m : Memory) where
  -- A store in virtual_address leaves the header of the same queue alone.
  pub set_virtual_address-header :
      (i p : ℕ)
      → SameHeader txq m (set_virtual_address txq i p m)
        × (tx_index txq (set_virtual_address txq i p m) ≡ tx_index txq m)
  unfolding set_virtual_address descriptors num_entries clean_index tx_index
  set_virtual_address-header i p = (
    record {
      descriptors = load-store-Apart 8 8 _ p _ m (inr (omega arith));
      num_entries = load-store-Apart 2 8 _ p _ m (inr (omega arith));
      clean_index = load-store-Apart 2 8 _ p _ m (inr (omega arith));
    },
    load-store-Apart 2 8 _ p _ m (inr (omega arith)),
  )

  pub set_tx_index-header :
      (i : ℕ)
      → i < 2 ^ 16
      → SameHeader txq m (set_tx_index txq i m) × (tx_index txq (set_tx_index txq i m) ≡ i)
  unfolding set_tx_index descriptors num_entries clean_index tx_index
  set_tx_index-header i h = (
    record {
      descriptors = load-store-Apart 8 2 _ _ _ m (inr (omega arith));
      num_entries = load-store-Apart 2 2 _ _ _ m (inr (omega arith));
      clean_index = load-store-Apart 2 2 _ _ _ m (inr (omega arith));
    },
    load-store 2 _ (i % 2 ^ 16) m (omega arith) ∙ omega arith,
  )

-- The structures of neighbouring queues overlap: after a store of a pointer in entry 3 q + 2 of
-- virtual_address of the first queue, num_entries of queue q + 1 is the low half-word of that
-- pointer.
pub queue_overlap :
    (tx_queues q p : ℕ) (m : Memory)
    → num_entries
        (queue_at tx_queues (q + 1))
        (set_virtual_address (queue_at tx_queues 0) (3 * q + 2) p m)
      ≡ p % 2 ^ 16
unfolding num_entries set_virtual_address
queue_overlap tx_queues q p m =
    let same : queue_at tx_queues (q + 1) + 16
        ≡ virtual_address_at (queue_at tx_queues 0) (3 * q + 2) =
      omega arith in
    rw same (load_half-store 6 _ p m)
