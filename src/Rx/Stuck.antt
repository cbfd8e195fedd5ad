-- ===== src/Rx/Stuck.antt =====
-- recv/init.c: the ring of 1012 entries that the receiver sets up is no power of two.
use ixgbe82599_driver.Base.{ℕ, zero, suc, ◌+◌, ◌%◌, ◌<◌, ◌≡◌, refl, arith}
use ixgbe82599_driver.Tx.{wrap_ring}

-- NUM_RX_QUEUE_ENTRIES of recv/init.c.
abbrev pub num_rx_queue_entries : ℕ
num_rx_queue_entries = 1012

-- With the receiver's 1012 entries, the masked increment of wrap_ring goes round the first four
-- entries: an index below 4 stays below 4, as the index that rx_batch starts from does.
pub wrap_ring-four : (i : ℕ) → i < 4 → wrap_ring i num_rx_queue_entries ≡ (i + 1) % 4
unfolding wrap_ring
wrap_ring-four zero h = refl
wrap_ring-four (suc zero) h = refl
wrap_ring-four (suc (suc zero)) h = refl
wrap_ring-four (suc (suc (suc zero))) h = refl
wrap_ring-four (suc (suc (suc (suc i)))) h = absurd (omega arith)
