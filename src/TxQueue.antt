-- ===== src/TxQueue.antt =====
-- send/struct.h: struct ixgbe_device and struct tx_queue. The queue structures lie in the memory
-- that calloc returned, and their fields are loaded and stored by address.
pub mod Layout
use ixgbe82599_driver.Base.{ℕ, ◌+◌, ◌*◌, ◌%◌, ◌^◌}
use ixgbe82599_driver.Base.Memory.{Memory, load, store}

-- What transmit and the initialisation use of struct ixgbe_device.
pub record Device : Type 0 where
  pub addr : ℕ
  pub tx_queues : ℕ
  pub num_tx_queues : ℕ

-- sizeof(struct tx_queue) without its flexible array, and the offsets of the fields.
abbrev pub sizeof_tx_queue : ℕ
sizeof_tx_queue = 24

abbrev pub offsetof_num_entries : ℕ
offsetof_num_entries = 16

abbrev pub offsetof_clean_index : ℕ
offsetof_clean_index = 18

abbrev pub offsetof_tx_index : ℕ
offsetof_tx_index = 20

abbrev pub offsetof_virtual_address : ℕ
offsetof_virtual_address = 24

-- `((struct tx_queue *)ix_dev->tx_queues) + queue_id`.
abbrev pub queue_at : ℕ → ℕ → ℕ
queue_at tx_queues queue_id = tx_queues + queue_id * sizeof_tx_queue

abbrev pub virtual_address_at : ℕ → ℕ → ℕ
virtual_address_at txq i = txq + offsetof_virtual_address + i * 8

unfoldable pub descriptors : ℕ → Memory → ℕ
descriptors txq m = load 8 txq m

unfoldable pub num_entries : ℕ → Memory → ℕ
num_entries txq m = load 2 (txq + offsetof_num_entries) m

unfoldable pub clean_index : ℕ → Memory → ℕ
clean_index txq m = load 2 (txq + offsetof_clean_index) m

unfoldable pub tx_index : ℕ → Memory → ℕ
tx_index txq m = load 2 (txq + offsetof_tx_index) m

unfoldable pub virtual_address : ℕ → ℕ → Memory → ℕ
virtual_address txq i m = load 8 (virtual_address_at txq i) m

unfoldable pub set_descriptors : ℕ → ℕ → Memory → Memory
set_descriptors txq p m = store 8 txq p m

unfoldable pub set_num_entries : ℕ → ℕ → Memory → Memory
set_num_entries txq n m = store 2 (txq + offsetof_num_entries) (n % 2 ^ 16) m

unfoldable pub set_tx_index : ℕ → ℕ → Memory → Memory
set_tx_index txq i m = store 2 (txq + offsetof_tx_index) (i % 2 ^ 16) m

unfoldable pub set_virtual_address : ℕ → ℕ → ℕ → Memory → Memory
set_virtual_address txq i p m = store 8 (virtual_address_at txq i) p m
