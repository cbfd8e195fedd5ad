-- ===== src/Examples.antt =====
-- The theorems of the other modules at concrete devices, pools and queues, and tests.
mod Data
mod Pools
mod Sending
mod Polls
mod Sums
mod Receiving
mod Filling
mod Exhausted
mod Answering
mod Starting
mod Files
mod Safety
mod Owned
