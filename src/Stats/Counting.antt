-- ===== src/Stats/Counting.antt =====
-- What the counters hold after several readings.
use ixgbe82599_driver.Base.{◌<◌, ℕ, ◌+◌, ◌%◌, ◌^◌, ◌≡◌, List, [], ◌∷◌, arith}
use ixgbe82599_driver.Stats.{clear_stats, Stats, Reading, add_reading}

-- The readings that n calls of read_counters give, one after the other.
abbrev pub add_all : List Reading → Stats → Stats
add_all [] s = s
add_all (r ∷ rs) s = add_all rs (add_reading r s)

abbrev pub sum_of : (Reading → ℕ) → List Reading → ℕ
sum_of f [] = 0
sum_of f (r ∷ rs) = f r + sum_of f rs

counts :
    (rs : List Reading) (s : Stats)
    → (((add_all rs s).tx_pkts_num % 2 ^ 16 ≡ (s.tx_pkts_num + sum_of (λ r. r.tx_pkts) rs) % 2 ^ 16)
        × ((add_all rs s).rx_pkts_num % 2 ^ 16
            ≡ (s.rx_pkts_num + sum_of (λ r. r.rx_pkts) rs) % 2 ^ 16)
        × ((add_all rs s).tx_bytes % 2 ^ 64 ≡ (s.tx_bytes + sum_of (λ r. r.tx_bytes) rs) % 2 ^ 64)
        × ((add_all rs s).rx_bytes % 2 ^ 64 ≡ (s.rx_bytes + sum_of (λ r. r.rx_bytes) rs) % 2 ^ 64))
unfolding add_reading
counts [] s = (omega arith, omega arith, omega arith, omega arith)
counts (r ∷ rs) s =
    let h = counts rs (add_reading r s) in
    (omega (arith, h.0), omega (arith, h.1), omega (arith, h.2), omega (arith, h.3))

record InRange (s : Stats) : Type 0 where
  rx_pkts : s.rx_pkts_num < 2 ^ 16
  tx_pkts : s.tx_pkts_num < 2 ^ 16
  rx : s.rx_bytes < 2 ^ 64
  tx : s.tx_bytes < 2 ^ 64

add_all-InRange : (rs : List Reading) (s : Stats) → InRange s → InRange (add_all rs s)
unfolding add_reading
add_all-InRange [] s h = h
add_all-InRange (r ∷ rs) s h = add_all-InRange rs (add_reading r s) (omega arith)

-- When readings are added, one after the other, to cleared counters, these hold the sums of what
-- was read: the bytes modulo 2^64, but the packets, whose registers have 32 bits, modulo 2^16.
pub stats-sum :
    (rs : List Reading) (old : Stats)
    → add_all rs (clear_stats old) ≡ record {
      rx_pkts_num = sum_of (λ r. r.rx_pkts) rs % 2 ^ 16;
      tx_pkts_num = sum_of (λ r. r.tx_pkts) rs % 2 ^ 16;
      rx_bytes = sum_of (λ r. r.rx_bytes) rs % 2 ^ 64;
      tx_bytes = sum_of (λ r. r.tx_bytes) rs % 2 ^ 64;
    }
unfolding clear_stats
stats-sum rs old =
    let start = clear_stats old in
    let h = counts rs start in
    let v = add_all-InRange rs start (omega arith) in
    ground (arith, h.0, h.1, h.2, h.3, v.rx_pkts, v.tx_pkts, v.rx, v.tx)
