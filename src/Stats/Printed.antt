-- ===== src/Stats/Printed.antt =====
-- What the program prints of its counters.
use ixgbe82599_driver.Base.{◌^◌, ◌<◌, ◌≡◌, List, [], ◌∷◌, arith}
use ixgbe82599_driver.Stats.{
  pos, tx_line, rx_line, bytes_line, print_tx_stats, print_rx_stats, clear_stats, Stats, Reading,
}
use ixgbe82599_driver.Stats.Counting.{add_all, sum_of, stats-sum}

-- After any number of readings added to cleared counters, print_tx_stats and print_rx_stats show
-- the exact sums of what was read, as long as these are fewer than 2^16 packets and fewer than 2^63
-- bytes in each direction.
pub print_stats-add_all :
    (rs : List Reading) (old : Stats)
    → sum_of (λ r. r.tx_pkts) rs < 2 ^ 16
    → sum_of (λ r. r.tx_bytes) rs < 2 ^ 63
    → sum_of (λ r. r.rx_pkts) rs < 2 ^ 16
    → sum_of (λ r. r.rx_bytes) rs < 2 ^ 63
    → (print_tx_stats (add_all rs (clear_stats old))
        ≡ tx_line (pos (sum_of (λ r. r.tx_pkts) rs))
          ∷ bytes_line (pos (sum_of (λ r. r.tx_bytes) rs))
          ∷ [])
      × (print_rx_stats (add_all rs (clear_stats old))
          ≡ rx_line (pos (sum_of (λ r. r.rx_pkts) rs))
            ∷ bytes_line (pos (sum_of (λ r. r.rx_bytes) rs))
            ∷ [])
unfolding print_tx_stats print_rx_stats
print_stats-add_all rs old tx_pkts tx_bytes rx_pkts rx_bytes =
    (rw (stats-sum rs old) (ground arith), rw (stats-sum rs old) (ground arith))
