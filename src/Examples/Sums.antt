-- ===== src/Examples/Sums.antt =====
-- The checksum and the counters.
use ixgbe82599_driver.Base.{ℕ, ◌*◌, ◌≡◌, refl, List, ◌∷◌, [], some, arith}
use ixgbe82599_driver.Checksum.{sum_words, add_word, calc_ip_checksum, half_words}
use ixgbe82599_driver.Checksum.Sum.{calc_ip_checksum-insert}
use ixgbe82599_driver.Stats.{
  Reading, clear_stats, print_tx_stats, print_rx_stats, tx_line, rx_line, bytes_line, pos,
}
use ixgbe82599_driver.Stats.Printed.{print_stats-add_all}
use ixgbe82599_driver.Stats.Counting.{add_all, stats-sum}

-- The words of an IPv4 header on either side of its checksum.
abbrev before_sum : List ℕ
before_sum = 0x4500 ∷ 0x0073 ∷ 0x0000 ∷ 0x4000 ∷ 0x4011 ∷ []

abbrev after_sum : List ℕ
after_sum = 0xc0a8 ∷ 0x0001 ∷ 0xc0a8 ∷ 0x00c7 ∷ []

abbrev ip_header : ℕ → List ℕ
ip_header checksum =
    0x4500 ∷ 0x0073 ∷ 0x0000 ∷ 0x4000 ∷ 0x4011 ∷ checksum ∷ 0xc0a8 ∷ 0x0001 ∷ 0xc0a8 ∷ 0x00c7 ∷ []

ip_header_sum : calc_ip_checksum (ip_header 0) 20 ≡ some 0xb861
unfolding calc_ip_checksum sum_words add_word
ip_header_sum = refl

half_words_bytes : half_words (0x45 ∷ 0x00 ∷ 0x73 ∷ []) ≡ 0x0045 ∷ []
unfolding half_words
half_words_bytes = refl

calc_ip_checksum-insert_example :
    (c : ℕ) × (calc_ip_checksum (ip_header 0) 20 ≡ some c)
    × (calc_ip_checksum (ip_header c) 20 ≡ some 0)
calc_ip_checksum-insert_example = calc_ip_checksum-insert before_sum after_sum (
  omega arith,
  (
    omega arith,
    (
      omega arith,
      (
        omega arith,
        (
          omega arith,
          (omega arith, (omega arith, (omega arith, (omega arith, (omega arith, tt))))),
        ),
      ),
    ),
  ),
)

abbrev reading : ℕ → Reading
reading n = record { rx_pkts = n; tx_pkts = 2 * n; rx_bytes = 60 * n; tx_bytes = 120 * n }

-- 50000 packets counted twice leave 34464 in the 16 bits.
stats-sum_example :
    add_all
      (reading 50000 ∷ reading 50000 ∷ [])
      (clear_stats (record { rx_pkts_num = 9; tx_pkts_num = 9; rx_bytes = 9; tx_bytes = 9 }))
    ≡ record { rx_pkts_num = 34464; tx_pkts_num = 3392; rx_bytes = 6000000; tx_bytes = 12000000 }
stats-sum_example =
    stats-sum (reading 50000 ∷ reading 50000 ∷ [])
      (record { rx_pkts_num = 9; tx_pkts_num = 9; rx_bytes = 9; tx_bytes = 9 })

print_stats-add_all_example :
    (print_tx_stats (
        add_all
          (reading 300 ∷ reading 200 ∷ [])
          (clear_stats (record { rx_pkts_num = 9; tx_pkts_num = 9; rx_bytes = 9; tx_bytes = 9 })))
      ≡ tx_line (pos 1000) ∷ bytes_line (pos 60000) ∷ [])
    × (print_rx_stats (
          add_all
            (reading 300 ∷ reading 200 ∷ [])
            (clear_stats (record { rx_pkts_num = 9; tx_pkts_num = 9; rx_bytes = 9; tx_bytes = 9 })))
        ≡ rx_line (pos 500) ∷ bytes_line (pos 30000) ∷ [])
print_stats-add_all_example =
    print_stats-add_all (reading 300 ∷ reading 200 ∷ [])
      (record { rx_pkts_num = 9; tx_pkts_num = 9; rx_bytes = 9; tx_bytes = 9 }) (omega arith)
      (omega arith) (omega arith) (omega arith)
