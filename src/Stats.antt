-- ===== src/Stats.antt =====
-- send/stats.c and recv/stats.c: the packet and byte counters. The device clears its own counters
-- when they are read, so the driver adds up.
pub mod Counting
pub mod Printed
use ixgbe82599_driver.Base.{
  ◌-◌, List, [], ◌∷◌, ltb, if◌then◌else◌, ℕ, ◌+◌, ◌*◌, ◌%◌, ◌^◌, Option, none, some, pure, ◌>>=◌,
  ◌>>◌,
}
use ixgbe82599_driver.Ixgbe.Registers.{gprc, gptc, gorcl, gorch, gotcl, gotch}
use ixgbe82599_driver.World.{Env, Run}
use ixgbe82599_driver.Mmio.{get_reg32}

-- struct ixgbe_stats: the packet counters have 16 bits, the byte counters 64.
pub record Stats : Type 0 where
  pub rx_pkts_num : ℕ
  pub tx_pkts_num : ℕ
  pub rx_bytes : ℕ
  pub tx_bytes : ℕ

unfoldable pub clear_stats : Stats → Stats
clear_stats s = record { rx_pkts_num = 0; tx_pkts_num = 0; rx_bytes = 0; tx_bytes = 0 }

-- One reading of the six counters, of 32 bits each.
pub record Reading : Type 0 where
  pub rx_pkts : ℕ
  pub tx_pkts : ℕ
  pub rx_bytes : ℕ
  pub tx_bytes : ℕ

-- `get_reg32(L) + ((uint64_t)get_reg32(H) << 32)`.
abbrev pub wide : (lo hi : ℕ) → ℕ
wide lo hi = (lo + hi * 2 ^ 32) % 2 ^ 64

-- The additions to the fields.
unfoldable pub add_reading : Reading → Stats → Stats
add_reading r s = record {
  rx_pkts_num = (s.rx_pkts_num + r.rx_pkts) % 2 ^ 16;
  tx_pkts_num = (s.tx_pkts_num + r.tx_pkts) % 2 ^ 16;
  rx_bytes = (s.rx_bytes + r.rx_bytes) % 2 ^ 64;
  tx_bytes = (s.tx_bytes + r.tx_bytes) % 2 ^ 64;
}

-- A number with its sign.
pub data ℤ : Type 0 where
  pos : ℕ → ℤ
  negsuc : ℕ → ℤ

-- What `%ld`, which reads a long, shows of a uint64_t.
abbrev pub as_long : ℕ → ℤ
as_long n = if ltb n (2 ^ 63) then pos n else negsuc (2 ^ 64 - 1 - n)

-- A printed line: "TX pkt: %d", "RX pkt: %d" or "%ld bytes".
pub data Line : Type 0 where
  tx_line : ℤ → Line
  rx_line : ℤ → Line
  bytes_line : ℤ → Line

-- `%d` of a uint16_t shows the number itself.
unfoldable pub print_tx_stats : Stats → List Line
print_tx_stats s = tx_line (pos s.tx_pkts_num) ∷ bytes_line (as_long s.tx_bytes) ∷ []

unfoldable pub print_rx_stats : Stats → List Line
print_rx_stats s = rx_line (pos s.rx_pkts_num) ∷ bytes_line (as_long s.rx_bytes) ∷ []

module _ (env : Env) (addr : ℕ) where
  -- The loads of read_stats, and those of init_stats of init.c, which drops what it reads.
  unfoldable pub read_counters : Run Reading
  read_counters = do
    rx_pkts ← get_reg32 env addr gprc
    tx_pkts ← get_reg32 env addr gptc
    rx_lo ← get_reg32 env addr gorcl
    rx_hi ← get_reg32 env addr gorch
    tx_lo ← get_reg32 env addr gotcl
    tx_hi ← get_reg32 env addr gotch
    pure (record {
      rx_pkts = rx_pkts;
      tx_pkts = tx_pkts;
      rx_bytes = wide rx_lo rx_hi;
      tx_bytes = wide tx_lo tx_hi;
    })

  -- The pointer may be NULL; then the counters are read, and cleared by that, all the same.
  unfoldable pub read_stats : Option Stats → Run (Option Stats)
  read_stats none = read_counters >> pure none
  read_stats (some s) = do r ← read_counters; pure (some (add_reading r s))
