-- ===== src/Recv/Stats.antt =====
-- recv/stats.c. The text is that of send/, and so are the definitions.
use ixgbe82599_driver.Base.{List, Option, ℕ}
use ixgbe82599_driver.World.{Env, Run}
use ixgbe82599_driver.Stats.{Stats, Line}
use ixgbe82599_driver.Stats

abbrev pub clear_stats : Stats → Stats
clear_stats = Stats.clear_stats

abbrev pub read_stats : Env → (addr : ℕ) → Option Stats → Run (Option Stats)
read_stats = Stats.read_stats

abbrev pub print_tx_stats : Stats → List Line
print_tx_stats = Stats.print_tx_stats

abbrev pub print_rx_stats : Stats → List Line
print_rx_stats = Stats.print_rx_stats
