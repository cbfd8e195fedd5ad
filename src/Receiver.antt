-- ===== src/Receiver.antt =====
-- recv/recv.c: the receiving program.
pub mod Rounds
use ixgbe82599_driver.Base.{
  ℕ, zero, suc, ◌+◌, ◌-◌, ◌%◌, ◌^◌, List, [], ◌∷◌, Option, none, some, pure, ◌>>=◌, ◌>>◌, ltb,
  if◌then◌else◌,
}
use ixgbe82599_driver.World.{Env, Run}
use ixgbe82599_driver.Clock
use ixgbe82599_driver.Clock.{one_second}
use ixgbe82599_driver.Mmio.{sleep_us}
use ixgbe82599_driver.Recv.Stats.{read_stats}
use ixgbe82599_driver.Stats.{Stats}
use ixgbe82599_driver.Rx.{Device, rx_batch}
use ixgbe82599_driver.RxStart.{do_ixgbe}

abbrev pub batch_size : ℕ
batch_size = 500

abbrev pub zero_stats : Stats
zero_stats = record { rx_pkts_num = 0; tx_pkts_num = 0; rx_bytes = 0; tx_bytes = 0 }

module _ (env : Env) where
  abbrev pub monotonic_time : Run ℕ
  monotonic_time = Clock.monotonic_time env

  -- Rounds of the endless loop of main: the array `buf` and the counters.
  unfoldable pub receive_rounds :
      (rounds : ℕ) → Device → (prev_time : ℕ) → List ℕ → Option Stats → Run (List ℕ × Option Stats)
  receive_rounds zero ix_rx prev_time buf stats = pure (buf, stats)
  receive_rounds (suc rounds) ix_rx prev_time buf stats = do
    sleep_us 1000000
    (num_rx, buf') ← rx_batch env ix_rx 0 buf batch_size
    now_time ← monotonic_time
    stats' ←
        if ltb one_second ((now_time + 2 ^ 64 - prev_time) % 2 ^ 64)
        then read_stats env ix_rx.addr stats
        else pure stats
    receive_rounds rounds ix_rx prev_time buf' stats'

  -- main, for as many rounds as are asked for. None for the result -1.
  unfoldable pub main :
      (fuel rounds : ℕ) (argv : List (List ℕ)) (buf : List ℕ) → Run (Option (List ℕ × Option Stats))
  main fuel rounds (name ∷ pci_addr ∷ []) buf = do
    prev_time ← monotonic_time
    ix_rx ← do_ixgbe env fuel pci_addr 1 1
    end ← receive_rounds rounds ix_rx prev_time buf (some zero_stats)
    pure (some end)
  main fuel rounds argv buf = pure none
