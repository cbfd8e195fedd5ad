-- ===== src/App.antt =====
-- send/app.c: the other sending program. The function tx_batch that it calls stands in send/init.c
-- only as a comment, so it is a parameter.
use ixgbe82599_driver.Base.{
  ℕ, zero, suc, ◌+◌, ◌-◌, ◌%◌, ◌^◌, List, [], ◌∷◌, Option, none, some, pure, ◌>>=◌, ◌>>◌, ltb,
  if◌then◌else◌,
}
use ixgbe82599_driver.World.{Env, Run}
use ixgbe82599_driver.Checksum
use ixgbe82599_driver.Clock.{monotonic_time, one_second}
use ixgbe82599_driver.Mmio.{sleep_us}
use ixgbe82599_driver.Pool.{alloc_pkt_buf_batch}
use ixgbe82599_driver.Sender.{packet_of, init_mempool_with}
use ixgbe82599_driver.Start.{do_ixgbe}
use ixgbe82599_driver.Stats.{Stats, read_stats}
use ixgbe82599_driver.TxQueue.{Device}

abbrev pub pkt_size : ℕ
pkt_size = 60

abbrev pub batch_size : ℕ
batch_size = 60

abbrev pub pkt_data : List ℕ
pkt_data = packet_of pkt_size (b's' ∷ b'i' ∷ b'b' ∷ b'i' ∷ [])

abbrev pub calc_ip_checksum : (words : List ℕ) (len : ℕ) → Option ℕ
calc_ip_checksum = Checksum.calc_ip_checksum

abbrev pub zero_stats : Stats
zero_stats = record { rx_pkts_num = 0; tx_pkts_num = 0; rx_bytes = 0; tx_bytes = 0 }

module _ (env : Env)
    (tx_batch : Device → (queue_id : ℕ) → List ℕ → (num_bufs : ℕ) → Run (Unit {0})) where
  unfoldable pub init_mempool : Run ℕ
  init_mempool = init_mempool_with env pkt_data pkt_size

  -- The counters are read once a second has passed since the program started.
  unfoldable pub show_stats : Device → (prev_time now_time : ℕ) → Stats → Run (Option Stats)
  show_stats ix_tx prev_time now_time stats =
      if ltb one_second ((now_time + 2 ^ 64 - prev_time) % 2 ^ 64)
      then read_stats env ix_tx.addr (some stats)
      else pure (some stats)

  -- Rounds of the endless loop of main; the counters never become a NULL pointer.
  unfoldable pub app_rounds :
      (rounds : ℕ) → Device → (memp prev_time : ℕ) → List ℕ → Option Stats → Run (List ℕ)
  app_rounds zero ix_tx memp prev_time buf stats = pure buf
  app_rounds (suc rounds) ix_tx memp prev_time buf none = pure buf
  app_rounds (suc rounds) ix_tx memp prev_time buf (some stats) = do
    tx_batch ix_tx 0 buf batch_size
    now_time ← monotonic_time env
    sleep_us 1000000
    stats' ← show_stats ix_tx prev_time now_time stats
    (_, buf') ← alloc_pkt_buf_batch memp buf batch_size
    sleep_us 1000000
    app_rounds rounds ix_tx memp prev_time buf' stats'

  -- main, for as many rounds as are asked for. None for the result -1.
  unfoldable pub main :
      (fuel rounds : ℕ) (argv : List (List ℕ)) (buf : List ℕ) → Run (Option (List ℕ))
  main fuel rounds (name ∷ pci_addr ∷ []) buf = do
    memp ← init_mempool
    ix_tx ← do_ixgbe env fuel pci_addr 2 2
    prev_time ← monotonic_time env
    (_, buf') ← alloc_pkt_buf_batch memp buf batch_size
    sleep_us 1000000
    buf'' ← app_rounds rounds ix_tx memp prev_time buf' (some zero_stats)
    pure (some buf'')
  main fuel rounds argv buf = pure none
