-- ===== src/Sender.antt =====
-- send/through.c: the packets, the pool that holds them, and the sending program. Signals and timers
-- are not modelled; get_stats is what the timer's signal runs before it ends the program.
pub mod Bytes
pub mod Filled
pub mod NewPackets
pub mod Ready
pub mod Reposted
use ixgbe82599_driver.Base.{
  ℕ, zero, suc, ◌+◌, ◌-◌, ◌/◌, ◌%◌, ◌^◌, List, [], ◌∷◌, Option, none, some, pure, ◌>>=◌, ◌>>◌, get,
  modify, lift, set?, update, take, drop, ◌++◌,
}
use ixgbe82599_driver.World.{Env, Run}
use ixgbe82599_driver.Pool.{alloc_pkt_buf, alloc_pkt_buf_batch, pkt_buf_free}
use ixgbe82599_driver.Dma.{allocate_mempool_mem}
use ixgbe82599_driver.Checksum.{half_words, calc_ip_checksum}
use ixgbe82599_driver.TxQueue.{Device}
use ixgbe82599_driver.Tx.{transmit}
use ixgbe82599_driver.Stats.{Stats, read_stats}
use ixgbe82599_driver.Start.{do_ixgbe}

-- pkt_data for packets of `pkt_size` bytes, with the four bytes at its end.
abbrev pub packet_of : (pkt_size : ℕ) (tag : List ℕ) → List ℕ
packet_of pkt_size tag =
    (0x01 ∷ 0x02 ∷ 0x03 ∷ 0x04 ∷ 0x05 ∷ 0x06 ∷ [])
    ++ ((0x07 ∷ 0x08 ∷ 0x09 ∷ 0x10 ∷ 0x11 ∷ 0x12 ∷ [])
        ++ ((0x08 ∷ 0x13 ∷ [])
            ++ ((0x45 ∷ 0x00 ∷ [])
                ++ (((pkt_size - 14) / 2 ^ 8 ∷ (pkt_size - 14) % 2 ^ 8 ∷ [])
                    ++ ((0x00 ∷ 0x00 ∷ 0x00 ∷ 0x00 ∷ [])
                        ++ ((0x40 ∷ 0x11 ∷ 0x00 ∷ 0x00 ∷ [])
                            ++ ((0x0a ∷ 0x00 ∷ 0x00 ∷ 0x01 ∷ [])
                                ++ ((0x0a ∷ 0x00 ∷ 0x00 ∷ 0x02 ∷ [])
                                    ++ ((0x00 ∷ 0x2a ∷ 0x05 ∷ 0x39 ∷ [])
                                        ++ (((pkt_size - 20 - 14) / 2 ^ 8
                                              ∷ (pkt_size - 20 - 14) % 2 ^ 8
                                              ∷ [])
                                            ++ ((0x00 ∷ 0x00 ∷ []) ++ tag)))))))))))

abbrev pub pkt_size : ℕ
pkt_size = 1210

abbrev pub batch_size : ℕ
batch_size = 68

abbrev pub pkt_data : List ℕ
pkt_data = packet_of pkt_size (b's' ∷ b'i' ∷ b'i' ∷ b'b' ∷ [])

abbrev pub num_bufs : ℕ
num_bufs = 2048

-- memcpy to the start of `dst`; none where it writes past the end.
unfoldable pub copy_bytes : (dst src : List ℕ) → Option (List ℕ)
copy_bytes dst [] = some dst
copy_bytes [] (x ∷ src) = none
copy_bytes (d ∷ dst) (x ∷ src) = elim (copy_bytes dst src) [ none ↦ none | some r ↦ some (x ∷ r) ]

-- `*(uint16_t *)(bytes + i) = v`.
unfoldable pub store_half : (i v : ℕ) → List ℕ → Option (List ℕ)
store_half i v bytes = elim (set? bytes i (v % 256)) [
  | none ↦ none
  | some lo ↦ set? lo (i + 1) (v / 256 % 256)
]

-- The bytes of a buffer once a packet was copied into it and its checksum was put in its place.
unfoldable pub packet_bytes : (packet bytes : List ℕ) → Option (List ℕ)
packet_bytes packet bytes = elim (copy_bytes bytes packet) [
  | none ↦ none
  | some copied ↦ elim (calc_ip_checksum (half_words (take 20 (drop 14 copied))) 20) [
    | none ↦ none
    | some checksum ↦ store_half 24 checksum copied
  ]
]

-- What a round of the first loop of init_mempool does with its buffer.
unfoldable pub init_packet : (packet : List ℕ) (size buf : ℕ) → Run (Unit {0})
init_packet packet size buf = do
  w ← get
  b ← lift (w.bufs buf)
  bytes ← lift (packet_bytes packet b.bytes)
  modify
      (λ u. record u { bufs = update u.bufs buf (some (record b { size = size; bytes = bytes })) })

-- The two loops, with the rounds left and the buffers left.
unfoldable pub init_packets : (rounds mempool : ℕ) (packet : List ℕ) (size : ℕ) → Run (List ℕ)
init_packets zero mempool packet size = pure []
init_packets (suc rounds) mempool packet size = do
  buf ← alloc_pkt_buf mempool
  init_packet packet size buf
  bufs ← init_packets rounds mempool packet size
  pure (buf ∷ bufs)

unfoldable pub free_bufs : List ℕ → Run (Unit {0})
free_bufs [] = pure tt
free_bufs (buf ∷ bufs) = pkt_buf_free buf >> free_bufs bufs

module _ (env : Env) where
  unfoldable pub init_mempool_with : (packet : List ℕ) (size : ℕ) → Run ℕ
  init_mempool_with packet size = do
    mempool ← allocate_mempool_mem env num_bufs 0
    bufs ← init_packets num_bufs mempool packet size
    free_bufs bufs
    pure mempool

  -- init_mempool of through.c: the size is an int.
  unfoldable pub init_mempool : (size : ℕ) → Run ℕ
  init_mempool size = init_mempool_with pkt_data (size % 2 ^ 32)

  -- The handler of the signal, up to the call of exit.
  unfoldable pub get_stats : Device → Stats → Run (Option Stats)
  get_stats ix_tx stats = read_stats env ix_tx.addr (some stats)

  -- Rounds of the endless loop of main; its result is the array `buf`.
  unfoldable pub send_rounds : (rounds : ℕ) → Device → (memp : ℕ) → List ℕ → Run (List ℕ)
  send_rounds zero ix_tx memp buf = pure buf
  send_rounds (suc rounds) ix_tx memp buf = do
    transmit env ix_tx 0 buf batch_size
    (_, buf') ← alloc_pkt_buf_batch memp buf batch_size
    send_rounds rounds ix_tx memp buf'

  -- main, for as many rounds as are asked for; `argv` holds the program's name and its arguments,
  -- `buf` what the array holds before. `atoi` is that of the C library. None for the result -1.
  unfoldable pub main :
      (atoi : List ℕ → ℕ) (fuel rounds : ℕ) (argv : List (List ℕ)) (buf : List ℕ)
      → Run (Option (List ℕ))
  main atoi fuel rounds (name ∷ pci_addr ∷ size ∷ []) buf = do
    memp ← init_mempool (atoi size)
    ix_tx ← do_ixgbe env fuel pci_addr 2 2
    (_, buf') ← alloc_pkt_buf_batch memp buf batch_size
    buf'' ← send_rounds rounds ix_tx memp buf'
    pure (some buf'')
  main atoi fuel rounds argv buf = pure none
