-- ===== src/Recv/Structs.antt =====
-- recv/struct.h: the structures that are those of send/struct.h.
use ixgbe82599_driver.World
use ixgbe82599_driver.Stats

abbrev pub PktBuf : Type 0
PktBuf = World.PktBuf

abbrev pub DmaAddress : Type 0
DmaAddress = World.DmaAddress

abbrev pub Mempool : Type 0
Mempool = World.Mempool

abbrev pub IxgbeStats : Type 0
IxgbeStats = Stats.Stats
