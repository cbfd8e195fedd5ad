-- ===== src/Lib.antt =====
-- A model of a userspace driver for the Intel 82599 network adapter (ixgbe), and its theorems.
--
-- The program is two directories with nearly the same files. send/ fills a pool of packet buffers,
-- posts them on a transmit ring and gives them back when the device is done; recv/ takes received
-- buffers off a receive ring. Both find the device, map its registers, run an initialisation
-- sequence, and poll.
--
-- The parts, and where the model of each stands:
--   Base        shared names: tests on numbers, lists over machine numbers, the monad of runs that
--               may fault, bit masks, byte-addressed memory, lists without repetition.
--   World       struct pkt_buf, struct mempool and struct dma_address of send/struct.h, the memory
--               of the queue structures, the global variables, and the trace of accesses.
--   Ixgbe       the register addresses and bits of send/ixgbe.h that the driver uses.
--   Sys         system calls on files, and send/lib.h: write_io32 and the like, read_io32 and the like.
--               ReadWrite is about a file that keeps what is written to it.
--   Pci         send/pci.c: remove_driver, enable_dma, pci_map_resource, pci_open_resource.
--   Vfio        send/vfio.c.
--   Mmio        send/lib.h: set_reg32, get_reg32, set_flag32, unset_flag32, wait_clear_reg32 and
--               wait_set_reg32. Talks is about runs that only talk to the device.
--   Pool        send/lib.c: alloc_pkt_buf_batch, alloc_pkt_buf, pkt_buf_free. Stack, Alloc and Free
--               see the pool as a stack of indices; Valid has the invariant. Owned is a relation
--               of the pool's calls, in any order, with the buffers that its clients hold.
--   Dma         send/lib.c: virt_to_phys, allocate_dma_address, allocate_mempool_mem.
--   TxQueue     struct tx_queue of send/struct.h as a layout of memory.
--   Tx          send/through.c: tx_clean, transmit, wrap_ring.
--   Link        send/init.c: ixgbe_get_link_speed, wait_for_link.
--   Checksum    send/through.c: calc_ip_checksum.
--   Stats       send/stats.c: clear_stats, read_stats, and what print_tx_stats and print_rx_stats print.
--   Init        send/init.c: init_link, init_stats, init_tx_reg, init_tx_queue, init_tx,
--               start_tx_queue, do_init_seq. Queues, Steps, Order and Returns have its
--               theorems.
--   Rx          recv/init.c and recv/struct.h: rx_batch, and the layout of struct rx_queue.
--               Refill and Batch are about its pool, Returned about its result.
--   RxInit      recv/init.c: init_rx_reg, init_rx_queue, init_rx, start_rx_queue, do_init_seq. Filled
--               and Started are about the buffers on a new ring.
--   Start       send/init.c: start_ixgbe, do_ixgbe; RxStart is those of recv/init.c. Ready is about
--               the queues after it, First about the first transmit. RxStart/Ready, One and Returns
--               are about the receiver's queue.
--   Recv        recv/: the functions whose text is that of send/, under their own names.
--   Sender      send/through.c: pkt_data, init_mempool, main; App is send/app.c. Bytes, Filled,
--               NewPackets and Ready lead to what init_mempool leaves; Reposted is about main.
--   Clock       monotonic_time.
--   Receiver    recv/recv.c: main, and Rounds about its loop.
--   Safety      which accesses of the sender are safe: to the registers of the device, or to memory
--               that was mapped for DMA.
--   Examples    the theorems at concrete devices, pools and queues.
--
-- How it is modelled. A run takes a World and gives a result with a new World, or none. None is a
-- fault: an access outside an array, a pointer to no object, or a loop whose fuel is used up. What
-- the world outside answers (registers, descriptors that the device writes back, uninitialised
-- memory, malloc, mmap, the page map) is the parameter Env, a function of the trace of all that the
-- program did before, so that a device may change its answer at any time. Pointers are addresses.
-- Pools and buffers are objects at an address, and where the header of a buffer is written into
-- another buffer, that one is an object no longer; queue structures are bytes in a memory, since the
-- driver lays them over each other. Numbers of the source wrap where the source's types do.
--
-- Bounds and fuel. The loops of tx_clean run on 2^16 units of fuel, the number of values of a uint16_t
-- index; the loop of wait_for_link on 101, since its waiting time allows 100 sleeps. The polling
-- loops of lib.h and vfio_map_dma have no limit in the source, and their fuel is a parameter; so are
-- the rounds of the endless loops of the main functions.
--
-- What is not modelled: signals, timers, and printing but for the lines of send/stats.c; the user
-- that the program runs as; failing calls of malloc, calloc and mmap for DMA, which the source does
-- not handle; the part of ixgbe.h that the driver does not use; tx_batch, which send/app.c calls and no file defines (send/init.c has it in a
-- comment), so it is a parameter of App.
pub mod Base
pub mod World
pub mod Ixgbe
pub mod Sys
pub mod Pci
pub mod Vfio
pub mod Mmio
pub mod Pool
pub mod Dma
pub mod TxQueue
pub mod Tx
pub mod Link
pub mod Checksum
pub mod Stats
pub mod Init
pub mod Recv
pub mod Rx
pub mod RxInit
pub mod Start
pub mod RxStart
pub mod Safety
pub mod Clock
pub mod Sender
pub mod App
pub mod Receiver
pub mod Examples
