-- ===== src/Recv.antt =====
-- The receiver is built from its own copy of most files; the functions here have the text of those of
-- send/.
pub mod Mmio
pub mod Files
pub mod Pool
pub mod Dma
pub mod Pci
pub mod Vfio
pub mod Link
pub mod Stats
pub mod Structs
