-- ===== src/Ixgbe.antt =====
-- The parts of send/ixgbe.h, which is the same file as recv/ixgbe.h, that the driver uses.
pub mod Registers
pub mod Flags
